-- ===== src/Assistant/Turn/Socket/Ends.antt =====
-- How the socket of the chat is left (api/assistant.py over `handle_user_message` of assistant/service.py).
use terraformer.Base.{
  ℕ, zero, suc, ◌≤◌, ◌≡◌, refl, subst, ◌∙◌, ap, Bool, true, false, Option, none, some, List, [],
  ◌∷◌, ◌++◌, append-nil, map, arith, ltb, is_empty, Bool-cases, inl, inr,
}
use terraformer.Text.{codes, is_some}
use terraformer.Errors.{code}
use terraformer.Assistant.Context.{History}
use terraformer.Assistant.Turn.{
  ToolCallRequest, ToolResult, answered, AssistantEvent, done, TurnError, provider, app, other, Env,
  Turn, max_calls, run_calls, ask_model, run_rounds, run_turn, is_zero, started,
}
use terraformer.Assistant.Turn.Work.{IsWork, result_count, ask_model-counts}
use terraformer.Assistant.Turn.Bounds.{ending, run_turn-Finished, ToolsAnswer, run_calls-failure}
use terraformer.Assistant.Turn.Socket.{
  Frame, event, error, error_frames, stays_open, served, answer_message,
}

-- The frames are those of some work and then these.
abbrev pub WorkThen : List Frame → List Frame → Type 0
WorkThen last frames =
    (body : List AssistantEvent) × ((frames ≡ map event body ++ last) × IsWork body)

-- One last frame, `done` or an error's, and an open socket; or a socket torn down by another exception.
abbrev pub SocketEnds : Option TurnError → List Frame × Bool → Type 0
SocketEnds none (frames, stays) = WorkThen (event done ∷ []) frames × (stays ≡ true)
SocketEnds (some provider) (frames, stays) =
    WorkThen (error (codes "provider_unreachable") ∷ []) frames × (stays ≡ true)
SocketEnds (some (app e)) (frames, stays) =
    WorkThen (error (codes (code e)) ∷ []) frames × (stays ≡ true)
SocketEnds (some other) (frames, stays) = WorkThen [] frames × (stays ≡ false)

map-append : (xs ys : List AssistantEvent) → map event (xs ++ ys) ≡ map event xs ++ map event ys
map-append [] ys = refl
map-append (x ∷ xs) ys = ap (λ (l : List Frame). event x ∷ l) (map-append xs ys)

frames_lem :
    (f : Option TurnError) (events body : List AssistantEvent)
    → events ≡ body ++ ending f
    → IsWork body
    → SocketEnds f (map event events ++ error_frames f, stays_open f)
unfolding error_frames
frames_lem none events body e w = (
  (body, (append-nil (map event events) ∙ ap (map event) e ∙ map-append body (done ∷ []), w)),
  refl,
)
frames_lem (some provider) events body e w = (
  (
    body,
    (
      ap (λ (l : List AssistantEvent). map event l ++ error (codes "provider_unreachable") ∷ [])
          (e ∙ append-nil body),
      w,
    ),
  ),
  refl,
)
frames_lem (some (app x)) events body e w = (
  (
    body,
    (
      ap (λ (l : List AssistantEvent). map event l ++ error (codes (code x)) ∷ [])
          (e ∙ append-nil body),
      w,
    ),
  ),
  refl,
)
frames_lem (some other) events body e w =
    ((body, (ap (λ (l : List AssistantEvent). map event l ++ []) (e ∙ append-nil body), w)), refl)

pub run_turn-ends :
    (env : Env) (history : History)
    → SocketEnds (run_turn env history).failure (answer_message env history)
      × ((run_turn env history).requests ≤ 13)
      × (result_count (run_turn env history).stored ≤ 40)
unfolding answer_message served result_count
run_turn-ends env history =
    let ((body, (e, w)), b, c) = run_turn-Finished env history in
    (
      frames_lem (run_turn env history).failure (run_turn env history).events body e w,
      b,
      omega (arith, c),
    )

-- Nothing that is asked raises.
abbrev pub NeverRaises : Env → Type 0
NeverRaises env =
    ((n : ℕ) (offered : Bool) (h : History) → (env.stream_chat n offered h).failure ≡ none)
    × ToolsAnswer env

reply-failure :
    (env : Env) (final : Bool) (t : Turn)
    → NeverRaises env
    → (ask_model env final t).0.failure ≡ none
unfolding ask_model
reply-failure env final t h = h.0 t.requests _ _

run_rounds-failure :
    (env : Env) (left : ℕ) (t : Turn)
    → NeverRaises env
    → t.failure ≡ none
    → (run_rounds env left t).failure ≡ none
unfolding run_rounds
run_rounds-failure env zero t h n = n
run_rounds-failure env (suc left) t h n =
    let reply = (ask_model env (is_zero left) t).0 in
    let heard_turn = (ask_model env (is_zero left) t).1 in
    let called = run_calls env reply.calls heard_turn in
    let f = reply-failure env (is_zero left) t h in
    let (_, _, _, failed) = ask_model-counts env (is_zero left) t in
    let g = run_calls-failure env reply.calls heard_turn h.1 ∙ failed ∙ f in
    elim (Bool-cases (is_empty reply.calls)) [
      | inl e ↦ rw (ap is_some f, e) (failed ∙ f)
      | inr e ↦ elim (Bool-cases (ltb max_calls called.calls_made)) [
        | inl o ↦ rw (ap is_some f, e, ap is_some g, o) g
        | inr o ↦ rw (ap is_some f, e, ap is_some g, o) (run_rounds-failure env left called h g)
      ]
    ]

-- If neither the model nor a tool raises, whatever they answer, the socket sends some work and then
-- `done`, and it stays open.
pub quiet_turn_done :
    (env : Env) (history : History)
    → ((n : ℕ) (offered : Bool) (h : History) → (env.stream_chat n offered h).failure ≡ none)
    → ((c : ToolCallRequest) → (r : ToolResult) × (env.run_tool c ≡ answered r))
    → WorkThen (event done ∷ []) (answer_message env history).0
      × ((answer_message env history).1 ≡ true)
unfolding run_turn
quiet_turn_done env history streams tools =
    subst (λ (f : Option TurnError). SocketEnds f (answer_message env history))
      (run_rounds-failure env 13 (started env history) (streams, tools) refl)
      (run_turn-ends env history).0
