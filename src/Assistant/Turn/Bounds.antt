-- ===== src/Assistant/Turn/Bounds.antt =====
-- A turn of the assistant (assistant/service.py) ends, and does a bounded amount of work.
use terraformer.Base.{
  ℕ, zero, suc, ◌+◌, ◌≤◌, ◌≡◌, refl, sym, ◌∙◌, ap, false, List, [], ◌∷◌, ◌++◌, append_assoc,
  append-nil, ltb, is_empty, arith, All-append, Bool-cases, inl, inr, none, some, Option, true,
}
use terraformer.Text.{is_some}
use terraformer.Assistant.Context.{ChatMessage, History, tool}
use terraformer.Assistant.Turn.{
  ToolCallRequest, ToolResult, answered, TurnError, AssistantEvent, done, Env, Turn, max_rounds,
  max_calls, add_message, answer_call, run_calls, finish, ask_model, run_rounds, run_turn, is_zero,
  started,
}
use terraformer.Assistant.Turn.Work.{
  is_done, IsWork, result_count, result_count-append, Works, stays, Works-trans, answer-cases,
  ask_model-Works, ask_model-counts, run_calls-Works,
}

-- What the calls of a round add: `results` are the tool results stored.
abbrev pub Within : Turn → Turn → Type 0
Within t r =
    (r.requests ≡ t.requests)
    × (t.calls_made ≤ r.calls_made)
    × (result_count r.stored + t.calls_made ≤ result_count t.stored + max_calls)
    × (is_some r.failure ≡ false
        → r.calls_made ≤ max_calls
        → result_count r.stored + t.calls_made ≡ result_count t.stored + r.calls_made)

abbrev pub answer : ToolCallRequest → ToolResult → ChatMessage
answer c r = record { role = tool; content = r.payload; tool_call_id = some c.id; tool_calls = [] }

pub answer_call-counts :
    (c : ToolCallRequest) (r : ToolResult) (t : Turn)
    → result_count (answer_call c r t).stored ≡ suc (result_count t.stored)
unfolding answer_call add_message result_count
answer_call-counts c r t = result_count-append t.stored (answer c r ∷ []) ∙ omega arith

pub run_calls-Within :
    (env : Env) (cs : List ToolCallRequest) (t : Turn)
    → t.calls_made ≤ max_calls
    → Within t (run_calls env cs t)
unfolding run_calls
run_calls-Within env [] t h = (refl, omega arith, omega arith, λ _ _. refl)
run_calls-Within env (c ∷ cs) t h =
    let counted : Turn = record t { calls_made = suc t.calls_made } in
    elim (Bool-cases (ltb max_calls (suc t.calls_made))) [
      | inl o ↦ rw (o, run_calls) (refl, omega arith, omega arith, λ _ k. ground (arith, o, k))
      | inr o ↦ elim (answer-cases (env.run_tool c)) [
        | inl (r, e) ↦
            let next = answer_call c r counted in
            let (p, q, b, x) = run_calls-Within env cs next (ground (arith, o)) in
            let n = answer_call-counts c r counted in
            rw (o, run_calls, e) (p, omega arith, omega arith, λ f k. omega (arith, x f k))
        | inr (y, e) ↦
            rw (o, run_calls, e) (refl, omega arith, omega arith, λ f k. ground (arith, f))
      ]
    ]

-- No tool raises.
abbrev pub ToolsAnswer : Env → Type 0
ToolsAnswer env = (c : ToolCallRequest) → (r : ToolResult) × (env.run_tool c ≡ answered r)

answer_call-failure :
    (c : ToolCallRequest) (r : ToolResult) (t : Turn) → (answer_call c r t).failure ≡ t.failure
unfolding answer_call add_message
answer_call-failure c r t = refl

pub run_calls-failure :
    (env : Env) (cs : List ToolCallRequest) (t : Turn)
    → ToolsAnswer env
    → (run_calls env cs t).failure ≡ t.failure
unfolding run_calls
run_calls-failure env [] t h = refl
run_calls-failure env (c ∷ cs) t h =
    let counted : Turn = record t { calls_made = suc t.calls_made } in
    let (r, e) = h c in
    elim (Bool-cases (ltb max_calls (suc t.calls_made))) [
      | inl o ↦ rw (o, run_calls) refl
      | inr o ↦
          rw (o, run_calls, e)
            (run_calls-failure env cs (answer_call c r counted) h ∙ answer_call-failure c r counted)
    ]

-- What ends a turn: `done`, unless it raised.
abbrev pub ending : Option TurnError → List AssistantEvent
ending none = done ∷ []
ending (some e) = []

-- Ended by one `done` or by what it raised, after at most `left` more requests, and with the limit on
-- calls kept.
abbrev pub Finished : ℕ → Turn → Turn → Type 0
Finished left t r =
    ((body : List AssistantEvent) × ((r.events ≡ t.events ++ (body ++ ending r.failure))
        × IsWork body))
    × (r.requests ≤ t.requests + left)
    × (result_count r.stored + t.calls_made ≤ result_count t.stored + max_calls)

no_failure : (o : Option TurnError) → is_some o ≡ false → ending o ≡ done ∷ []
no_failure none e = refl
no_failure (some x) e = ground (arith, e)

a_failure : (o : Option TurnError) → is_some o ≡ true → ending o ≡ []
a_failure none e = ground (arith, e)
a_failure (some x) e = refl

finish-Finished :
    (left : ℕ) (t r : Turn)
    → Works t r
    → is_some r.failure ≡ false
    → r.requests ≤ t.requests + left
    → result_count r.stored + t.calls_made ≤ result_count t.stored + max_calls
    → Finished left t (finish r)
finish-Finished left t r (xs, (e, w)) f p q = (
  (
    xs,
    (
      ap (λ (l : List AssistantEvent). l ++ done ∷ []) e
          ∙ append_assoc t.events xs (done ∷ [])
          ∙ ap (λ (l : List AssistantEvent). t.events ++ (xs ++ l)) (sym (no_failure r.failure f)),
      w,
    ),
  ),
  p,
  q,
)

failed-Finished :
    (left : ℕ) (t r : Turn)
    → Works t r
    → is_some r.failure ≡ true
    → r.requests ≤ t.requests + left
    → result_count r.stored + t.calls_made ≤ result_count t.stored + max_calls
    → Finished left t r
failed-Finished left t r (xs, (e, w)) f p q = (
  (
    xs,
    (
      e
          ∙ ap (λ (l : List AssistantEvent). t.events ++ l) (sym (append-nil xs))
          ∙ ap (λ (l : List AssistantEvent). t.events ++ (xs ++ l)) (sym (a_failure r.failure f)),
      w,
    ),
  ),
  p,
  q,
)

-- Rounds after some work.
later-Finished :
    (left : ℕ) (t s r : Turn)
    → Works t s
    → s.requests ≡ suc t.requests
    → result_count s.stored + t.calls_made ≡ result_count t.stored + s.calls_made
    → Finished left s r
    → Finished (suc left) t r
later-Finished left t s r (xs, (e, w)) p q ((body, (g, v)), a, b) = (
  (
    xs ++ body,
    (
      g
          ∙ ap (λ (l : List AssistantEvent). l ++ (body ++ ending r.failure)) e
          ∙ append_assoc t.events xs (body ++ ending r.failure)
          ∙ ap (λ (l : List AssistantEvent). t.events ++ l)
              (sym (append_assoc xs body (ending r.failure))),
      All-append (λ k. is_done k ≡ false) xs body w v,
    ),
  ),
  omega arith,
  omega arith,
)

pub run_rounds-Finished :
    (env : Env) (left : ℕ) (t : Turn)
    → t.calls_made ≤ max_calls
    → is_some t.failure ≡ false
    → Finished left t (run_rounds env left t)
unfolding run_rounds
run_rounds-Finished env zero t h n =
    finish-Finished zero t t (stays t) n (omega arith) (omega arith)
run_rounds-Finished env (suc left) t h n =
    let reply = (ask_model env (is_zero left) t).0 in
    let heard_turn = (ask_model env (is_zero left) t).1 in
    let called = run_calls env reply.calls heard_turn in
    let (requests, made, results, failed) = ask_model-counts env (is_zero left) t in
    let (p, q, r, x) = run_calls-Within env reply.calls heard_turn (omega arith) in
    let heard_works = ask_model-Works env (is_zero left) t in
    let works =
      Works-trans t heard_turn called heard_works (run_calls-Works env reply.calls heard_turn) in
    let some_failure = ap is_some failed in
    elim (Bool-cases (is_some reply.failure)) [
      | inl f ↦ rw (f) (
          failed-Finished (suc left) t heard_turn heard_works (some_failure ∙ f) (omega arith)
            (omega arith))
      | inr f ↦ elim (Bool-cases (is_empty reply.calls)) [
        | inl e ↦
            rw (f, e)
              (finish-Finished (suc left) t heard_turn heard_works (some_failure ∙ f) (omega arith)
                (omega arith))
        | inr e ↦ elim (Bool-cases (is_some called.failure)) [
          | inl g ↦
              rw (f, e, g) (failed-Finished (suc left) t called works g (omega arith) (omega arith))
          | inr g ↦ elim (Bool-cases (ltb max_calls called.calls_made)) [
            | inl o ↦
                rw (f, e, g, o)
                  (finish-Finished (suc left) t called works g (omega arith) (omega arith))
            | inr o ↦
                let kept : called.calls_made ≤ max_calls = ground (arith, o) in
                let balance = x g kept in
                rw (f, e, g, o)
                  (later-Finished left t called (run_rounds env left called) works (omega arith)
                    (omega arith) (run_rounds-Finished env left called kept g))
          ]
        ]
      ]
    ]

-- The events of a turn are some work, and then one `done` unless the turn raised. The model is asked at
-- most thirteen times, and at most forty results of tools are stored, whether the turn raised or not.
pub run_turn-Finished :
    (env : Env) (history : History) → Finished 13 (started env history) (run_turn env history)
unfolding run_turn
run_turn-Finished env history =
    run_rounds-Finished env (suc max_rounds) (started env history) (omega arith) refl
