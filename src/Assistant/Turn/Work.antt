-- ===== src/Assistant/Turn/Work.antt =====
-- What a request and its calls add to a turn of the assistant (assistant/service.py).
use terraformer.Base.{
  ℕ, suc, ◌+◌, ◌≡◌, refl, sym, ◌∙◌, ap, Bool, true, false, not, ◌||◌, ◌&&◌, ◌⊎◌, inl, inr,
  Bool-cases, List, [], ◌∷◌, ◌++◌, append_assoc, append-nil, map, if◌then◌else◌, ltb, is_empty,
  arith, All, All-append, none,
}
use terraformer.Text.{Text, is_some}
use terraformer.Assistant.Context.{ChatMessage, History, assistant, is_tool}
use terraformer.Assistant.Turn.{
  ToolCallRequest, Reply, AssistantEvent, token, tool_call, tool_result, change_plan_proposed, done,
  ToolResult, ToolAnswer, answered, TurnError, tool_raised, Env, Turn, max_calls, concatenated,
  add_message, emit, prepared, heard, answer_call, run_calls, ask_model, result_event,
}

abbrev pub is_done : AssistantEvent → Bool
is_done done = true
is_done (token t) = false
is_done (tool_call t) = false
is_done (tool_result t) = false
is_done (change_plan_proposed t) = false

abbrev pub IsWork : List AssistantEvent → Type 0
IsWork = All (λ e. is_done e ≡ false)

-- How many tool results a history holds.
unfoldable pub result_count : History → ℕ
result_count [] = 0
result_count (m ∷ ms) = (if is_tool m.role then 1 else 0) + result_count ms

pub result_count-append :
    (xs ys : History) → result_count (xs ++ ys) ≡ result_count xs + result_count ys
unfolding result_count
result_count-append [] ys = omega arith
result_count-append (x ∷ xs) ys = omega (arith, result_count-append xs ys)

-- Work that leaves the turn open: more events, none of which ends it.
abbrev pub Works : Turn → Turn → Type 0
Works t r = (xs : List AssistantEvent) × ((r.events ≡ t.events ++ xs) × IsWork xs)

pub stays : (t : Turn) → Works t t
stays t = ([], (sym (append-nil t.events), tt))

pub Works-trans : (a b c : Turn) → Works a b → Works b c → Works a c
Works-trans a b c (xs, (p, h)) (ys, (q, k)) = (
  xs ++ ys,
  (
    q ∙ ap (λ (l : List AssistantEvent). l ++ ys) p ∙ append_assoc a.events xs ys,
    All-append (λ e. is_done e ≡ false) xs ys h k,
  ),
)

pub tokens-IsWork : (ts : List Text) → IsWork (map token ts)
tokens-IsWork [] = tt
tokens-IsWork (t ∷ ts) = (refl, tokens-IsWork ts)

-- A message that may be stored or not.
abbrev pub stored_if : Bool → ChatMessage → Turn → Turn
stored_if b m t = if b then add_message m t else t

pub stored_if-Works :
    (b : Bool) (m : ChatMessage) (t u : Turn) → Works t u → Works t (stored_if b m u)
unfolding add_message
stored_if-Works true m t u w = w
stored_if-Works false m t u w = w

pub one_other : (b : Bool) → b ≡ false → (n : ℕ) → n + ((if b then 1 else 0) + 0) ≡ n
one_other true e n = ground arith
one_other false e n = omega arith

pub stored_if-counts :
    (b : Bool) (m : ChatMessage) (t : Turn)
    → is_tool m.role ≡ false
    → ((stored_if b m t).requests ≡ t.requests)
      × ((stored_if b m t).calls_made ≡ t.calls_made)
      × (result_count (stored_if b m t).stored ≡ result_count t.stored)
      × ((stored_if b m t).failure ≡ t.failure)
unfolding add_message result_count
stored_if-counts true m t e = (
  refl,
  refl,
  result_count-append t.stored (m ∷ []) ∙ one_other (is_tool m.role) e (result_count t.stored),
  refl,
)
stored_if-counts false m t e = (refl, refl, refl, refl)

pub stores : Reply → Bool
stores reply =
    not (is_some reply.failure)
    && (not (is_empty (concatenated reply.tokens)) || not (is_empty reply.calls))

abbrev pub heard_message : Reply → ChatMessage
heard_message reply = record {
  role = assistant;
  content = concatenated reply.tokens;
  tool_call_id = none;
  tool_calls = map (λ (c : ToolCallRequest). c.id) reply.calls;
}

-- A turn with what was received, before anything is stored.
abbrev pub received : Reply → Turn → Turn
received reply t = record (emit (map token reply.tokens) t) {
  requests = suc t.requests;
  failure = reply.failure;
}

pub heard-Works : (reply : Reply) (t : Turn) → Works t (heard reply t)
unfolding heard stores
heard-Works reply t =
    stored_if-Works (stores reply) (heard_message reply) t (received reply t)
      (map token reply.tokens, (refl, tokens-IsWork reply.tokens))

pub heard-counts :
    (reply : Reply) (t : Turn)
    → ((heard reply t).requests ≡ suc t.requests)
      × ((heard reply t).calls_made ≡ t.calls_made)
      × (result_count (heard reply t).stored ≡ result_count t.stored)
      × ((heard reply t).failure ≡ reply.failure)
unfolding heard stores
heard-counts reply t = stored_if-counts (stores reply) (heard_message reply) (received reply t) refl

pub ask_model-Works : (env : Env) (final : Bool) (t : Turn) → Works t (ask_model env final t).1
unfolding ask_model prepared
ask_model-Works env final t = heard-Works (ask_model env final t).0 (prepared env final t)

pub ask_model-counts :
    (env : Env) (final : Bool) (t : Turn)
    → ((ask_model env final t).1.requests ≡ suc t.requests)
      × ((ask_model env final t).1.calls_made ≡ t.calls_made)
      × (result_count (ask_model env final t).1.stored ≡ result_count t.stored)
      × ((ask_model env final t).1.failure ≡ (ask_model env final t).0.failure)
unfolding ask_model prepared
ask_model-counts env final t = heard-counts (ask_model env final t).0 (prepared env final t)

pub result_event-IsWork : (c : ToolCallRequest) (b : Bool) → is_done (result_event c b) ≡ false
result_event-IsWork c true = refl
result_event-IsWork c false = refl

pub answer_call-Works :
    (c : ToolCallRequest) (r : ToolResult) (t : Turn) → Works t (answer_call c r t)
unfolding answer_call add_message
answer_call-Works c r t = (
  tool_call c.name ∷ result_event c r.proposed ∷ [],
  (refl, (refl, (result_event-IsWork c r.proposed, tt))),
)

-- What a tool gave.
pub answer-cases :
    (a : ToolAnswer)
    → ((r : ToolResult) × (a ≡ answered r)) ⊎ ((e : TurnError) × (a ≡ tool_raised e))
answer-cases (answered r) = inl (r, refl)
answer-cases (tool_raised e) = inr (e, refl)

pub run_calls-Works :
    (env : Env) (cs : List ToolCallRequest) (t : Turn) → Works t (run_calls env cs t)
unfolding run_calls
run_calls-Works env [] t = stays t
run_calls-Works env (c ∷ cs) t =
    let counted : Turn = record t { calls_made = suc t.calls_made } in
    elim (Bool-cases (ltb max_calls (suc t.calls_made))) [
      | inl o ↦ rw (o, run_calls) (stays t)
      | inr o ↦ elim (answer-cases (env.run_tool c)) [
        | inl (r, e) ↦
            rw (o, run_calls, e)
              (Works-trans t (answer_call c r counted) (run_calls env cs (answer_call c r counted))
                (answer_call-Works c r counted) (run_calls-Works env cs (answer_call c r counted)))
        | inr (x, e) ↦ rw (o, run_calls, e) (tool_call c.name ∷ [], (refl, (refl, tt)))
      ]
    ]
