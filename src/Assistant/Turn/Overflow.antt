-- ===== src/Assistant/Turn/Overflow.antt =====
-- A reply that announces more calls than a turn may make (assistant/service.py).
use terraformer.Base.{
  ℕ, suc, ◌+◌, ◌≤◌, ◌<◌, ◌≡◌, refl, ◌∙◌, ap, Bool, true, false, List, [], ◌∷◌, ◌++◌, map, length,
  ltb, is_empty, not, ◌||◌, arith, Bool-cases, inl, inr, none,
}
use terraformer.Text.{is_some}
use terraformer.Assistant.Context.{History}
use terraformer.Assistant.Turn.{
  ToolCallRequest, ToolResult, answered, Reply, Env, Turn, max_rounds, max_calls, concatenated,
  add_message, prepared, heard, answer_call, run_calls, finish, ask_model, run_rounds, run_turn,
  started, is_zero,
}
use terraformer.Assistant.Turn.Work.{heard_message, result_count, ask_model-counts}
use terraformer.Assistant.Turn.Bounds.{answer, answer_call-counts, run_calls-failure}

-- How many calls the messages of a history announce.
unfoldable pub announced_count : History → ℕ
announced_count [] = 0
announced_count (m ∷ ms) = length m.tool_calls + announced_count ms

announced_count-append :
    (xs ys : History) → announced_count (xs ++ ys) ≡ announced_count xs + announced_count ys
unfolding announced_count
announced_count-append [] ys = omega arith
announced_count-append (x ∷ xs) ys = omega (arith, announced_count-append xs ys)

length-ids :
    (cs : List ToolCallRequest) → length (map (λ (c : ToolCallRequest). c.id) cs) ≡ length cs
length-ids [] = refl
length-ids (c ∷ cs) = ap suc (length-ids cs)

answer_call-announces :
    (c : ToolCallRequest) (r : ToolResult) (t : Turn)
    → announced_count (answer_call c r t).stored ≡ announced_count t.stored
unfolding answer_call add_message announced_count
answer_call-announces c r t = announced_count-append t.stored (answer c r ∷ []) ∙ omega arith

or_true : (a b : Bool) → b ≡ true → (a || b) ≡ true
or_true true b e = refl
or_true false b e = e

heard-announces :
    (reply : Reply) (t : Turn)
    → is_some reply.failure ≡ false
    → not (is_empty reply.calls) ≡ true
    → announced_count (heard reply t).stored ≡ announced_count t.stored + length reply.calls
unfolding heard add_message announced_count
heard-announces reply t f e =
    rw (f, or_true (not (is_empty (concatenated reply.tokens))) (not (is_empty reply.calls)) e)
      (announced_count-append t.stored (heard_message reply ∷ [])
        ∙ omega (arith, length-ids reply.calls))

-- The calls of a round that has too many: the first ones are answered, up to the limit.
run_calls-over :
    (env : Env) (cs : List ToolCallRequest) (t : Turn)
    → t.calls_made ≤ max_calls
    → max_calls < t.calls_made + length cs
    → ((c : ToolCallRequest) → (r : ToolResult) × (env.run_tool c ≡ answered r))
    → ((run_calls env cs t).calls_made ≡ suc max_calls)
      × ((run_calls env cs t).requests ≡ t.requests)
      × (result_count (run_calls env cs t).stored + t.calls_made
          ≡ result_count t.stored + max_calls)
      × (announced_count (run_calls env cs t).stored ≡ announced_count t.stored)
unfolding run_calls
run_calls-over env [] t h o tools = ground (arith, h, o)
run_calls-over env (c ∷ cs) t h o tools =
    let counted : Turn = record t { calls_made = suc t.calls_made } in
    let (r, a) = tools c in
    let next = answer_call c r counted in
    elim (Bool-cases (ltb max_calls (suc t.calls_made))) [
      | inl e ↦ rw (e, run_calls) (ground (arith, e, h), refl, ground (arith, e, h), refl)
      | inr e ↦
          let (made, requests, results, announced) =
            run_calls-over env cs next (ground (arith, e)) (omega (arith, o)) tools in
          let n = answer_call-counts c r counted in
          rw (e, run_calls, a)
            (made, requests, omega arith, announced ∙ answer_call-announces c r counted)
    ]

many-not_empty : (cs : List ToolCallRequest) → 40 < length cs → is_empty cs ≡ false
many-not_empty [] h = ground (arith, h)
many-not_empty (c ∷ cs) h = refl

over_branch :
    (f b g o : Bool) (u x v y z : Turn)
    → f ≡ false
    → b ≡ false
    → g ≡ false
    → o ≡ true
    → (elim f [
      | true ↦ u
      | false ↦ elim b [
        | true ↦ x
        | false ↦ elim g [ true ↦ v | false ↦ elim o [ true ↦ y | false ↦ z ] ]
      ]
    ])
      ≡ y
over_branch f b g o u x v y z p q r s = rw (p, q, r, s) refl

run_rounds-over :
    (env : Env) (left : ℕ) (t : Turn)
    → is_some (ask_model env (is_zero left) t).0.failure ≡ false
    → is_empty (ask_model env (is_zero left) t).0.calls ≡ false
    → is_some
        (run_calls env
          (ask_model env (is_zero left) t).0.calls
          (ask_model env (is_zero left) t).1).failure
      ≡ false
    → (run_calls env
        (ask_model env (is_zero left) t).0.calls
        (ask_model env (is_zero left) t).1).calls_made
      ≡ suc max_calls
    → run_rounds env (suc left) t
      ≡ finish (
          run_calls env (ask_model env (is_zero left) t).0.calls (ask_model env (is_zero left) t).1)
unfolding run_rounds
run_rounds-over env left t f e g made =
    let (reply, heard_turn) = ask_model env (is_zero left) t in
    let called = run_calls env reply.calls heard_turn in
    over_branch (is_some reply.failure) (is_empty reply.calls) (is_some called.failure)
      (ltb max_calls called.calls_made) heard_turn (finish heard_turn) called (finish called)
      (run_rounds env left called) f e g (ap (ltb max_calls) made)

ask_model-announces :
    (env : Env) (final : Bool) (t : Turn)
    → is_some (ask_model env final t).0.failure ≡ false
    → is_empty (ask_model env final t).0.calls ≡ false
    → announced_count (ask_model env final t).1.stored
      ≡ announced_count t.stored + length (ask_model env final t).0.calls
unfolding ask_model prepared
ask_model-announces env final t f e =
    heard-announces (ask_model env final t).0 (prepared env final t) f (ap not e)

-- When the first reply of a turn is complete and announces more than forty calls, and no tool raises,
-- forty of them are answered and the model is not asked again: the turn ends without an answer, and the
-- history that is stored announces calls that have no result.
pub overflow_ends_turn :
    (env : Env) (history : History)
    → (ask_model env false (started env history)).0.failure ≡ none
    → ((c : ToolCallRequest) → (r : ToolResult) × (env.run_tool c ≡ answered r))
    → 40 < length (ask_model env false (started env history)).0.calls
    → ((run_turn env history).requests ≡ 1)
      × (result_count (run_turn env history).stored ≡ 40)
      × (announced_count (run_turn env history).stored
          ≡ length (ask_model env false (started env history)).0.calls)
unfolding run_turn result_count announced_count
overflow_ends_turn env history whole tools o =
    let reply = (ask_model env false (started env history)).0 in
    let heard_turn = (ask_model env false (started env history)).1 in
    let (requests, made, results, failed) = ask_model-counts env false (started env history) in
    let (a, b, c, d) =
      run_calls-over env reply.calls heard_turn (omega (arith, made)) (omega (arith, made, o))
        tools in
    let e = many-not_empty reply.calls o in
    let f = ap is_some whole in
    let g = ap is_some (run_calls-failure env reply.calls heard_turn tools ∙ failed ∙ whole) in
    let over = run_rounds-over env max_rounds (started env history) f e g a in
    (
      ap (λ (t : Turn). t.requests) over ∙ b ∙ requests,
      ap (λ (t : Turn). result_count t.stored) over ∙ omega (arith, made, results),
      ap (λ (t : Turn). announced_count t.stored) over
          ∙ d
          ∙ ask_model-announces env false (started env history) f e
          ∙ omega arith,
    )
