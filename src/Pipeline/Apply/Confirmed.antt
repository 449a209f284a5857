-- ===== src/Pipeline/Apply/Confirmed.antt =====
-- A plan that is reported applied was confirmed by what the device answered.
use terraformer.Base.{
  ◌≡◌, refl, ap, ◌∙◌, inl, inr, Bool, true, false, Option, none, some, List, [], ◌∷◌, sym,
}
use terraformer.Models.{ChangePlanStatus, draft, applied}
use terraformer.Drivers.Facts.{InterfaceFacts}
use terraformer.Pipeline.{
  ChangeStep, Outcome, returned, raised, Env, World, continue, ◌>>=◌, with_connection,
}
use terraformer.Pipeline.Reads.{Reads}
use terraformer.Pipeline.Apply.{
  attempt, after_attempt, apply_step, apply_steps, apply, failure_code, check, judge, send_and_read,
}
use terraformer.Pipeline.Apply.Attempt.{Outcome-cases}
use terraformer.Pipeline.Apply.Rollback.{rollback_lem}
use terraformer.Pipeline.Apply.Step.{inverse_of}
use terraformer.Pipeline.Apply.Start.{begun, apply_not_loaded, apply_cases}

judge-true :
    (o : Option Bool) (i j : List InterfaceFacts) (w : World)
    → (judge o i w).0 ≡ returned j
    → (o ≡ some true) × (j ≡ i)
unfolding judge ◌>>=◌
judge-true none i j w h = cc h
judge-true (some false) i j w h = cc h
judge-true (some true) i j w h = (refl, cc h)

-- The post-check of a step holds on what its connection read.
abbrev pub Confirmed : Env → ChangeStep → World → Type 0
Confirmed env step w =
    (reads : Reads) × ((with_connection env (send_and_read env step) w).0 ≡ returned reads)
    × (check step reads ≡ some true)

attempt-Confirmed :
    (env : Env) (step : ChangeStep) (w : World) (i : List InterfaceFacts)
    → (attempt env step w).0 ≡ returned i
    → Confirmed env step w
unfolding attempt ◌>>=◌
attempt-Confirmed env step w i h = go (with_connection env (send_and_read env step) w) refl h
  where
    go :
        (p : Outcome Reads × World)
        → with_connection env (send_and_read env step) w ≡ p
        → (continue p.0 (λ reads. judge (check step reads) reads.interfaces) p.1).0 ≡ returned i
        → Confirmed env step w
    go (returned reads, v) e k =
        (reads, ap (λ (p : Outcome Reads × World). p.0) e, (judge-true _ _ i v k).0)
    go (raised x, v) e k = cc k

after_attempt-Confirmed :
    (env : Env) (step : ChangeStep) (w : World) (r : Outcome (List InterfaceFacts)) (m v : World)
    → attempt env step w ≡ (r, m)
    → after_attempt env step r m ≡ (returned applied, v)
    → Confirmed env step w
unfolding after_attempt
after_attempt-Confirmed env step w (returned i) m v a h =
    attempt-Confirmed env step w i (ap (λ (p : Outcome (List InterfaceFacts) × World). p.0) a)
after_attempt-Confirmed env step w (raised e) m v a h =
    let (reports, (_, ends)) = rollback_lem env (inverse_of step) (failure_code e) m in
    let same = ap (λ (p : Outcome ChangePlanStatus × World). p.0) h in
    elim ends [
      | inl (rolled, _) ↦ cc (reports.0, same, rolled)
      | inr (rolled, _) ↦ cc (reports.0, same, rolled)
    ]

-- A draft of one step is reported applied only if the device, read back over the connection that took
-- the commands, passed the post-check of the step.
pub applied-Confirmed :
    (env : Env) (w v : World) (step : ChangeStep)
    → w.plan.steps ≡ step ∷ []
    → w.plan.status ≡ draft
    → apply env w ≡ (returned applied, v)
    → Confirmed env step (begun w)
unfolding apply_steps apply_step
applied-Confirmed env w v step one d h = elim (Outcome-cases (env.load w.clock)) [
  | inr (e, x) ↦
      cc (ap (λ (p : Outcome ChangePlanStatus × World). p.0) (sym (apply_not_loaded env w e x) ∙ h))
  | inl (u, x) ↦ elim (apply_cases env w u x d) [
    | inl (e, y) ↦ cc (ap (λ (p : Outcome ChangePlanStatus × World). p.0) (sym y ∙ h))
    | inr y ↦
        after_attempt-Confirmed env step (begun w) _ _ v refl
          (ap (λ steps. apply_steps env steps (begun w)) (sym one) ∙ sym y ∙ h)
  ]
]
