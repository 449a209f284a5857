-- ===== src/Pipeline/Apply/Laws.antt =====
-- `apply` as a whole: which batches reach the driver, and in which status a plan is left.
use terraformer.Base.{
  ◌≡◌, ◌≢◌, refl, ap, subst, ◌∙◌, ◌⊎◌, inl, inr, true, List, [], ◌∷◌, ◌++◌, arith, sym, Bool-cases,
}
use terraformer.Errors.{change_plan_not_draft, change_apply_failed}
use terraformer.Models.{ChangePlanStatus, draft, applying}
use terraformer.Pipeline.{
  ChangeStep, ChangePlan, Exception, app, Outcome, returned, raised, Env, World, ◌>>=◌,
}
use terraformer.Pipeline.Frames.{rows}
use terraformer.Pipeline.Apply.{apply_steps, apply, is_draft}
use terraformer.Pipeline.Apply.Attempt.{Outcome-cases}
use terraformer.Pipeline.Apply.Rollback.{Reports}
use terraformer.Pipeline.Apply.Step.{
  commands_of, Ends, in_place, undone, not_undone, StepEnds, apply_step-StepEnds,
}
use terraformer.Pipeline.Apply.Start.{begun, apply_refused, apply_not_loaded, apply_cases}

is_draft→eq : (s : ChangePlanStatus) → is_draft s ≡ true → s ≡ draft
is_draft→eq s h = ground arith

-- A plan that is no draft: `apply` raises, hands nothing to the driver and changes no row.
pub apply_not_draft :
    (env : Env) (w : World)
    → w.plan.status ≢ draft
    → ((e : Exception) × ((apply env w).0 ≡ raised e))
      × ((apply env w).1.sent ≡ w.sent)
      × (rows (apply env w).1 ≡ rows w)
apply_not_draft env w h = elim (Outcome-cases (env.load w.clock)) [
  | inr (e, x) ↦ rw (apply_not_loaded env w e x) ((e, refl), refl, refl)
  | inl (u, x) ↦ elim (Bool-cases (is_draft w.plan.status)) [
    | inl d ↦ absurd (h (is_draft→eq _ d))
    | inr d ↦ rw (apply_refused env w u x d) ((app change_plan_not_draft, refl), refl, refl)
  ]
]

-- What a run of `apply` leaves, from a draft with one step.
abbrev pub ApplyEnds : ChangeStep → World → Outcome ChangePlanStatus × World → Type 0
ApplyEnds step w (returned s, v) = Reports (returned s) v × Ends step w.sent v
ApplyEnds step w (raised e, v) =
    (v.sent ≡ w.sent)
    ⊎ ((v.saved_plan.status ≡ applying) × (v.sent ≡ w.sent ++ commands_of step ∷ []))

step-ApplyEnds :
    (step : ChangeStep) (w : World) (p : Outcome ChangePlanStatus × World)
    → StepEnds step (begun w) p
    → ApplyEnds step w p
step-ApplyEnds step w (returned s, v) h = h
step-ApplyEnds step w (raised e, v) h =
    inr (ap (λ (p : ChangePlan). p.status) h.unchanged, h.only_commands)

-- From a draft of one step, `apply` that returns has saved the status that it reports, and what it
-- handed to the driver agrees with that status: the commands alone if the plan is applied, and
-- otherwise the inverse last, or a failed rollback. If it raises, it either sent nothing or left a
-- change on the device with the plan saved as applying.
pub apply-ApplyEnds :
    (env : Env) (w : World) (step : ChangeStep)
    → w.plan.status ≡ draft
    → w.plan.steps ≡ step ∷ []
    → ApplyEnds step w (apply env w)
unfolding apply_steps
apply-ApplyEnds env w step d one = elim (Outcome-cases (env.load w.clock)) [
  | inr (e, x) ↦ rw (apply_not_loaded env w e x) (inl refl)
  | inl (u, x) ↦ elim (apply_cases env w u x d) [
    | inl (e, y) ↦ rw y (inl refl)
    | inr y ↦
        subst (ApplyEnds step w) (sym (y ∙ ap (λ steps. apply_steps env steps (begun w)) one))
          (step-ApplyEnds step w _ (apply_step-StepEnds env step (begun w) refl))
  ]
]

-- A plan runs at most once: after an `apply` of a draft of one step that returned, and whatever the
-- outside does later, a second `apply` raises, hands nothing to the driver and changes no row.
pub apply_once :
    (env later : Env) (w v : World) (step : ChangeStep) (s : ChangePlanStatus)
    → w.plan.steps ≡ step ∷ []
    → w.plan.status ≡ draft
    → apply env w ≡ (returned s, v)
    → ((e : Exception) × ((apply later v).0 ≡ raised e))
      × ((apply later v).1.sent ≡ v.sent)
      × (rows (apply later v).1 ≡ rows v)
apply_once env later w v step s one d h =
    let (reports, ends) = subst (ApplyEnds step w) h (apply-ApplyEnds env w step d one) in
    apply_not_draft later v (not_draft v (reports.1) ends)
  where
    not_draft : (v : World) → v.plan ≡ v.saved_plan → Ends step w.sent v → v.plan.status ≢ draft
    not_draft v p (in_place a _) e = cc (a, ap (λ (q : ChangePlan). q.status) p)
    not_draft v p (undone _ _ a _) e = cc (a, ap (λ (q : ChangePlan). q.status) p)
    not_draft v p (not_undone _ _ a _) e = cc (a, ap (λ (q : ChangePlan). q.status) p)

-- A draft that holds no step, or several, sends nothing.
pub apply_other_steps :
    (env : Env) (w : World)
    → w.plan.status ≡ draft
    → ((step : ChangeStep) → w.plan.steps ≢ step ∷ [])
    → ((e : Exception) × ((apply env w).0 ≡ raised e)) × ((apply env w).1.sent ≡ w.sent)
unfolding apply_steps ◌>>=◌
apply_other_steps env w d many = elim (Outcome-cases (env.load w.clock)) [
  | inr (e, x) ↦ rw (apply_not_loaded env w e x) ((e, refl), refl)
  | inl (u, x) ↦ elim (apply_cases env w u x d) [
    | inl (e, y) ↦ rw y ((e, refl), refl)
    | inr y ↦ rw y (refused w.plan.steps many)
  ]
]
  where
    refused :
        (steps : List ChangeStep)
        → ((step : ChangeStep) → steps ≢ step ∷ [])
        → ((e : Exception) × ((apply_steps env steps (begun w)).0 ≡ raised e))
          × ((apply_steps env steps (begun w)).1.sent ≡ w.sent)
    refused [] h = ((app change_apply_failed, refl), refl)
    refused (a ∷ []) h = absurd (h a refl)
    refused (a ∷ b ∷ l) h = ((app change_apply_failed, refl), refl)
