-- ===== src/Pipeline/Apply/Step.antt =====
-- One step of `apply`: the attempt with its rollback or its snapshot, case by case.
use terraformer.Base.{ℕ, String, ◌≡◌, refl, ap, ◌∙◌, ◌⊎◌, inl, inr, Bool, List, [], ◌∷◌, ◌++◌, sym}
use terraformer.Text.{Text, splitlines}
use terraformer.Models.{ChangePlanStatus, applied, rolled_back, rollback_failed}
use terraformer.Drivers.Facts.{InterfaceFacts}
use terraformer.Pipeline.{
  ChangeStep, Exception, Outcome, returned, raised, Env, World, captured, capture_failed, Capture,
}
use terraformer.Pipeline.Frames.{Rows}
use terraformer.Pipeline.Apply.{attempt, after_attempt, apply_step, failure_code}
use terraformer.Pipeline.Apply.Attempt.{attempt-rows, attempt-sent}
use terraformer.Pipeline.Apply.Rollback.{
  Reports, RollsBack, rollback_lem, finish_captured, finish_failed,
}

abbrev pub commands_of : ChangeStep → List Text
commands_of step = splitlines step.rendered_commands

abbrev pub inverse_of : ChangeStep → List Text
inverse_of step = splitlines step.inverse_commands

-- What went out before a rollback: the commands, or nothing.
abbrev pub Started : ChangeStep → List (List Text) → List (List Text) → Type 0
Started step sent started = (started ≡ sent) ⊎ (started ≡ sent ++ commands_of step ∷ [])

-- The three ends of a plan that is applied: what was sent, by the status.
pub data Ends (step : ChangeStep) (sent : List (List Text)) (v : World) : Type 0 where
  in_place :
      v.saved_plan.status ≡ applied → v.sent ≡ sent ++ commands_of step ∷ [] → Ends step sent v
  undone :
      (started : List (List Text))
      → Started step sent started
      → v.saved_plan.status ≡ rolled_back
      → v.sent ≡ started ++ inverse_of step ∷ []
      → Ends step sent v
  not_undone :
      (started : List (List Text))
      → Started step sent started
      → v.saved_plan.status ≡ rollback_failed
      → (v.sent ≡ started ++ inverse_of step ∷ []) ⊎ (v.sent ≡ started)
      → Ends step sent v

-- The one way in which a step raises: the change is in place and its snapshot cannot be taken.
pub record Strands (step : ChangeStep) (w v : World) : Type 0 where
  pub unchanged : v.saved_plan ≡ w.saved_plan
  pub only_commands : v.sent ≡ w.sent ++ commands_of step ∷ []

abbrev pub StepEnds : ChangeStep → World → Outcome ChangePlanStatus × World → Type 0
StepEnds step w (returned s, v) = Reports (returned s) v × Ends step w.sent v
StepEnds step w (raised e, v) = Strands step w v

capture-cases :
    (c : Capture)
    → ((id : ℕ) × (c ≡ captured id))
      ⊎ ((e : Exception) × (flag : Bool) × (c ≡ capture_failed e flag))
capture-cases (captured id) = inl (id, refl)
capture-cases (capture_failed e flag) = inr (e, flag, refl)

module _ (env : Env) (step : ChangeStep) where
  attempt-Started : (w : World) → Started step w.sent (attempt env step w).1.sent
  attempt-Started w = elim (attempt-sent env step w) [ inl h ↦ inl h.0 | inr h ↦ inr h ]

  rollback-Ends :
      (w m v : World) (reason : String)
      → Started step w.sent m.sent
      → RollsBack (inverse_of step) reason m v
      → Ends step w.sent v
  rollback-Ends w m v reason s (c, inl (a, b)) = undone m.sent s a b
  rollback-Ends w m v reason s (c, inr (a, b)) = not_undone m.sent s a b

  Reports-StepEnds :
      (w : World) (o : Outcome ChangePlanStatus) (v : World)
      → Reports o v
      → Ends step w.sent v
      → StepEnds step w (o, v)
  Reports-StepEnds w (returned s) v r e = (r, e)
  Reports-StepEnds w (raised x) v r e = cc (r.0)

  raised-StepEnds :
      (w : World) (o : Outcome ChangePlanStatus) (v : World) (e : Exception)
      → o ≡ raised e
      → Strands step w v
      → StepEnds step w (o, v)
  raised-StepEnds w (returned s) v e h k = cc h
  raised-StepEnds w (raised x) v e h k = k

  after_ends :
      (w m : World) (r : Outcome (List InterfaceFacts))
      → m.plan ≡ m.saved_plan
      → m.saved_plan ≡ w.saved_plan
      → Started step w.sent m.sent
      → ((i : List InterfaceFacts) → r ≡ returned i → m.sent ≡ w.sent ++ commands_of step ∷ [])
      → StepEnds step w (after_attempt env step r m)
  unfolding after_attempt
  after_ends w m (returned i) p q s c = elim (capture-cases (env.capture m.clock)) [
    | inl (id, h) ↦
        let (reports, status, sent) = finish_captured env step i m id h in
        Reports-StepEnds w _ _ reports (in_place status (sent ∙ c i refl))
    | inr (e, flag, h) ↦
        let (raises, saved, sent) = finish_failed env step i m e flag h p in
        raised-StepEnds w _ _ e raises
          (record { unchanged = saved ∙ q; only_commands = sent ∙ c i refl })
  ]
  after_ends w m (raised e) p q s c =
      let (reports, rolls) = rollback_lem env (inverse_of step) (failure_code e) m in
      Reports-StepEnds w _ _ reports (rollback-Ends w m _ (failure_code e) s rolls)

  pub sent_if_returned :
      (w : World) (i : List InterfaceFacts)
      → (attempt env step w).0 ≡ returned i
      → (attempt env step w).1.sent ≡ w.sent ++ commands_of step ∷ []
  sent_if_returned w i h = elim (attempt-sent env step w) [
    | inl (_, (e, raises)) ↦ cc (h, raises)
    | inr sent ↦ sent
  ]

  -- A step that runs on saved rows reports a status with what it sent, or strands the plan.
  pub apply_step-StepEnds :
      (w : World) → w.plan ≡ w.saved_plan → StepEnds step w (apply_step env step w)
  unfolding apply_step
  apply_step-StepEnds w p =
      let kept = (attempt-rows env step).at w in
      let saved = ap (λ (r : Rows). r.saved_plan) kept in
      after_ends w (attempt env step w).1 (attempt env step w).0
        (ap (λ (r : Rows). r.plan) kept ∙ p ∙ sym saved) saved (attempt-Started w)
        (sent_if_returned w)
