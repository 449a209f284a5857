-- ===== src/Pipeline/Apply/Rollback.antt =====
-- `_attempt_rollback` and the end of `apply`, case by case.
use terraformer.Base.{ℕ, String, ◌≡◌, refl, ◌⊎◌, inl, inr, Bool, some, List, [], ◌∷◌, ◌++◌, arith}
use terraformer.Text.{Text}
use terraformer.Models.{ChangePlanStatus, applied, rolled_back, rollback_failed}
use terraformer.Drivers.Facts.{InterfaceFacts}
use terraformer.Pipeline.{
  ChangeStep, Exception, Outcome, returned, raised, Env, World, ◌>>=◌, with_connection, configure,
  set_status, captured, capture_failed, capture, committed,
}
use terraformer.Pipeline.Apply.{attempt_rollback, rollback_status, finish}
use terraformer.Pipeline.Apply.Attempt.{
  Outcome-cases, with_connection_refused, with_connection_admitted,
}

-- The rows agree with the database, and the result is the status that it holds.
abbrev pub Reports : Outcome ChangePlanStatus → World → Type 0
Reports r w = (r ≡ returned w.saved_plan.status) × (w.plan ≡ w.saved_plan)

-- What a rollback leaves: its batch was handed over, or its connection was refused and it failed.
abbrev pub RollsBack : List Text → String → World → World → Type 0
RollsBack inverse reason w v =
    (v.saved_plan.failure_code ≡ some reason)
    × (((v.saved_plan.status ≡ rolled_back) × (v.sent ≡ w.sent ++ inverse ∷ []))
        ⊎ ((v.saved_plan.status ≡ rollback_failed)
            × ((v.sent ≡ w.sent ++ inverse ∷ []) ⊎ (v.sent ≡ w.sent))))

module _ (env : Env) (inverse : List Text) (reason : String) (w : World) where
  rollback_of :
      (r : Outcome (Unit {0})) (v : World)
      → with_connection env (configure env inverse) w ≡ (r, v)
      → attempt_rollback env inverse reason w ≡ (
        returned (rollback_status r),
        committed (record v { plan = set_status (rollback_status r) (some reason) v.plan }),
      )
  unfolding attempt_rollback ◌>>=◌ set_status
  rollback_of r v h = rw h (ground arith)

  rollback_ends :
      (r : Outcome (Unit {0})) (v : World)
      → with_connection env (configure env inverse) w ≡ (r, v)
      → (v.sent ≡ w.sent ++ inverse ∷ [])
        ⊎ ((v.sent ≡ w.sent) × (rollback_status r ≡ rollback_failed))
      → let (o, u) = attempt_rollback env inverse reason w in
        Reports o u × RollsBack inverse reason w u
  unfolding set_status committed
  rollback_ends (returned x) v h (inl s) =
      rw (rollback_of _ v h) ((refl, refl), (refl, inl (refl, s)))
  rollback_ends (returned x) v h (inr s) = cc (s.1)
  rollback_ends (raised e) v h (inl s) =
      rw (rollback_of _ v h) ((refl, refl), (refl, inr (refl, inl s)))
  rollback_ends (raised e) v h (inr s) =
      rw (rollback_of _ v h) ((refl, refl), (refl, inr (refl, inr s.0)))

  -- A rollback always returns, with the status that it has saved.
  pub rollback_lem :
      let (o, u) = attempt_rollback env inverse reason w in
      Reports o u × RollsBack inverse reason w u
  unfolding configure ◌>>=◌
  rollback_lem = elim (Outcome-cases (env.enter w.clock)) [
    | inl (x, h) ↦
        rollback_ends _ _ (with_connection_admitted env (configure env inverse) w x h) (inl refl)
    | inr (e, h) ↦
        rollback_ends _ _ (with_connection_refused env (configure env inverse) w e h)
          (inr (refl, refl))
  ]

module _ (env : Env) (step : ChangeStep) (interfaces : List InterfaceFacts) (w : World) where
  -- With a snapshot the plan ends applied, and nothing more is sent.
  pub finish_captured :
      (id : ℕ)
      → env.capture w.clock ≡ captured id
      → let (o, u) = finish env step interfaces w in
        Reports o u × (u.saved_plan.status ≡ applied) × (u.sent ≡ w.sent)
  unfolding finish capture ◌>>=◌
  finish_captured id h = ground arith

  -- Without one, `finish` raises, sends nothing and leaves the saved status as it was.
  pub finish_failed :
      (e : Exception) (flag : Bool)
      → env.capture w.clock ≡ capture_failed e flag
      → w.plan ≡ w.saved_plan
      → let (o, u) = finish env step interfaces w in
        (o ≡ raised e) × (u.saved_plan ≡ w.saved_plan) × (u.sent ≡ w.sent)
  unfolding finish capture ◌>>=◌
  finish_failed e flag h s = ground arith
