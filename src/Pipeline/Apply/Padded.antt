-- ===== src/Pipeline/Apply/Padded.antt =====
-- An application of a description with white space at its ends (changes/service.py `apply`).
use terraformer.Base.{◌≡◌, ◌≢◌, ◌∙◌, ap, subst, [], ◌∷◌, ◌⊎◌, inl, inr, All}
use terraformer.Text.{strip, same}
use terraformer.Text.Strip.{IsTrimmed}
use terraformer.Models.{
  ChangePlanStatus, draft, applied, rolled_back, rollback_failed, interface_description,
}
use terraformer.Drivers.Facts.{InterfaceFacts}
use terraformer.Drivers.Cisco.Render.Commands.{Given, find-Given}
use terraformer.Pipeline.{ChangeStep, returned, Env, World, with_connection}
use terraformer.Pipeline.Checks.Padded.{padded_never_confirmed}
use terraformer.Pipeline.Reads.{Reads, context_of, current_interface}
use terraformer.Pipeline.Apply.{send_and_read, check, apply}
use terraformer.Pipeline.Apply.Step.{Ends, in_place, undone, not_undone}
use terraformer.Pipeline.Apply.Start.{begun}
use terraformer.Pipeline.Apply.Laws.{ApplyEnds, apply-ApplyEnds}
use terraformer.Pipeline.Apply.Confirmed.{Confirmed, applied-Confirmed}

-- The descriptions that the connection of the step reads back have no white space at their ends.
abbrev pub ReadsTrimmed : Env → ChangeStep → World → Type 0
ReadsTrimmed env step w =
    (reads : Reads)
    → (with_connection env (send_and_read env step) w).0 ≡ returned reads
    → All (λ (i : InterfaceFacts). Given IsTrimmed i.description) reads.interfaces

padded-unconfirmed :
    (env : Env) (w : World) (step : ChangeStep)
    → step.change_type ≡ interface_description
    → strip step.desired_value ≢ step.desired_value
    → ReadsTrimmed env step w
    → Confirmed env step w
    → rolled_back ≡ applied
unfolding check context_of current_interface
padded-unconfirmed env w step t n trimmed (reads, e, c) =
    let failed =
      padded_never_confirmed step.target step.desired_value (context_of reads step.target)
        (find-Given (λ (i : InterfaceFacts). Given IsTrimmed i.description)
          (λ i. same i.name step.target) reads.interfaces (trimmed reads e))
        n in
    cc (c, failed, t)

-- A description with white space at an end is never applied: when a draft of one such step runs, and
-- the descriptions that the device shows have none at their ends, `apply` that returns reports that the
-- change was rolled back or that its rollback failed, and the inverse was handed to the driver unless
-- the rollback failed.
pub padded_never_applied :
    (env : Env) (w v : World) (step : ChangeStep) (s : ChangePlanStatus)
    → w.plan.steps ≡ step ∷ []
    → w.plan.status ≡ draft
    → step.change_type ≡ interface_description
    → strip step.desired_value ≢ step.desired_value
    → ReadsTrimmed env step (begun w)
    → apply env w ≡ (returned s, v)
    → ((s ≡ rolled_back) ⊎ (s ≡ rollback_failed)) × Ends step w.sent v
padded_never_applied env w v step s one d t n trimmed h =
    let (reports, ends) = subst (ApplyEnds step w) h (apply-ApplyEnds env w step d one) in
    (status reports.0 ends, ends)
  where
    status :
        returned s ≡ returned v.saved_plan.status
        → Ends step w.sent v
        → (s ≡ rolled_back) ⊎ (s ≡ rollback_failed)
    status r (undone _ _ a _) = inl (cc (r, a))
    status r (not_undone _ _ a _) = inr (cc (r, a))
    status r (in_place a _) =
        let e : s ≡ applied = cc (r, a) in
        let reported = h ∙ ap (λ (u : ChangePlanStatus). (returned u, v)) e in
        let absurdly =
          padded-unconfirmed env (begun w) step t n trimmed
            (applied-Confirmed env w v step one d reported) in
        inl (cc (e, absurdly))
