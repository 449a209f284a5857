-- ===== src/Pipeline/Apply/Stranded.antt =====
-- What `apply` leaves when the snapshot behind a change that is in place cannot be taken.
use terraformer.Base.{suc, ◌≡◌, ap, subst, ◌∙◌, Bool, List, [], ◌∷◌, ◌++◌, sym}
use terraformer.Models.{SafetyLevel, ChangePlanStatus, draft, applying}
use terraformer.Drivers.Facts.{InterfaceFacts}
use terraformer.Pipeline.{
  Device, ChangeStep, ChangePlan, Exception, Outcome, returned, raised, Env, World, capture_failed,
}
use terraformer.Pipeline.Frames.{Rows}
use terraformer.Pipeline.Apply.{attempt, after_attempt, apply_step, apply_steps, apply}
use terraformer.Pipeline.Apply.Attempt.{attempt-rows}
use terraformer.Pipeline.Apply.Rollback.{finish_failed}
use terraformer.Pipeline.Apply.Step.{commands_of, sent_if_returned}
use terraformer.Pipeline.Apply.Start.{begun, apply_runs}

-- `apply` raised, with the plan saved as applying and only its commands sent.
abbrev pub Stranded : ChangeStep → World → Exception → Outcome ChangePlanStatus × World → Type 0
Stranded step w e p =
    (p.0 ≡ raised e)
    × (p.1.saved_plan.status ≡ applying)
    × (p.1.sent ≡ w.sent ++ commands_of step ∷ [])

strands_after :
    (env : Env) (step : ChangeStep) (w m : World) (r : Outcome (List InterfaceFacts))
    (i : List InterfaceFacts) (e : Exception) (flag : Bool)
    → r ≡ returned i
    → env.capture m.clock ≡ capture_failed e flag
    → m.plan ≡ m.saved_plan
    → m.saved_plan.status ≡ applying
    → m.sent ≡ w.sent ++ commands_of step ∷ []
    → Stranded step w e (after_attempt env step r m)
unfolding after_attempt
strands_after env step w m (returned j) i e flag a c p q s =
    let (raises, saved, sent) = finish_failed env step j m e flag c p in
    (raises, ap (λ (plan : ChangePlan). plan.status) saved ∙ q, sent ∙ s)
strands_after env step w m (raised x) i e flag a c p q s = cc a

-- If a draft of one step is loaded with its device and driver, its change is in place, and the snapshot
-- behind it cannot be taken, `apply` raises, the plan stays saved as applying, and the commands were
-- sent with no rollback.
pub apply_strands :
    (env : Env) (w : World) (step : ChangeStep) (u : Unit {0}) (d : Device) (level : SafetyLevel)
    (i : List InterfaceFacts) (e : Exception) (flag : Bool)
    → w.plan.steps ≡ step ∷ []
    → w.plan.status ≡ draft
    → env.load w.clock ≡ returned u
    → env.device (suc w.clock) ≡ returned d
    → env.driver d.vendor ≡ returned level
    → (attempt env step (begun w)).0 ≡ returned i
    → env.capture (attempt env step (begun w)).1.clock ≡ capture_failed e flag
    → Stranded step w e (apply env w)
unfolding apply_steps apply_step
apply_strands env w step u d level i e flag one dr x y z a c =
    let kept = (attempt-rows env step).at (begun w) in
    let saved = ap (λ (r : Rows). r.saved_plan) kept in
    subst (Stranded step w e)
      (sym
        (apply_runs env w u d level x dr y z ∙ ap (λ steps. apply_steps env steps (begun w)) one))
      (strands_after env step w (attempt env step (begun w)).1 (attempt env step (begun w)).0 i e
        flag a c (ap (λ (r : Rows). r.plan) kept ∙ sym saved)
        (ap (λ (plan : ChangePlan). plan.status) saved) (sent_if_returned env step (begun w) i a))
