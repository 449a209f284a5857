-- ===== src/Pipeline/Apply.antt =====
-- changes/service.py: `apply`, which sends a draft plan to the device, checks that the change is in
-- place, and rolls it back if not; and `save_running_config`.
pub mod Attempt
pub mod Rollback
pub mod Step
pub mod Start
pub mod Laws
pub mod Padded
pub mod Confirmed
pub mod Stranded
pub mod Tests
use terraformer.Base.{
  ℕ, String, Bool, true, false, not, ◌&&◌, Option, none, some, List, [], ◌∷◌, if◌then◌else◌,
  is_empty,
}
use terraformer.Text.{Text, splitlines}
use terraformer.Errors.{
  AppError, change_plan_not_draft, change_apply_failed, change_post_check_failed, code,
}
use terraformer.Models.{
  ChangePlanStatus, draft, applying, applied, failed, rolled_back, rollback_failed, ChangeType,
}
use terraformer.Drivers.Facts.{InterfaceFacts}
use terraformer.Pipeline.{
  ChangeStep, ChangePlan, Exception, app, fault, Outcome, returned, raised, Env, Exec, World, ◌>>=◌,
  ◌>>◌, pure, raise, gets, modify, ask, commit, update_plan, set_status, set_snapshots,
  with_connection, configure, capture,
}
use terraformer.Pipeline.Checks.{targets_interface, post_check_ok}
use terraformer.Pipeline.Reads.{Reads, read_device, context_of}

-- The body of the connection: the commands, then the reads.
unfoldable pub send_and_read : Env → ChangeStep → Exec Reads
unfolding configure read_device
send_and_read env step = do
  configure env (splitlines step.rendered_commands)
  read_device env step.change_type

judge : Option Bool → List InterfaceFacts → Exec (List InterfaceFacts)
judge none interfaces = raise fault
judge (some false) interfaces = raise (app change_post_check_failed)
judge (some true) interfaces = pure interfaces

-- The post-check of the step against what was read.
unfoldable pub check : ChangeStep → Reads → Option Bool
unfolding post_check_ok context_of
check step reads =
    post_check_ok step.change_type step.target step.desired_value (context_of reads step.target)

-- The `try` block: it raises unless the change is in place.
unfoldable pub attempt : Env → ChangeStep → Exec (List InterfaceFacts)
unfolding with_connection send_and_read check judge
attempt env step = do
  reads ← with_connection env (send_and_read env step)
  judge (check step reads) reads.interfaces

-- The code that a failed attempt leaves on the plan.
unfoldable pub failure_code : Exception → String
unfolding code
failure_code (app e) = code e
failure_code fault = code change_apply_failed

-- What a rollback ends in.
abbrev pub rollback_status : Outcome (Unit {0}) → ChangePlanStatus
rollback_status (returned u) = rolled_back
rollback_status (raised e) = rollback_failed

-- An exception of the rollback itself is caught.
abbrev caught : Exec (Unit {0}) → Exec (Outcome (Unit {0}))
caught m w = let (r, w') = m w in (returned r, w')

unfoldable pub attempt_rollback : Env → List Text → String → Exec ChangePlanStatus
unfolding with_connection configure set_status
attempt_rollback env inverse reason = do
  outcome ← caught (with_connection env (configure env inverse))
  update_plan (set_status (rollback_status outcome) (some reason))
  commit
  gets (λ w. w.plan.status)

abbrev refreshed : ChangeStep → List InterfaceFacts → World → World
refreshed step interfaces w =
    if targets_interface step.change_type && not (is_empty interfaces)
    then record w { inventory = interfaces }
    else w

-- What follows an attempt that succeeded: the stored interfaces, the snapshot and the status.
unfoldable pub finish : Env → ChangeStep → List InterfaceFacts → Exec ChangePlanStatus
unfolding capture set_snapshots set_status
finish env step interfaces = do
  modify (refreshed step interfaces)
  snapshot ← capture env
  update_plan (set_snapshots none (some snapshot))
  update_plan (set_status applied none)
  now ← gets (λ w. env.utc_now w.clock)
  update_plan (λ plan. record plan { applied_at = some now })
  commit
  gets (λ w. w.plan.status)

after_attempt : Env → ChangeStep → Outcome (List InterfaceFacts) → Exec ChangePlanStatus
after_attempt env step (returned interfaces) = finish env step interfaces
after_attempt env step (raised e) =
    attempt_rollback env (splitlines step.inverse_commands) (failure_code e)

unfoldable pub apply_step : Env → ChangeStep → Exec ChangePlanStatus
unfolding after_attempt attempt finish attempt_rollback failure_code
apply_step env step w = let (r, w') = attempt env step w in after_attempt env step r w'

-- A plan carries exactly one step.
unfoldable pub apply_steps : Env → List ChangeStep → Exec ChangePlanStatus
unfolding apply_step set_status code
apply_steps env (step ∷ []) = apply_step env step
apply_steps env _ = do
  update_plan (set_status failed (some (code change_apply_failed)))
  commit
  raise (app change_apply_failed)

abbrev pub is_draft : ChangePlanStatus → Bool
is_draft draft = true
is_draft _ = false

-- The rest of `apply` once the plan is known to be a draft.
unfoldable pub apply_draft : Env → Exec ChangePlanStatus
unfolding apply_steps set_status
apply_draft env = do
  update_plan (set_status applying none)
  commit
  device ← ask env.device
  (λ w. (env.driver device.vendor, w)) >>= λ level. gets (λ w. w.plan.steps) >>= apply_steps env

-- `ChangeService.apply`, of the plan that the session loads.
unfoldable pub apply : Env → Exec ChangePlanStatus
unfolding apply_draft
apply env = do
  ask env.load
  status ← gets (λ w. w.plan.status)
  if is_draft status then apply_draft env else raise (app change_plan_not_draft)
