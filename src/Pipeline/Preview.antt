-- ===== src/Pipeline/Preview.antt =====
-- changes/service.py: `preview`, which reads the device, checks and renders a change, and stores it as
-- a draft plan of one step.
pub mod Laws
pub mod Shown
pub mod Tests
use terraformer.Base.{ℕ, Bool, true, false, not, ◌&&◌, Option, none, some, List, [], ◌∷◌, ◌++◌}
use terraformer.Text.{Text, codes, is_some, join}
use terraformer.Text.Lines.{newline}
use terraformer.Errors.{
  AppError, not_found, unsupported_capability, change_vendor_unsupported, change_validation,
}
use terraformer.Models.{
  Vendor, cisco_iosxe, SafetyLevel, ChangePlanStatus, draft, ChangeRisk, ChangeType,
  ChangePlanSource,
}
use terraformer.Changes.{ChangeStepIntent, RenderedChange, Issue}
use terraformer.Changes.Risk.{classify_risk}
use terraformer.Drivers.Facts.{InterfaceFacts, ChangeContext}
use terraformer.Drivers.Cisco.Batch.{Rendered, rendered, unsupported, value_error}
use terraformer.Drivers.Cisco.Render.{render_change}
use terraformer.Drivers.Cisco.Validate.{validate_change}
use terraformer.Pipeline.{
  ChangeStep, ChangePlan, Device, app, fault, Env, Exec, World, ◌>>=◌, ◌>>◌, pure, raise, modify,
  ask, commit, with_connection, capture, set_snapshots,
}
use terraformer.Pipeline.Checks.{targets_interface, previous_value}
use terraformer.Pipeline.Reads.{Reads, read_device, current_interface, context_of}

pub record Request : Type 0 where
  pub intent : ChangeStepIntent
  pub open intent use *
  pub source : ChangePlanSource

abbrev pub is_supported : Vendor → Bool
is_supported cisco_iosxe = true
is_supported _ = false

abbrev admin_of : Option InterfaceFacts → Option Bool
admin_of none = none
admin_of (some i) = i.admin_up

abbrev oper_of : Option InterfaceFacts → Option Bool
oper_of none = none
oper_of (some i) = i.oper_up

-- `ChangeRepository.create`.
unfoldable pub create : ℕ → SafetyLevel → ChangeRisk → ChangePlanSource → ChangePlan
create device_id safety_level risk source = record {
  device_id = device_id;
  status = draft;
  safety_level = safety_level;
  risk = risk;
  source = source;
  pre_change_snapshot_id = none;
  post_change_snapshot_id = none;
  failure_code = none;
  applied_at = none;
  steps = [];
}

-- `ChangeRepository.add_step`.
unfoldable pub add_step : ChangeStep → ChangePlan → ChangePlan
add_step step plan = record plan { steps = plan.steps ++ step ∷ [] }

unfoldable pub step_of : Request → Option Text → RenderedChange → ChangeStep
step_of request previous change = record {
  change_type = request.change_type;
  target = request.target;
  previous_value = previous;
  desired_value = request.desired_value;
  rendered_commands = join newline change.commands;
  inverse_commands = join newline change.inverse_commands;
}

unfoldable pub risk_of : Request → ChangeContext → Option Text → ChangeRisk
unfolding classify_risk
risk_of request context previous =
    classify_risk request.change_type (admin_of context.interface) (oper_of context.interface)
      request.desired_value request.target previous

-- The plan that is stored, from what was read and rendered.
unfoldable pub plan_of :
    Request → Device → SafetyLevel → ChangeContext → ℕ → Option Text → RenderedChange → ChangePlan
unfolding create set_snapshots add_step step_of risk_of
plan_of request device level context snapshot previous change =
    add_step (step_of request previous change) (
      set_snapshots (some snapshot) none
        (create device.id level (risk_of request context previous) request.source))

-- The row, from what the target held before; `none` is the ValueError of a target that does not parse.
insert :
    Request
    → Device
    → SafetyLevel
    → ChangeContext
    → RenderedChange
    → ℕ
    → Option (Option Text)
    → Exec ChangePlan
unfolding plan_of
insert request device level context change snapshot none = raise fault
insert request device level context change snapshot (some previous) = do
  let plan = plan_of request device level context snapshot previous change
  modify (λ w. record w { plans = w.plans ++ plan ∷ [] })
  commit
  pure plan

-- The rest of `preview` behind the rendering: the snapshot, the rows and the commit.
unfoldable pub store :
    Env → Request → Device → SafetyLevel → ChangeContext → RenderedChange → Exec ChangePlan
unfolding capture insert previous_value
store env request device level context change = do
  snapshot ← capture env
  insert request device level context change snapshot
      (previous_value request.change_type request.target context)

store_rendered : Env → Request → Device → SafetyLevel → ChangeContext → Rendered → Exec ChangePlan
unfolding store
store_rendered env request device level context (rendered change) =
    store env request device level context change
store_rendered env request device level context unsupported = raise (app unsupported_capability)
store_rendered env request device level context value_error = raise fault

store_valid : Env → Request → Device → SafetyLevel → ChangeContext → List Issue → Exec ChangePlan
unfolding store_rendered render_change
store_valid env request device level context [] =
    store_rendered env request device level context (render_change request.intent context)
store_valid env request device level context (issue ∷ issues) = raise (app change_validation)

abbrev is_absent : ChangeType → Option InterfaceFacts → Bool
is_absent type current = not (is_some current) && targets_interface type

-- The flag tells that the request names an interface that the device does not have.
store_present : Env → Request → Device → SafetyLevel → ChangeContext → Bool → Exec ChangePlan
unfolding store_valid validate_change
store_present env request device level context true = raise (app not_found)
store_present env request device level context false =
    store_valid env request device level context (validate_change request.intent context)

-- The flag tells that the vendor takes changes.
read_and_store : Env → Request → Device → Bool → Exec ChangePlan
unfolding with_connection read_device context_of store_present
read_and_store env request device false = raise (app change_vendor_unsupported)
read_and_store env request device true = do
  level ← λ w. (env.driver device.vendor, w)
  reads ← with_connection env (read_device env request.change_type)
  store_present env request device level (context_of reads request.target)
      (is_absent request.change_type (current_interface reads request.target))

unfoldable pub preview : Env → Request → Exec ChangePlan
unfolding read_and_store
preview env request = do
  device ← ask env.device
  read_and_store env request device (is_supported device.vendor)
