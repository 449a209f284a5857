-- ===== src/Pipeline.antt =====
-- changes/service.py and repositories/changes.py: the rows of a change plan, the database session and
-- the outside world that the service works with, and actions over them.
pub mod Checks
pub mod Reads
pub mod Frames
pub mod Preview
pub mod Apply
pub mod Save
use terraformer.Base.{ℕ, suc, String, Bool, true, false, Option, none, some, List, [], ◌∷◌, ◌++◌}
use terraformer.Text.{Text}
use terraformer.Errors.{AppError, not_found}
use terraformer.Models.{
  Vendor, SafetyLevel, ChangePlanStatus, ChangeRisk, ChangeType, ChangePlanSource,
}
use terraformer.Drivers.Facts.{
  InterfaceFacts, VlanFacts, SwitchportFacts, StaticRouteFacts, RoutingProcessFacts,
}

pub record ChangeStep : Type 0 where
  pub change_type : ChangeType
  pub target : Text
  pub previous_value : Option Text
  pub desired_value : Text
  pub rendered_commands : Text
  pub inverse_commands : Text

pub record ChangePlan : Type 0 where
  pub device_id : ℕ
  pub status : ChangePlanStatus
  pub safety_level : SafetyLevel
  pub risk : ChangeRisk
  pub source : ChangePlanSource
  pub pre_change_snapshot_id : Option ℕ
  pub post_change_snapshot_id : Option ℕ
  pub failure_code : Option String
  pub applied_at : Option ℕ
  pub steps : List ChangeStep

pub record Device : Type 0 where
  pub id : ℕ
  pub vendor : Vendor

-- An exception: a typed error, or any other.
pub data Exception : Type 0 where
  app : AppError → Exception
  fault : Exception

pub data Outcome {ℓ} (A : Type ℓ) : Type ℓ where
  returned : A → Outcome A
  raised : Exception → Outcome A

-- A capture of a snapshot returns the snapshot's id, or raises; the flag tells whether the audit of
-- its connection had committed the session before.
pub data Capture : Type 0 where
  captured : ℕ → Capture
  capture_failed : Exception → Bool → Capture

-- What is outside the service: the device behind its driver, the connection gate, the snapshot store
-- and the rows that it only reads. Each answer may depend on how many calls were made before, so
-- nothing is assumed of the device but what a theorem says.
pub record Env : Type 0 where
  pub load : ℕ → Outcome (Unit {0})
  pub device : ℕ → Outcome Device
  pub driver : Vendor → Outcome SafetyLevel
  pub enter : ℕ → Outcome (Unit {0})
  pub leave : ℕ → Outcome (Unit {0})
  pub configure : ℕ → List Text → Outcome (Unit {0})
  pub get_interfaces : ℕ → Outcome (List InterfaceFacts)
  pub get_hostname : ℕ → Outcome (Option Text)
  pub get_domain_lookup : ℕ → Outcome Bool
  pub get_vlans : ℕ → Outcome (List VlanFacts)
  pub get_switchports : ℕ → Outcome (List SwitchportFacts)
  pub get_static_routes : ℕ → Outcome (List StaticRouteFacts)
  pub get_routing_processes : ℕ → Outcome (List RoutingProcessFacts)
  pub capture : ℕ → Capture
  pub can_save : Vendor → Bool
  pub write_memory : ℕ → Outcome Text
  pub utc_now : ℕ → ℕ

-- The session holds rows that differ from the saved ones until it commits. `plan` is the row that
-- `apply` works on, `plans` are the rows that `preview` adds to, and `inventory` the interfaces of
-- the device. `sent` lists the batches handed to the driver, the oldest first; `clock` counts the
-- calls to the outside.
pub record World : Type 0 where
  pub clock : ℕ
  pub sent : List (List Text)
  pub plan : ChangePlan
  pub saved_plan : ChangePlan
  pub plans : List ChangePlan
  pub saved_plans : List ChangePlan
  pub inventory : List InterfaceFacts
  pub saved_inventory : List InterfaceFacts

abbrev pub Exec : Type 0 → Type 0
Exec A = World → Outcome A × World

abbrev pub continue : {A B : Type 0} → Outcome A → (A → Exec B) → Exec B
continue (returned a) f w = f a w
continue (raised e) f w = (raised e, w)

unfoldable pub pure : {A : Type 0} → A → Exec A
pure a w = (returned a, w)

unfoldable pub raise : {A : Type 0} → Exception → Exec A
raise e w = (raised e, w)

unfoldable pub gets : {A : Type 0} → (World → A) → Exec A
gets f w = (returned (f w), w)

unfoldable pub modify : (World → World) → Exec (Unit {0})
modify f w = (returned tt, f w)

-- A call to the outside: its answer depends on the clock, which it advances.
unfoldable pub ask : {A : Type 0} → (ℕ → Outcome A) → Exec A
ask answer w = (answer w.clock, record w { clock = suc w.clock })

-- A call that only some changes need.
unfoldable pub ask_if : {A : Type 0} → Bool → (ℕ → Outcome A) → A → Exec A
unfolding ask pure
ask_if true answer otherwise = ask answer
ask_if false answer otherwise = pure otherwise

unfoldable pub committed : World → World
committed w = record w { saved_plan = w.plan; saved_plans = w.plans; saved_inventory = w.inventory }

-- `self._session.commit()`, which does not fail here.
unfoldable pub commit : Exec (Unit {0})
unfolding committed
commit w = (returned tt, committed w)

unfoldable pub with_code : Option String → ChangePlan → ChangePlan
with_code none plan = plan
with_code (some code) plan = record plan { failure_code = some code }

-- `ChangeRepository.set_status`.
unfoldable pub set_status : ChangePlanStatus → Option String → ChangePlan → ChangePlan
unfolding with_code
set_status status code plan = with_code code (record plan { status = status })

-- `ChangeRepository.set_snapshots`.
unfoldable pub set_snapshots : Option ℕ → Option ℕ → ChangePlan → ChangePlan
set_snapshots none none plan = plan
set_snapshots (some pre) none plan = record plan { pre_change_snapshot_id = some pre }
set_snapshots none (some post) plan = record plan { post_change_snapshot_id = some post }
set_snapshots (some pre) (some post) plan = record plan {
  pre_change_snapshot_id = some pre;
  post_change_snapshot_id = some post;
}

unfoldable pub update_plan : (ChangePlan → ChangePlan) → Exec (Unit {0})
update_plan f w = (returned tt, record w { plan = f w.plan })

-- A body opens the small actions by opening `◌>>=◌`.
infixl 5 ◌>>=◌ ◌>>◌
unfoldable pub ◌>>=◌ : {A B : Type 0} → Exec A → (A → Exec B) → Exec B
unfolding pure raise gets modify ask ask_if commit committed update_plan
◌>>=◌ m f w = let (r, w') = m w in continue r f w'

abbrev pub ◌>>◌ : {A B : Type 0} → Exec A → Exec B → Exec B
m >> n = m >>= λ _. n

-- `with admitted_connection(…)`: the body runs only if the connection is admitted, and an exception
-- on the way out replaces what the body returned or raised.
unfoldable pub closing : {A : Type 0} → Outcome (Unit {0}) → Outcome A → Outcome A
closing (returned u) r = r
closing (raised e) r = raised e

unfoldable pub with_connection : {A : Type 0} → Env → Exec A → Exec A
unfolding closing
with_connection env body = do
  ask env.enter
  λ w. let (r, w') = body w in (closing (env.leave w'.clock) r, record w' { clock = suc w'.clock })

-- A batch handed to the driver counts as sent whatever becomes of it.
unfoldable pub configure : Env → List Text → Exec (Unit {0})
configure env commands = do
  modify (λ w. record w { sent = w.sent ++ commands ∷ [] })
  ask (λ n. env.configure n commands)

abbrev keep_commit : Bool → World → World
keep_commit true w = committed w
keep_commit false w = w

capture_result : Capture → Exec ℕ
capture_result (captured id) w = (returned id, committed w)
capture_result (capture_failed e flag) w = (raised e, keep_commit flag w)

-- `SnapshotService.capture`, which commits the session when it returns.
unfoldable pub capture : Env → Exec ℕ
unfolding capture_result committed
capture env w = capture_result (env.capture w.clock) (record w { clock = suc w.clock })
