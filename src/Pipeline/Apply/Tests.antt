-- ===== src/Pipeline/Apply/Tests.antt =====
-- Examples of `apply`: a host name that is changed on a device that answers, on one that does not, and
-- with a snapshot that fails.
use terraformer.Base.{◌≡◌, ◌≢◌, refl, true, false, none, some, List, [], ◌∷◌}
use terraformer.Text.{Text, codes, splitlines}
use terraformer.Errors.{artifact}
use terraformer.Models.{
  cisco_iosxe, best_effort, ChangePlanStatus, draft, applied, low, hostname, manual,
}
use terraformer.Pipeline.{
  ChangeStep, ChangePlan, Exception, app, Capture, captured, capture_failed, returned, raised, Env,
  World, ◌>>=◌,
}
use terraformer.Pipeline.Frames.{rows}
use terraformer.Pipeline.Apply.{apply, attempt}
use terraformer.Pipeline.Apply.Start.{begun}
use terraformer.Pipeline.Apply.Laws.{ApplyEnds, apply-ApplyEnds, apply_once, apply_other_steps}
use terraformer.Pipeline.Apply.Confirmed.{Confirmed, applied-Confirmed}
use terraformer.Pipeline.Apply.Stranded.{Stranded, apply_strands}

abbrev pub renaming : ChangeStep
renaming = record {
  change_type = hostname;
  target = codes "device";
  previous_value = some (codes "r0");
  desired_value = codes "r1";
  rendered_commands = codes "hostname r1";
  inverse_commands = codes "hostname r0";
}

abbrev pub plan_of_steps : ChangePlanStatus → List ChangeStep → ChangePlan
plan_of_steps status steps = record {
  device_id = 7;
  status = status;
  safety_level = best_effort;
  risk = low;
  source = manual;
  pre_change_snapshot_id = some 1;
  post_change_snapshot_id = none;
  failure_code = none;
  applied_at = none;
  steps = steps;
}

abbrev pub world_of : ChangePlan → World
world_of plan = record {
  clock = 0;
  sent = [];
  plan = plan;
  saved_plan = plan;
  plans = [];
  saved_plans = [];
  inventory = [];
  saved_inventory = [];
}

abbrev pub a_draft : World
a_draft = world_of (plan_of_steps draft (renaming ∷ []))

-- A device that answers with this name, and whose snapshots end in this way.
abbrev pub env_of : Text → Capture → Env
env_of name ending = record {
  load = λ n. returned tt;
  device = λ n. returned (record { id = 7; vendor = cisco_iosxe });
  driver = λ v. returned best_effort;
  enter = λ n. returned tt;
  leave = λ n. returned tt;
  configure = λ n commands. returned tt;
  get_interfaces = λ n. returned [];
  get_hostname = λ n. returned (some name);
  get_domain_lookup = λ n. returned true;
  get_vlans = λ n. returned [];
  get_switchports = λ n. returned [];
  get_static_routes = λ n. returned [];
  get_routing_processes = λ n. returned [];
  capture = λ n. ending;
  can_save = λ v. true;
  write_memory = λ n. returned (codes "Building configuration...\n[OK]\n");
  utc_now = λ n. n;
}

abbrev pub answering : Env
answering = env_of (codes "r1") (captured 2)

abbrev unchanged : Env
unchanged = env_of (codes "r0") (captured 2)

abbrev full_disk : Env
full_disk = env_of (codes "r1") (capture_failed (app artifact) false)

abbrev done : World
done =
    record (world_of (record (plan_of_steps applied (renaming ∷ [])) {
      post_change_snapshot_id = some 2;
      applied_at = some 7;
    })) { clock = 7; sent = (codes "hostname r1" ∷ []) ∷ [] }

done_lem : apply answering a_draft ≡ (returned applied, done)
unfolding apply ◌>>=◌ splitlines
done_lem = refl

apply-ApplyEnds_example : ApplyEnds renaming a_draft (apply unchanged a_draft)
apply-ApplyEnds_example = apply-ApplyEnds unchanged a_draft renaming refl refl

apply_once_example :
    ((e : Exception) × ((apply unchanged done).0 ≡ raised e))
    × ((apply unchanged done).1.sent ≡ done.sent)
    × (rows (apply unchanged done).1 ≡ rows done)
apply_once_example = apply_once answering unchanged a_draft done renaming applied refl refl done_lem

applied-Confirmed_example : Confirmed answering renaming (begun a_draft)
applied-Confirmed_example = applied-Confirmed answering a_draft done renaming refl refl done_lem

abbrev two_steps : World
two_steps = world_of (plan_of_steps draft (renaming ∷ renaming ∷ []))

two_steps_lem : (step : ChangeStep) → two_steps.plan.steps ≢ step ∷ []
two_steps_lem step e = cc e

apply_other_steps_example :
    ((e : Exception) × ((apply answering two_steps).0 ≡ raised e))
    × ((apply answering two_steps).1.sent ≡ two_steps.sent)
apply_other_steps_example = apply_other_steps answering two_steps refl two_steps_lem

attempt_lem : (attempt full_disk renaming (begun a_draft)).0 ≡ returned []
unfolding attempt ◌>>=◌ splitlines
attempt_lem = refl

apply_strands_example : Stranded renaming a_draft (app artifact) (apply full_disk a_draft)
apply_strands_example =
    apply_strands full_disk a_draft renaming tt (record { id = 7; vendor = cisco_iosxe })
      best_effort [] (app artifact) false refl refl refl refl refl attempt_lem refl
