-- ===== src/Pipeline/Preview/Tests.antt =====
-- Examples of `preview`: a host name that is to be changed.
use terraformer.Base.{◌≡◌, refl, none, some, [], ◌∷◌}
use terraformer.Text.{codes, strip, is_break}
use terraformer.Text.Lines.{IsLine}
use terraformer.Text.Ends.{no_breaks}
use terraformer.Models.{draft, low, hostname, manual, best_effort}
use terraformer.Changes.{RenderedChange}
use terraformer.Drivers.Facts.{ChangeContext}
use terraformer.Drivers.Cisco.Render.{render_change}
use terraformer.Drivers.Cisco.Render.OneLine.{CleanContext}
use terraformer.Drivers.Cisco.Batch.{rendered}
use terraformer.Drivers.Cisco.Validate.{validate_change}
use terraformer.Pipeline.{ChangePlan, World}
use terraformer.Pipeline.Checks.{previous_value}
use terraformer.Pipeline.Apply.Tests.{answering, a_draft}
use terraformer.Pipeline.Apply.Step.{commands_of, inverse_of}
use terraformer.Pipeline.Preview.{Request, step_of, preview}
use terraformer.Pipeline.Preview.Laws.{Previewed, PreviewEnds, preview-PreviewEnds}
use terraformer.Pipeline.Preview.Shown.{previewed_is_sent}

abbrev to_rename : Request
to_rename = record {
  intent = record { change_type = hostname; target = codes "device"; desired_value = codes "r2" };
  source = manual;
}

preview-PreviewEnds_example : PreviewEnds to_rename a_draft (preview answering to_rename a_draft)
preview-PreviewEnds_example = preview-PreviewEnds answering to_rename a_draft

abbrev facts : ChangeContext
facts = record {
  interface = none;
  vlans = [];
  switchports = [];
  static_routes = [];
  routing_processes = [];
  hostname = some (codes "r1");
  domain_lookup = none;
}

abbrev batches : RenderedChange
batches = record {
  commands = codes "hostname r2" ∷ [];
  inverse_commands = codes "hostname r1" ∷ [];
}

abbrev stored : ChangePlan
stored = record {
  device_id = 7;
  status = draft;
  safety_level = best_effort;
  risk = low;
  source = manual;
  pre_change_snapshot_id = some 2;
  post_change_snapshot_id = none;
  failure_code = none;
  applied_at = none;
  steps = step_of to_rename none batches ∷ [];
}

abbrev after : World
after = record a_draft { plans = stored ∷ []; saved_plans = stored ∷ [] }

valid_lem : validate_change to_rename.intent facts ≡ []
unfolding validate_change
valid_lem = refl

renders_lem : render_change to_rename.intent facts ≡ rendered batches
unfolding render_change
renders_lem = refl

known_lem : previous_value hostname (codes "device") facts ≡ some none
unfolding previous_value
known_lem = refl

abbrev previewed : Previewed to_rename a_draft stored after
previewed = record {
  added = refl;
  saved = refl;
  nothing_sent = refl;
  is_new = refl;
  context = facts;
  change = batches;
  previous = none;
  valid = valid_lem;
  renders = renders_lem;
  known = known_lem;
  one_step = refl;
}

facts-CleanContext : CleanContext facts
unfolding is_break
facts-CleanContext = record {
  hostname = no_breaks (codes "r1") refl;
  description = tt;
  vlans = tt;
  allowed = tt;
  routes = tt;
}

device_line : IsLine (codes "device")
unfolding is_break
device_line = no_breaks (codes "device") refl

trimmed_lem : strip (codes "r2") ≡ codes "r2"
unfolding strip
trimmed_lem = refl

previewed_is_sent_example :
    (commands_of (step_of to_rename none batches) ≡ batches.commands)
    × (inverse_of (step_of to_rename none batches) ≡ batches.inverse_commands)
previewed_is_sent_example =
    previewed_is_sent to_rename a_draft after stored previewed device_line facts-CleanContext
      trimmed_lem (step_of to_rename none batches) refl
