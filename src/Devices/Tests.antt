-- ===== src/Devices/Tests.antt =====
-- Examples of an admitted connection: a device that rejects the password, and one of the oldest mode.
use terraformer.Base.{All, false, ℕ, ◌≡◌, refl, true, none, some, List, [], ◌∷◌, ◌++◌}
use terraformer.Text.{codes, same}
use terraformer.Errors.{driver_authentication, code}
use terraformer.Models.{modern, very_old_ssh, SshCompatibility}
use terraformer.Gate.{ConnectionPermit, ConnectionTarget, structured_read}
use terraformer.Devices.Policy.{enforce_compatibility_policy}
use terraformer.Devices.Callers.{
  Device, capture_request, save_request, preview_request, apply_request, rollback_request,
  refresh_request, read_routing_request, run_diagnostic_request,
}
use terraformer.Devices.Admission.{
  app, returned, raised, Act, acquires, acquired, released, uses, notes_failure, audits, commits,
  allowed, Env, Request, World, admitted_connection, audit_phase, is_authentication,
}
use terraformer.Devices.Admission.Acts.{AdmittedEnds}
use terraformer.Devices.Admission.Held.{admitted-AdmittedEnds}
use terraformer.Devices.VeryOld.{Passed, RefusedByPolicy, very_old_changes_refused}

abbrev target : ConnectionTarget
target = record { endpoint_digest = codes "e"; credential_profile_id = 1; device_id = some 7 }

abbrev given : ConnectionPermit
given = record { identifier = 0; operation = structured_read; target = target }

-- Everything answers, and the device rejects the password.
abbrev rejecting : Env ℕ
rejecting = record {
  settings = record {
    ssh_legacy_enabled = true;
    ssh_group1_enabled = true;
    ssh_very_old_enabled = true;
  };
  has_gate = true;
  resolve_candidate = λ n. returned tt;
  require_host_key = λ n. returned tt;
  target = λ n. returned target;
  acquire = λ o t n. returned given;
  release = λ p n. returned tt;
  authentication_failed = λ t n. returned tt;
  authentication_succeeded = λ t n. returned tt;
  get_profile = λ n. returned tt;
  decrypt = λ n. returned tt;
  record_event = λ n. returned tt;
  commit = λ n. returned tt;
  body = λ n. raised (app driver_authentication (some (codes "authentication")));
}

abbrev request_of : SshCompatibility → Request
request_of mode = record {
  device_id = some 7;
  compatibility = mode;
  acknowledged = record { group1_risk = false; very_old_risk = false };
  operation = structured_read;
  host_key_candidate_id = none;
  commits_session = true;
}

abbrev idle : World
idle = record { clock = 0; acts = [] }

rejected_acts :
    (admitted_connection rejecting (request_of modern) idle).1.acts
    ≡ acquires
      ∷ acquired given
      ∷ uses
      ∷ notes_failure
      ∷ audits (record {
        phase = codes "authentication";
        decision = allowed;
        result_code = codes "device_authentication_failed";
      })
      ∷ commits
      ∷ released given
      ∷ []
unfolding admitted_connection enforce_compatibility_policy is_authentication same audit_phase code
rejected_acts = refl

admitted-AdmittedEnds_example :
    (xs : List Act) × (((admitted_connection rejecting (request_of modern) idle).1.acts ≡ [] ++ xs)
      × AdmittedEnds rejecting.body (admitted_connection rejecting (request_of modern) idle).0 xs)
admitted-AdmittedEnds_example = admitted-AdmittedEnds rejecting (request_of modern) idle

abbrev oldest : Device
oldest = record { id = 7; ssh_compatibility = very_old_ssh }

very_old_changes_refused_example :
    All (RefusedByPolicy rejecting idle) (
      capture_request oldest
      ∷ save_request oldest
      ∷ preview_request oldest
      ∷ apply_request oldest
      ∷ rollback_request oldest
      ∷ [])
    × All
        (Passed rejecting idle)
        (refresh_request oldest ∷ read_routing_request oldest ∷ run_diagnostic_request oldest ∷ [])
very_old_changes_refused_example = very_old_changes_refused rejecting oldest idle refl refl
