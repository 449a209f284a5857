-- ===== src/Devices/VeryOld.antt =====
-- Devices that need the oldest SSH mode: services/devices.py, services/snapshots.py and
-- changes/service.py.
use terraformer.Base.{◌≡◌, refl, ap, true, List, [], ◌∷◌, ◌++◌, All}
use terraformer.Models.{very_old_ssh}
use terraformer.Devices.Policy.{
  SshSettings, enforce_compatibility_policy, is_very_old, very_old_unacknowledged,
}
use terraformer.Devices.Admission.{Env, Request, World, Act, with_gate, judged, admitted_connection}
use terraformer.Devices.Admission.Held.{policy-Refusing}
use terraformer.Devices.Admission.Acts.{Refusing}
use terraformer.Devices.Callers.{
  Device, registered_acknowledgment, change_acknowledgment, capture_request, save_request,
  preview_request, apply_request, rollback_request, refresh_request, read_routing_request,
  run_diagnostic_request,
}

abbrev pub every_mode : SshSettings
every_mode = record {
  ssh_legacy_enabled = true;
  ssh_group1_enabled = true;
  ssh_very_old_enabled = true;
}

-- The connection is refused: nothing is acquired or used, and an error is raised.
abbrev pub RefusedByPolicy : {A : Type 0} → Env A → World → Request → Type 0
RefusedByPolicy env w request =
    (xs : List Act) × (((admitted_connection env request w).1.acts ≡ w.acts ++ xs)
      × Refusing (admitted_connection env request w).0 xs)

-- The policy lets the request on to the gate.
abbrev pub Passed : {A : Type 0} → Env A → World → Request → Type 0
Passed env w request = admitted_connection env request w ≡ with_gate env request env.has_gate w

module _ {A : Type 0} (env : Env A) (device : Device) (w : World) (s : env.settings ≡ every_mode)
    (m : device.ssh_compatibility ≡ very_old_ssh) where
  change-RefusedByPolicy :
      (request : Request)
      → request.compatibility ≡ very_old_ssh
      → request.acknowledged ≡ change_acknowledgment very_old_ssh
      → RefusedByPolicy env w request
  unfolding enforce_compatibility_policy change_acknowledgment
  change-RefusedByPolicy request c a =
      policy-Refusing env request very_old_unacknowledged (rw (a, c, s) refl) w

  read-Passed :
      (request : Request)
      → request.compatibility ≡ very_old_ssh
      → request.acknowledged ≡ registered_acknowledgment very_old_ssh
      → Passed env w request
  unfolding enforce_compatibility_policy registered_acknowledgment is_very_old admitted_connection
      judged
  read-Passed request c a = rw (a, c, s) refl

  -- Where the settings allow every mode, a registered device that needs the oldest SSH mode is not
  -- stopped by the policy when it is refreshed, its routing is read or a diagnostic is run: what happens
  -- then is decided behind the policy. But the requests of a snapshot, a save, a preview, an application
  -- and a rollback are all refused before anything is acquired, whatever the outside answers.
  pub very_old_changes_refused :
      All (RefusedByPolicy env w) (
        capture_request device
        ∷ save_request device
        ∷ preview_request device
        ∷ apply_request device
        ∷ rollback_request device
        ∷ [])
      × All (Passed env w) (
          refresh_request device ∷ read_routing_request device ∷ run_diagnostic_request device ∷ [])
  unfolding capture_request save_request preview_request apply_request rollback_request
      refresh_request read_routing_request run_diagnostic_request
  very_old_changes_refused =
      let a = ap change_acknowledgment m in
      let b = ap registered_acknowledgment m in
      (
        (
          change-RefusedByPolicy (capture_request device) m a,
          (
            change-RefusedByPolicy (save_request device) m a,
            (
              change-RefusedByPolicy (preview_request device) m a,
              (
                change-RefusedByPolicy (apply_request device) m a,
                (change-RefusedByPolicy (rollback_request device) m a, tt),
              ),
            ),
          ),
        ),
        (
          read-Passed (refresh_request device) m b,
          (
            read-Passed (read_routing_request device) m b,
            (read-Passed (run_diagnostic_request device) m b, tt),
          ),
        ),
      )
