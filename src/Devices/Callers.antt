-- ===== src/Devices/Callers.antt =====
-- The connections that snapshots, changes and reads ask `admitted_connection` for: what each call site
-- of services/snapshots.py, changes/service.py and services/devices.py passes for a registered device.
use terraformer.Base.{ℕ, Bool, true, false, some, none, if◌then◌else◌}
use terraformer.Models.{SshCompatibility, modern, cisco_legacy, cisco_legacy_group1, very_old_ssh}
use terraformer.Gate.{ConnectionOperation, structured_read, structured_write}
use terraformer.Devices.Policy.{Acknowledged, is_very_old}
use terraformer.Devices.Admission.{Request}

-- The row of a registered device.
pub record Device : Type 0 where
  pub id : ℕ
  pub ssh_compatibility : SshCompatibility

is_group1 : SshCompatibility → Bool
is_group1 cisco_legacy_group1 = true
is_group1 modern = false
is_group1 cisco_legacy = false
is_group1 very_old_ssh = false

-- What `refresh`, `read_routing` and `run_diagnostic` carry forward as acknowledged when the device was
-- registered.
unfoldable pub registered_acknowledgment : SshCompatibility → Acknowledged
unfolding is_group1 is_very_old
registered_acknowledgment mode = record {
  group1_risk = if is_group1 mode then true else is_very_old mode;
  very_old_risk = is_very_old mode;
}

-- What the other call sites pass; the second flag is left at its default.
unfoldable pub change_acknowledgment : SshCompatibility → Acknowledged
unfolding is_group1
change_acknowledgment mode = record { group1_risk = is_group1 mode; very_old_risk = false }

abbrev pub request_for : Device → Acknowledged → ConnectionOperation → Request
request_for device acknowledged operation = record {
  device_id = some device.id;
  compatibility = device.ssh_compatibility;
  acknowledged = acknowledged;
  operation = operation;
  host_key_candidate_id = none;
  commits_session = true;
}

-- `SnapshotService.capture`.
unfoldable pub capture_request : Device → Request
unfolding change_acknowledgment
capture_request device =
    request_for device (change_acknowledgment device.ssh_compatibility) structured_read

-- `ChangeService.save_running_config`.
unfoldable pub save_request : Device → Request
unfolding change_acknowledgment
save_request device =
    request_for device (change_acknowledgment device.ssh_compatibility) structured_write

-- `ChangeService.preview`.
unfoldable pub preview_request : Device → Request
unfolding change_acknowledgment
preview_request device =
    request_for device (change_acknowledgment device.ssh_compatibility) structured_read

-- `ChangeService.apply`.
unfoldable pub apply_request : Device → Request
unfolding change_acknowledgment
apply_request device =
    request_for device (change_acknowledgment device.ssh_compatibility) structured_write

-- `ChangeService._attempt_rollback`.
unfoldable pub rollback_request : Device → Request
unfolding change_acknowledgment
rollback_request device =
    request_for device (change_acknowledgment device.ssh_compatibility) structured_write

-- `DeviceService.refresh`.
unfoldable pub refresh_request : Device → Request
unfolding registered_acknowledgment
refresh_request device =
    request_for device (registered_acknowledgment device.ssh_compatibility) structured_read

-- `DeviceService.read_routing`.
unfoldable pub read_routing_request : Device → Request
unfolding registered_acknowledgment
read_routing_request device =
    request_for device (registered_acknowledgment device.ssh_compatibility) structured_read

-- `DeviceService.run_diagnostic`.
unfoldable pub run_diagnostic_request : Device → Request
unfolding registered_acknowledgment
run_diagnostic_request device =
    request_for device (registered_acknowledgment device.ssh_compatibility) structured_read
