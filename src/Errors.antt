-- ===== src/Errors.antt =====
-- core/errors.py: one constructor for each class of typed error, and the code and HTTP status that
-- the class declares or inherits. Messages and details are left out. The errors that two services
-- declare for themselves are wrapped: Errors/Admission.antt.
pub mod Admission
use terraformer.Base.{ℕ, String}
use Admission.{GateError, PolicyError, gate_code, gate_status, policy_code, policy_status}

pub data AppError : Type 0 where
  internal configuration not_found : AppError
  conflict setup_required already_configured : AppError
  authentication_required invalid_credentials driver : AppError
  driver_connection driver_connection_refused driver_connection_lost : AppError
  driver_name_resolution driver_authentication driver_host_key_verification : AppError
  driver_host_key_unknown driver_host_key_changed host_key_candidate_mismatch : AppError
  host_key_candidate_expired driver_ssh_negotiation driver_terminal_pty : AppError
  driver_terminal_io driver_timeout driver_command_rejected : AppError
  unsupported_capability artifact artifact_integrity : AppError
  snapshot_immutable queue_unavailable analysis_disabled_by_policy : AppError
  analysis_unavailable analysis_backend_unavailable analysis_no_configs : AppError
  analysis_snapshot_expired analysis_too_many_devices structured_writes_disabled : AppError
  ai_gateway_disabled auto_mode_requires_acknowledgment auto_apply_limit_reached : AppError
  blocked_command change_vendor_unsupported change_validation : AppError
  change_post_check_failed change_apply_failed change_plan_not_draft : AppError
  change_plan_device_locked : AppError
  gate : GateError → AppError
  policy : PolicyError → AppError

unfoldable pub code : AppError → String
unfolding gate_code policy_code
code internal = "internal_error"
code configuration = "configuration_error"
code not_found = "not_found"
code conflict = "conflict"
code setup_required = "setup_required"
code already_configured = "already_configured"
code authentication_required = "authentication_required"
code invalid_credentials = "invalid_credentials"
code driver = "driver_error"
code driver_connection = "device_connection_failed"
code driver_connection_refused = "device_connection_refused"
code driver_connection_lost = "device_connection_lost"
code driver_name_resolution = "device_name_resolution_failed"
code driver_authentication = "device_authentication_failed"
code driver_host_key_verification = "device_connection_failed"
code driver_host_key_unknown = "device_host_key_unknown"
code driver_host_key_changed = "device_host_key_changed"
code host_key_candidate_mismatch = "host_key_candidate_mismatch"
code host_key_candidate_expired = "host_key_candidate_expired"
code driver_ssh_negotiation = "legacy_ssh_negotiation_failed"
code driver_terminal_pty = "terminal_pty_rejected"
code driver_terminal_io = "terminal_transport_failed"
code driver_timeout = "device_connection_timeout"
code driver_command_rejected = "device_command_rejected"
code unsupported_capability = "unsupported_capability"
code artifact = "artifact_error"
code artifact_integrity = "artifact_integrity_error"
code snapshot_immutable = "snapshot_immutable"
code queue_unavailable = "queue_unavailable"
code analysis_disabled_by_policy = "analysis_disabled_by_policy"
code analysis_unavailable = "analysis_unavailable"
code analysis_backend_unavailable = "analysis_backend_unavailable"
code analysis_no_configs = "analysis_no_configs"
code analysis_snapshot_expired = "analysis_snapshot_expired"
code analysis_too_many_devices = "analysis_too_many_devices"
code structured_writes_disabled = "structured_writes_disabled_by_policy"
code ai_gateway_disabled = "ai_gateway_disabled_by_policy"
code auto_mode_requires_acknowledgment = "auto_mode_requires_acknowledgment"
code auto_apply_limit_reached = "auto_apply_limit_reached"
code blocked_command = "blocked_command"
code change_vendor_unsupported = "change_vendor_unsupported"
code change_validation = "change_validation_failed"
code change_post_check_failed = "post_check_failed"
code change_apply_failed = "change_apply_failed"
code change_plan_not_draft = "change_plan_not_draft"
code change_plan_device_locked = "change_plan_device_locked"
code (gate e) = gate_code e
code (policy e) = policy_code e

unfoldable pub status_code : AppError → ℕ
unfolding gate_status policy_status
status_code internal = 500
status_code configuration = 500
status_code not_found = 404
status_code conflict = 409
status_code setup_required = 428
status_code already_configured = 409
status_code authentication_required = 401
status_code invalid_credentials = 401
status_code driver = 502
status_code driver_connection = 502
status_code driver_connection_refused = 502
status_code driver_connection_lost = 502
status_code driver_name_resolution = 502
status_code driver_authentication = 401
status_code driver_host_key_verification = 502
status_code driver_host_key_unknown = 502
status_code driver_host_key_changed = 502
status_code host_key_candidate_mismatch = 409
status_code host_key_candidate_expired = 409
status_code driver_ssh_negotiation = 502
status_code driver_terminal_pty = 502
status_code driver_terminal_io = 502
status_code driver_timeout = 504
status_code driver_command_rejected = 502
status_code unsupported_capability = 422
status_code artifact = 500
status_code artifact_integrity = 500
status_code snapshot_immutable = 409
status_code queue_unavailable = 503
status_code analysis_disabled_by_policy = 403
status_code analysis_unavailable = 503
status_code analysis_backend_unavailable = 503
status_code analysis_no_configs = 422
status_code analysis_snapshot_expired = 409
status_code analysis_too_many_devices = 422
status_code structured_writes_disabled = 403
status_code ai_gateway_disabled = 403
status_code auto_mode_requires_acknowledgment = 409
status_code auto_apply_limit_reached = 409
status_code blocked_command = 422
status_code change_vendor_unsupported = 422
status_code change_validation = 422
status_code change_post_check_failed = 422
status_code change_apply_failed = 500
status_code change_plan_not_draft = 409
status_code change_plan_device_locked = 409
status_code (gate e) = gate_status e
status_code (policy e) = policy_status e
