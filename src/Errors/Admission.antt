-- ===== src/Errors/Admission.antt =====
-- The typed errors that services/connection_gate.py and services/devices.py declare for themselves:
-- why a connection is not admitted. Messages are left out.
use terraformer.Base.{ℕ, String}

pub data GateError : Type 0 where
  connection_gate_unavailable device_connection_rate_limited : GateError
  device_authentication_rate_limited device_connection_limit_reached : GateError
  terminal_session_limit_reached : GateError

unfoldable pub gate_code : GateError → String
gate_code connection_gate_unavailable = "connection_gate_unavailable"
gate_code device_connection_rate_limited = "device_connection_rate_limited"
gate_code device_authentication_rate_limited = "device_authentication_rate_limited"
gate_code device_connection_limit_reached = "device_connection_limit_reached"
gate_code terminal_session_limit_reached = "terminal_session_limit_reached"

unfoldable pub gate_status : GateError → ℕ
gate_status connection_gate_unavailable = 503
gate_status device_connection_rate_limited = 429
gate_status device_authentication_rate_limited = 429
gate_status device_connection_limit_reached = 429
gate_status terminal_session_limit_reached = 429

pub data PolicyError : Type 0 where
  legacy_mode_disabled_by_policy legacy_group1_disabled_by_policy : PolicyError
  very_old_mode_disabled_by_policy : PolicyError

unfoldable pub policy_code : PolicyError → String
policy_code legacy_mode_disabled_by_policy = "legacy_mode_disabled_by_policy"
policy_code legacy_group1_disabled_by_policy = "legacy_group1_disabled_by_policy"
policy_code very_old_mode_disabled_by_policy = "very_old_mode_disabled_by_policy"

unfoldable pub policy_status : PolicyError → ℕ
policy_status legacy_mode_disabled_by_policy = 403
policy_status legacy_group1_disabled_by_policy = 403
policy_status very_old_mode_disabled_by_policy = 403
