-- ===== src/Gate/Admit.antt =====
-- services/connection_gate.py: `acquire`, `release` and the two notes on authentication.
use terraformer.Base.{
  ℕ, ◌+◌, Bool, true, false, ◌&&◌, Option, none, some, List, [], ◌∷◌, if◌then◌else◌, leb,
}
use terraformer.Text.{Text, codes, same}
use terraformer.Errors.{gate}
use terraformer.Errors.Admission.{
  GateError, connection_gate_unavailable, device_connection_rate_limited,
  device_authentication_rate_limited, device_connection_limit_reached,
  terminal_session_limit_reached,
}
use terraformer.Pipeline.{app, Outcome, returned, raised}
use terraformer.Gate.{
  ConnectionOperation, ConnectionTarget, ConnectionPermit, Settings, Spelling, micros, ActiveKey,
  global, terminals, device_active, terminal_device, Key, active, permit, failures_key,
  cooldown_key, rate_limit, active_keys, permit_fingerprint, is_terminal_operation,
}
use terraformer.Gate.Redis.{Redis, Cutoff, at}
use terraformer.Gate.Transaction.{
  Round, Reply, refuse, commit, transaction, transaction_attempts, or_unavailable,
}

abbrev pub is_some {ℓ} : {A : Type ℓ} → Option A → Bool
is_some (some a) = true
is_some none = false

abbrev pub is_none {ℓ} : {A : Type ℓ} → Option A → Bool
is_none (some a) = false
is_none none = true

-- `stored_fingerprint == …`.
abbrev pub is_text : Text → Option Text → Bool
is_text s none = false
is_text s (some t) = same t s

abbrev pub permit_ttl : Settings → ℕ
permit_ttl settings = micros settings.connection_permit_ttl_seconds

module _ (redis : Redis) (settings : Settings) where
  open redis use {Db, get, zcount, set, delete, zadd, zrem, zremrangebyscore, expire}

  abbrev pub rate_cutoff : ℕ → Cutoff
  rate_cutoff now = record { instant = now; back = micros settings.connection_rate_window_seconds }

  abbrev pub failure_cutoff : ℕ → Cutoff
  failure_cutoff now = record {
    instant = now;
    back = micros settings.authentication_failure_window_seconds;
  }

  unfoldable pub active_count : ℕ → ActiveKey → Db → ℕ
  active_count now k d = zcount now (active k) (at now) d

  unfoldable pub is_over_rate : ℕ → Option (Key × ℕ) → Db → Bool
  is_over_rate now none d = false
  is_over_rate now (some (k, limit)) d = leb limit (zcount now k (rate_cutoff now) d)

  unfoldable pub is_device_full : ℕ → Option ℕ → Db → Bool
  unfolding active_count
  is_device_full now none d = false
  is_device_full now (some device) d =
      leb settings.max_connections_per_device (active_count now (device_active device) d)

  unfoldable pub is_terminal_full : ℕ → ConnectionOperation → Option ℕ → Db → Bool
  unfolding active_count
  is_terminal_full now ConnectionOperation.terminal none d =
      leb settings.max_terminal_sessions (active_count now terminals d)
  is_terminal_full now ConnectionOperation.terminal (some device) d =
      if leb settings.max_terminal_sessions (active_count now terminals d)
      then true
      else leb settings.max_terminal_sessions_per_device
          (active_count now (terminal_device device) d)
  is_terminal_full now ConnectionOperation.connection_test device d = false
  is_terminal_full now ConnectionOperation.structured_read device d = false
  is_terminal_full now ConnectionOperation.structured_write device d = false

  -- Why `admit` raises, if it does.
  unfoldable pub refusal : ℕ → ConnectionOperation → ConnectionTarget → Db → Option GateError
  unfolding is_over_rate active_count is_terminal_full is_device_full
  refusal now operation target d =
      if is_some (get now (cooldown_key target) d)
      then some device_authentication_rate_limited
      else if is_over_rate now (rate_limit settings operation target) d
      then some device_connection_rate_limited
      else if leb settings.max_device_connections (active_count now global d)
      then some device_connection_limit_reached
      else if is_terminal_full now operation target.device_id d
      then some terminal_session_limit_reached
      else if is_device_full now target.device_id d
      then some device_connection_limit_reached
      else none

  -- An attempt at `now` goes into the set of recent attempts, and what left the window goes out.
  unfoldable pub note_attempt : ℕ → ℕ → Option (Key × ℕ) → Db → Db
  note_attempt now identifier none d = d
  note_attempt now identifier (some (k, limit)) d =
      expire now k (micros settings.connection_rate_window_seconds)
        (zadd now k identifier now (zremrangebyscore now k (rate_cutoff now) d))

  -- The permit goes into one set of live permits.
  unfoldable pub enter_set : ℕ → ℕ → ActiveKey → Db → Db
  enter_set now identifier k d = expire now (active k) (permit_ttl settings) (
      zadd now (active k) identifier (now + (permit_ttl settings))
        (zremrangebyscore now (active k) (at now) d))

  unfoldable pub enter_sets : ℕ → ℕ → List ActiveKey → Db → Db
  unfolding enter_set
  enter_sets now identifier [] d = d
  enter_sets now identifier (k ∷ ks) d = enter_sets now identifier ks (enter_set now identifier k d)

  -- The writes of `admit`.
  unfoldable pub record_permit : Spelling → ℕ → ConnectionPermit → Db → Db
  unfolding note_attempt enter_sets
  record_permit spelling now p d = enter_sets now p.identifier (active_keys p.operation p.target) (
      set now (permit p.identifier) (permit_fingerprint spelling p) (permit_ttl settings)
        (note_attempt now p.identifier (rate_limit settings p.operation p.target) d))

  unfoldable pub answered :
      Spelling → ℕ → ConnectionPermit → Option GateError → Reply Db ConnectionPermit
  unfolding record_permit
  answered spelling now p (some e) = refuse (gate e)
  answered spelling now p none = commit p (record_permit spelling now p)

  unfoldable pub admit : Spelling → ConnectionPermit → ℕ → Db → Reply Db ConnectionPermit
  unfolding refusal answered
  admit spelling p now d = answered spelling now p (refusal now p.operation p.target d)

  -- The permit is gone from every set that it was in.
  unfoldable pub leave_sets : ℕ → List ActiveKey → Db → Db
  leave_sets identifier [] d = d
  leave_sets identifier (k ∷ ks) d = leave_sets identifier ks (zrem (active k) identifier d)

  unfoldable pub forget_permit : ConnectionPermit → Db → Db
  unfolding leave_sets
  forget_permit p d =
      leave_sets p.identifier (active_keys p.operation p.target) (delete (permit p.identifier) d)

  unfoldable pub release_permit : Spelling → ConnectionPermit → ℕ → Db → Reply Db (Unit {0})
  unfolding forget_permit
  release_permit spelling p now d =
      if is_text (permit_fingerprint spelling p) (get now (permit p.identifier) d)
      then commit tt (forget_permit p)
      else commit tt (λ e. e)

  -- The failure goes into the set of recent ones, and one too many starts the cooldown.
  unfoldable pub note_failure : ConnectionTarget → ℕ → ℕ → Db → Db
  note_failure target now identifier d =
      expire now (failures_key target) (micros settings.authentication_failure_window_seconds) (
        zadd now (failures_key target) identifier now
          (zremrangebyscore now (failures_key target) (failure_cutoff now) d))

  unfoldable pub record_failure : ConnectionTarget → ℕ → ℕ → Db → Reply Db (Unit {0})
  unfolding note_failure
  record_failure target identifier now d =
      if leb settings.authentication_failure_limit
        (zcount now (failures_key target) (failure_cutoff now) d + 1)
      then commit tt (λ e.
        set now (cooldown_key target) (codes "1") (micros settings.authentication_cooldown_seconds)
          (note_failure target now identifier e))
      else commit tt (note_failure target now identifier)

  in_transaction : {A : Type 0} → (ℕ → Round Db) → (ℕ → Db → Reply Db A) → Db → Outcome A × Db
  unfolding or_unavailable
  in_transaction rounds callback d =
      let (r, d') = transaction transaction_attempts rounds callback d in (or_unavailable r, d')

  unfoldable pub acquire :
      Spelling
      → (ℕ → Round Db)
      → ℕ
      → ConnectionOperation
      → ConnectionTarget
      → Db
      → Outcome ConnectionPermit × Db
  unfolding in_transaction admit
  acquire spelling rounds identifier operation target d =
      if is_terminal_operation operation && is_none target.device_id
      then (raised (app (gate connection_gate_unavailable)), d)
      else in_transaction rounds
          (admit spelling
            (record { identifier = identifier; operation = operation; target = target }))
          d

  unfoldable pub release :
      Spelling → (ℕ → Round Db) → ConnectionPermit → Db → Outcome (Unit {0}) × Db
  unfolding in_transaction release_permit
  release spelling rounds p d = in_transaction rounds (release_permit spelling p) d

  unfoldable pub authentication_failed :
      (ℕ → Round Db) → ℕ → ConnectionTarget → Db → Outcome (Unit {0}) × Db
  unfolding in_transaction record_failure
  authentication_failed rounds identifier target d =
      in_transaction rounds (record_failure target identifier) d

  -- One command; Redis may raise instead.
  unfoldable pub authentication_succeeded : Bool → ConnectionTarget → Db → Outcome (Unit {0}) × Db
  authentication_succeeded true target d = (returned tt, delete (failures_key target) d)
  authentication_succeeded false target d = (raised (app (gate connection_gate_unavailable)), d)
