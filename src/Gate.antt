-- ===== src/Gate.antt =====
-- services/connection_gate.py: the data of the connection gate, and the keys that it keeps in Redis.
-- Instants and durations are microseconds; the settings count seconds, as the source does. A UUID is a
-- number, and the keys are a data type in place of the texts that spell them.
pub mod Redis
pub mod Transaction
pub mod Admit
pub mod Leases
pub mod Writes
pub mod Refines
pub mod Limits
pub mod Reach
pub mod Frees
pub mod Cooldown
pub mod Store
pub mod Tests
use terraformer.Base.{
  ℕ, ◌+◌, ◌*◌, Bool, true, false, not, ◌&&◌, ◌||◌, Option, none, some, List, [], ◌∷◌, ◌++◌, leb,
  ◌==◌, if◌then◌else◌, all, length,
}
use terraformer.Text.{Text, codes}
use terraformer.Errors.{AppError, gate}
use terraformer.Errors.Admission.{connection_gate_unavailable}
use terraformer.Pipeline.{Exception, app, fault, Outcome, returned, raised}

pub data ConnectionOperation : Type 0 where
  connection_test structured_read structured_write terminal : ConnectionOperation

unfoldable pub is_terminal_operation : ConnectionOperation → Bool
is_terminal_operation terminal = true
is_terminal_operation connection_test = false
is_terminal_operation structured_read = false
is_terminal_operation structured_write = false

unfoldable pub operation_value : ConnectionOperation → Text
operation_value connection_test = codes "connection_test"
operation_value structured_read = codes "structured_read"
operation_value structured_write = codes "structured_write"
operation_value terminal = codes "terminal"

pub record ConnectionTarget : Type 0 where
  pub endpoint_digest : Text
  pub credential_profile_id : ℕ
  pub device_id : Option ℕ

pub record ConnectionPermit : Type 0 where
  pub identifier : ℕ
  pub operation : ConnectionOperation
  pub target : ConnectionTarget

unfoldable pub is_hex : ℕ → Bool
is_hex c = leb b'0' c && leb c b'9' || leb b'a' c && leb c b'f'

-- `__post_init__` of a target: a ValueError unless the digest is one.
unfoldable pub checked_target : ConnectionTarget → Outcome ConnectionTarget
unfolding is_hex
checked_target target =
    if not (length target.endpoint_digest == 64) || not (all is_hex target.endpoint_digest)
    then raised fault
    else returned target

-- SHA-256 in hexadecimal, of a text, and the canonical spelling of a UUID and of a port.
pub record Spelling : Type 0 where
  pub sha256 : Text → Text
  pub lower : Text → Text
  pub uuid_text : ℕ → Text
  pub port_text : ℕ → Text

unfoldable pub from_endpoint : Spelling → Text → ℕ → ℕ → Option ℕ → Outcome ConnectionTarget
unfolding checked_target
from_endpoint spelling host port profile device =
    if leb 1 port && leb port 65_535
    then checked_target (record {
      endpoint_digest = spelling.sha256 (
          spelling.lower host
          ++ codes ":"
          ++ spelling.port_text port
          ++ codes ":"
          ++ spelling.uuid_text profile);
      credential_profile_id = profile;
      device_id = device;
    })
    else raised fault

-- The settings that the gate reads.
pub record Settings : Type 0 where
  pub max_device_connections : ℕ
  pub max_connections_per_device : ℕ
  pub max_terminal_sessions : ℕ
  pub max_terminal_sessions_per_device : ℕ
  pub connection_test_rate_limit : ℕ
  pub terminal_open_rate_limit : ℕ
  pub connection_rate_window_seconds : ℕ
  pub connection_permit_ttl_seconds : ℕ
  pub authentication_failure_limit : ℕ
  pub authentication_failure_window_seconds : ℕ
  pub authentication_cooldown_seconds : ℕ

abbrev pub micros : ℕ → ℕ
micros seconds = seconds * 1_000_000

-- The sets of live permits.
pub data ActiveKey : Type 0 where
  global terminals : ActiveKey
  device_active terminal_device : ℕ → ActiveKey

pub data Key : Type 0 where
  active : ActiveKey → Key
  permit : ℕ → Key
  connection_test_rate : Text → ℕ → Key
  terminal_rate : ℕ → Key
  authentication_failures authentication_cooldown : Text → ℕ → Key

abbrev pub failures_key : ConnectionTarget → Key
failures_key target = authentication_failures target.endpoint_digest target.credential_profile_id

abbrev pub cooldown_key : ConnectionTarget → Key
cooldown_key target = authentication_cooldown target.endpoint_digest target.credential_profile_id

-- `_rate_limit`: the key of the recent attempts and how many there may be. A terminal without a
-- device is refused before it gets here.
unfoldable pub rate_limit : Settings → ConnectionOperation → ConnectionTarget → Option (Key × ℕ)
rate_limit settings connection_test target = some (
  connection_test_rate target.endpoint_digest target.credential_profile_id,
  settings.connection_test_rate_limit,
)
rate_limit settings terminal target = elim target.device_id [
  | some device ↦ some (terminal_rate device, settings.terminal_open_rate_limit)
  | none ↦ none
]
rate_limit settings structured_read target = none
rate_limit settings structured_write target = none

abbrev device_keys : Option ℕ → List ActiveKey
device_keys (some device) = device_active device ∷ []
device_keys none = []

terminal_keys : ConnectionOperation → Option ℕ → List ActiveKey
terminal_keys terminal (some device) = terminals ∷ terminal_device device ∷ []
terminal_keys terminal none = []
terminal_keys connection_test device = []
terminal_keys structured_read device = []
terminal_keys structured_write device = []

-- `_active_keys`: the sets that a permit of this operation on this target is in.
unfoldable pub active_keys : ConnectionOperation → ConnectionTarget → List ActiveKey
unfolding terminal_keys
active_keys operation target =
    global ∷ device_keys target.device_id ++ terminal_keys operation target.device_id

abbrev device_text : Spelling → Option ℕ → Text
device_text spelling (some device) = spelling.uuid_text device
device_text spelling none = codes "-"

-- `_permit_fingerprint`.
unfoldable pub permit_fingerprint : Spelling → ConnectionPermit → Text
unfolding operation_value
permit_fingerprint spelling p = spelling.sha256 (
    operation_value p.operation
    ++ codes ":"
    ++ p.target.endpoint_digest
    ++ codes ":"
    ++ spelling.uuid_text p.target.credential_profile_id
    ++ codes ":"
    ++ device_text spelling p.target.device_id)
