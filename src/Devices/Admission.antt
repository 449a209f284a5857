-- ===== src/Devices/Admission.antt =====
-- services/devices.py: `admitted_connection`, the calls that it makes and their order. Each call to
-- the outside answers by the number of calls made before it, or raises.

pub mod Acts
pub mod Ends
pub mod Held
use terraformer.Base.{
  ℕ, suc, Bool, true, false, Option, none, some, List, [], ◌∷◌, ◌++◌, if◌then◌else◌, any,
}
use terraformer.Text.{Text, codes, same}
use terraformer.Errors.{AppError, gate, policy, driver_host_key_unknown, code}
use terraformer.Errors.Admission.{connection_gate_unavailable}
use terraformer.Models.{SshCompatibility}
use terraformer.Gate.{ConnectionOperation, ConnectionTarget, ConnectionPermit}
use terraformer.Devices.Policy.{
  SshSettings, Acknowledged, Reason, enforce_compatibility_policy, policy_error,
}

-- What is raised: a typed error with the phase in its details, another Exception, or what is no
-- Exception, such as a cancellation.
pub data Raised : Type 0 where
  app : AppError → Option Text → Raised
  fault interrupt : Raised

pub data Result (A : Type 0) : Type 0 where
  returned : A → Result A
  raised : Raised → Result A

pub data Decision : Type 0 where
  allowed denied : Decision

-- The row that `_audit_connection` records, less the constant fields, the echo of the request and the
-- duration.
pub record Audit : Type 0 where
  pub phase : Text
  pub decision : Decision
  pub result_code : Text

-- The calls that count, in the order in which they are made.
pub data Act : Type 0 where
  acquires : Act
  acquired released : ConnectionPermit → Act
  uses : Act
  notes_failure notes_success : Act
  audits : Audit → Act
  commits : Act

pub record World : Type 0 where
  pub clock : ℕ
  pub acts : List Act

abbrev pub Run : Type 0 → Type 0
Run A = World → Result A × World

abbrev pub continue : {A B : Type 0} → Result A → (A → Run B) → Run B
continue (returned a) f w = f a w
continue (raised e) f w = (raised e, w)

abbrev pub pure : {A : Type 0} → A → Run A
pure a w = (returned a, w)

abbrev pub raise : {A : Type 0} → Raised → Run A
raise e w = (raised e, w)

-- A call of interest, and one that is not.
abbrev pub act : {A : Type 0} → Act → (ℕ → Result A) → Run A
act a answer w = (answer w.clock, record w { clock = suc w.clock; acts = w.acts ++ a ∷ [] })

abbrev pub ask : {A : Type 0} → (ℕ → Result A) → Run A
ask answer w = (answer w.clock, record w { clock = suc w.clock })

infixl 5 ◌>>=◌ ◌>>◌
abbrev pub ◌>>=◌ : {A B : Type 0} → Run A → (A → Run B) → Run B
◌>>=◌ m f w = let (r, w') = m w in continue r f w'

abbrev pub ◌>>◌ : {A B : Type 0} → Run A → Run B → Run B
m >> n = m >>= λ _. n

-- `try … finally`: what the cleanup raises comes in place of what was returned or raised.
abbrev closing : {A : Type 0} → Result (Unit {0}) → Result A → Result A
closing (returned u) r = r
closing (raised e) r = raised e

abbrev pub finally : {A : Type 0} → Run A → Run (Unit {0}) → Run A
finally m cleanup w = let (r, w') = m w in let (c, w'') = cleanup w' in (closing c r, w'')

-- The outside: the trust in host keys, the gate (or none), the credentials, the event log and the
-- database, and what the body of the `with` statement does with the connection.
pub record Env (A : Type 0) : Type 0 where
  pub settings : SshSettings
  pub has_gate : Bool
  pub resolve_candidate : ℕ → Result (Unit {0})
  pub require_host_key : ℕ → Result (Unit {0})
  pub target : ℕ → Result ConnectionTarget
  pub acquire : ConnectionOperation → ConnectionTarget → ℕ → Result ConnectionPermit
  pub release : ConnectionPermit → ℕ → Result (Unit {0})
  pub authentication_failed : ConnectionTarget → ℕ → Result (Unit {0})
  pub authentication_succeeded : ConnectionTarget → ℕ → Result (Unit {0})
  pub get_profile : ℕ → Result (Unit {0})
  pub decrypt : ℕ → Result (Unit {0})
  pub record_event : ℕ → Result (Unit {0})
  pub commit : ℕ → Result (Unit {0})
  pub body : ℕ → Result A

pub record Request : Type 0 where
  pub device_id : Option ℕ
  pub compatibility : SshCompatibility
  pub acknowledged : Acknowledged
  pub operation : ConnectionOperation
  pub host_key_candidate_id : Option ℕ
  pub commits_session : Bool

abbrev audit_phases : List Text
audit_phases =
    codes "authorization"
    ∷ codes "complete"
    ∷ codes "tcp_connection"
    ∷ codes "ssh_negotiation"
    ∷ codes "host_key_verification"
    ∷ codes "authentication"
    ∷ codes "pty_creation"
    ∷ codes "terminal_io"
    ∷ []

unfoldable pub audit_phase : Option Text → Text
audit_phase none = codes "complete"
audit_phase (some phase) = if any (same phase) audit_phases then phase else codes "complete"

abbrev is_phase : Text → Option Text → Bool
is_phase phase none = false
is_phase phase (some p) = same p phase

unfoldable pub is_authentication : Option Text → Bool
is_authentication phase = is_phase (codes "authentication") phase

-- `_POST_AUTHENTICATION_PHASES`.
unfoldable pub is_post_authentication : Option Text → Bool
is_post_authentication phase =
    if is_phase (codes "pty_creation") phase then true else is_phase (codes "terminal_io") phase

module _ {A : Type 0} (env : Env A) (request : Request) where
  commit_session : Run (Unit {0})
  commit_session = if request.commits_session then act commits env.commit else pure tt

  audit : Text → Decision → Text → Run (Unit {0})
  audit phase decision result_code =
      act (audits (record { phase = phase; decision = decision; result_code = result_code }))
        env.record_event

  -- A refusal is audited, and the audit is saved, before the error is raised.
  pub refuse : {B : Type 0} → AppError → Option Text → Run B
  unfolding audit commit_session
  refuse e phase = do
    audit (codes "authorization") denied (codes (code e))
    commit_session
    raise (app e phase)

  host_key_of : Option ℕ → Option ℕ → Run (Unit {0})
  host_key_of (some device) candidate = ask env.require_host_key
  host_key_of none (some candidate) = ask env.resolve_candidate
  host_key_of none none = raise (app driver_host_key_unknown (some (codes "host_key_verification")))

  pub check_host_key : Run (Unit {0})
  unfolding host_key_of
  check_host_key = host_key_of request.device_id request.host_key_candidate_id

  pub acquired_or_refused : Result ConnectionPermit → Run ConnectionPermit
  unfolding refuse
  acquired_or_refused (returned p) w = (returned p, record w { acts = w.acts ++ acquired p ∷ [] })
  acquired_or_refused (raised (app e phase)) w = refuse e phase w
  acquired_or_refused (raised fault) w = (raised fault, w)
  acquired_or_refused (raised interrupt) w = (raised interrupt, w)

  pub acquire_permit : ConnectionTarget → Run ConnectionPermit
  unfolding acquired_or_refused
  acquire_permit target w =
      let (r, w') = act acquires (env.acquire request.operation target) w in
      acquired_or_refused r w'

  -- What the gate is told of a failure in this phase.
  note_phase : ConnectionTarget → Option Text → Run (Unit {0})
  note_phase target phase =
      if is_authentication phase
      then act notes_failure (env.authentication_failed target)
      else if is_post_authentication phase
      then act notes_success (env.authentication_succeeded target)
      else pure tt

  pub concluded : ConnectionTarget → Result A → Run A
  unfolding audit commit_session note_phase
  concluded target (returned a) = do
    act notes_success (env.authentication_succeeded target)
    audit (codes "complete") allowed (codes "success")
    pure a
  concluded target (raised (app e phase)) = do
    note_phase target phase
    audit (audit_phase phase) allowed (codes (code e))
    commit_session
    raise (app e phase)
  concluded target (raised fault) = do
    audit (codes "complete") allowed (codes "internal_error")
    commit_session
    raise fault
  concluded target (raised interrupt) = raise interrupt

  pub use_connection : ConnectionTarget → Run A
  unfolding concluded
  use_connection target = do
    ask env.get_profile
    ask env.decrypt
    λ w. let (r, w') = act uses env.body w in concluded target r w'

  pub with_permit : ConnectionTarget → ConnectionPermit → Run A
  unfolding use_connection
  with_permit target p = finally (use_connection target) (act (released p) (env.release p))

  pub with_gate : Bool → Run A
  unfolding refuse check_host_key acquire_permit with_permit
  with_gate false = refuse (gate connection_gate_unavailable) none
  with_gate true = do
    check_host_key
    target ← ask env.target
    p ← acquire_permit target
    with_permit target p

  unfoldable pub judged : Option Reason → Run A
  unfolding refuse with_gate
  judged (some reason) =
      refuse (policy (policy_error request.compatibility env.settings request.acknowledged))
        (some (codes "authorization"))
  judged none = with_gate env.has_gate

  unfoldable pub admitted_connection : Run A
  unfolding judged
  admitted_connection =
      judged (enforce_compatibility_policy request.compatibility env.settings request.acknowledged)
