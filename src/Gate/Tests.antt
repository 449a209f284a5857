-- ===== src/Gate/Tests.antt =====
-- Examples of the connection gate, over the store of Gate/Store.antt.
use native.Mathlib.Decide.{ℕ_discrete}
use terraformer.Base.{ℕ, ◌+◌, ◌≤◌, ◌<◌, ◌≡◌, refl, some, [], ◌∷◌, arith}
use terraformer.Text.{codes}
use terraformer.Errors.{gate}
use terraformer.Errors.Admission.{
  device_connection_limit_reached, device_authentication_rate_limited, connection_gate_unavailable,
}
use terraformer.Pipeline.{app, raised}
use terraformer.Gate.Store.Members.{score_of, put_score, count_after}
use terraformer.Gate.{
  ConnectionTarget, ConnectionPermit, Settings, Spelling, structured_read, global, ActiveKey,
  cooldown_key, is_terminal_operation, rate_limit, active_keys,
}
use terraformer.Gate.Transaction.{
  Round, disturbed, refuse, commit, transaction_attempts, transaction, or_unavailable,
}
use terraformer.Gate.Transaction.Ends.{TransactionEnds, transaction_ends}
use terraformer.Gate.Admit.{
  note_attempt, enter_sets, enter_set, admit, refusal, answered, is_over_rate, is_terminal_full,
  is_device_full, acquire, record_permit, forget_permit, active_count, permit_ttl, record_failure,
  note_failure, release_permit,
}
use terraformer.Gate.Leases.{Pool, lease_for, lease_of, limit_of, IsWithinLimits}
use terraformer.Gate.Refines.{Represents}
use terraformer.Gate.Refines.Decides.{Decides, admit-Decides}
use terraformer.Gate.Reach.{Reach, start, admits, Reach-Represents, Reach-bounded}
use terraformer.Gate.Frees.{IsClear, recovers, release_makes_room}
use terraformer.Gate.Cooldown.{quiet, cooldown_term, failures_lock_out}
use terraformer.Gate.Store.{
  Contents, store, store-RedisLaws, empty_store, empty-Represents, write, Key-discrete,
}

abbrev settings : Settings
settings = record {
  max_device_connections = 1;
  max_connections_per_device = 1;
  max_terminal_sessions = 1;
  max_terminal_sessions_per_device = 1;
  connection_test_rate_limit = 5;
  terminal_open_rate_limit = 5;
  connection_rate_window_seconds = 60;
  connection_permit_ttl_seconds = 3900;
  authentication_failure_limit = 1;
  authentication_failure_window_seconds = 60;
  authentication_cooldown_seconds = 60;
}

-- Texts stand for their digests.
abbrev spelling : Spelling
spelling = record {
  sha256 = λ s. s;
  lower = λ s. s;
  uuid_text = λ n. n ∷ [];
  port_text = λ n. n ∷ [];
}

abbrev target : ConnectionTarget
target = record { endpoint_digest = codes "e"; credential_profile_id = 1; device_id = some 7 }

abbrev permit_of : ℕ → ConnectionPermit
permit_of n = record { identifier = n; operation = structured_read; target = target }

abbrev now : ℕ
now = 100_000_000

abbrev reached : Reach store settings spelling now empty_store []
reached = start (empty-Represents settings spelling now)

-- The first permit of device 7 is given.
first_admitted :
    admit store settings spelling (permit_of 0) now empty_store
    ≡ commit (permit_of 0) (record_permit store settings spelling now (permit_of 0))
unfolding admit refusal answered is_over_rate rate_limit active_count is_terminal_full
    is_device_full count_after
first_admitted = refl

abbrev full_store : Contents
full_store = record_permit store settings spelling now (permit_of 0) empty_store

abbrev full_pool : Pool
full_pool = lease_for settings now (permit_of 0) ∷ []

full_reached : Reach store settings spelling now full_store full_pool
unfolding lease_of
full_reached = admits (permit_of 0) refl refl first_admitted reached

-- With a limit of one the second is refused.
second_refused :
    admit store settings spelling (permit_of 1) now full_store
    ≡ refuse (gate device_connection_limit_reached)
unfolding admit refusal answered is_over_rate rate_limit active_count is_terminal_full
    is_device_full count_after record_permit note_attempt enter_sets enter_set active_keys write
    Key-discrete ℕ_discrete put_score score_of
second_refused = refl

admit-Decides_example :
    Decides store settings spelling now
      (permit_of 0)
      empty_store
      []
      (admit store settings spelling (permit_of 0) now empty_store)
unfolding lease_of
admit-Decides_example =
    admit-Decides store settings spelling store-RedisLaws now (permit_of 0) empty_store []
      (empty-Represents settings spelling now) refl refl

Reach-Represents_example :
    Represents store settings spelling now full_store full_pool
    × IsWithinLimits settings now full_pool
Reach-Represents_example =
    Reach-Represents store settings spelling store-RedisLaws now full_store full_pool full_reached

Reach-bounded_example : active_count store settings now global full_store ≤ limit_of settings global
Reach-bounded_example =
    Reach-bounded store settings spelling store-RedisLaws now full_store full_pool full_reached
      global

full-IsClear : IsClear store settings (now + permit_ttl settings) structured_read target full_store
unfolding record_permit active_keys write Key-discrete rate_limit is_over_rate
full-IsClear = record { addressed = refl; no_cooldown = refl; under_rate = refl }

some_limit : (k : ActiveKey) → 0 < limit_of settings k
unfolding limit_of
some_limit k = ground arith

recovers_example :
    admit store settings spelling (permit_of 1) (now + permit_ttl settings) full_store
    ≡ commit
        (permit_of 1)
        (record_permit store settings spelling (now + permit_ttl settings) (permit_of 1))
recovers_example =
    recovers store settings spelling store-RedisLaws now (now + permit_ttl settings) (permit_of 1)
      full_store full_pool full_reached (omega arith) some_limit full-IsClear

released-IsClear :
    IsClear store settings now structured_read target
      (forget_permit store settings (permit_of 0) full_store)
unfolding record_permit forget_permit active_keys write Key-discrete rate_limit is_over_rate
released-IsClear = record { addressed = refl; no_cooldown = refl; under_rate = refl }

first_found : lease_of 0 full_pool ≡ some (lease_for settings now (permit_of 0))
unfolding lease_of
first_found = refl

release_makes_room_example :
    (release_permit store settings spelling (permit_of 0) now full_store
      ≡ commit tt (forget_permit store settings (permit_of 0)))
    × (admit store settings spelling
          (permit_of 1)
          now
          (forget_permit store settings (permit_of 0) full_store)
        ≡ commit (permit_of 1) (record_permit store settings spelling now (permit_of 1)))
release_makes_room_example =
    release_makes_room store settings spelling store-RedisLaws now (permit_of 0) (permit_of 1)
      full_store full_pool (lease_for settings now (permit_of 0)) full_reached first_found
      (omega arith) ((λ e. refl), tt) refl refl released-IsClear

locking : Contents → Contents
locking d =
    store.set now (cooldown_key target) (codes "1") (cooldown_term store settings)
      (note_failure store settings target now 5 d)

failure_locks : record_failure store settings target 5 now empty_store ≡ commit tt locking
unfolding record_failure locking count_after
failure_locks = refl

failures_lock_out_example :
    admit store settings spelling (permit_of 0) (now + 1) (locking empty_store)
    ≡ refuse (gate device_authentication_rate_limited)
failures_lock_out_example =
    failures_lock_out store settings store-RedisLaws target spelling now 0 now (now + 1) 5
      (permit_of 0) empty_store locking quiet (omega arith) (omega arith) failure_locks refl
      (omega arith) (omega arith)

-- Another client writes first, every time.
always_racing : ℕ → Round Contents
always_racing n = disturbed now (λ d. d)

transaction_ends_example :
    TransactionEnds
      (admit store settings spelling (permit_of 0))
      transaction_attempts
      always_racing
      empty_store
      (transaction transaction_attempts always_racing
        (admit store settings spelling (permit_of 0))
        empty_store)
transaction_ends_example =
    transaction_ends (admit store settings spelling (permit_of 0)) transaction_attempts
      always_racing empty_store

lost_every_race :
    (acquire store settings spelling always_racing 0 structured_read target empty_store).0
    ≡ raised (app (gate connection_gate_unavailable))
unfolding acquire transaction admit refusal answered is_over_rate rate_limit active_count
    is_terminal_full is_device_full count_after always_racing or_unavailable is_terminal_operation
lost_every_race = refl
