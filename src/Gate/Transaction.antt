-- ===== src/Gate/Transaction.antt =====
-- services/connection_gate.py: `_transaction`, which watches keys, lets the callback read and queue
-- its writes, and tries again when another client wrote to a watched key meanwhile. The reads of one
-- attempt see one state.
pub mod Ends
use terraformer.Base.{ℕ, zero, suc}
use terraformer.Errors.{AppError, gate}
use terraformer.Errors.Admission.{connection_gate_unavailable}
use terraformer.Pipeline.{app, fault, Outcome, returned, raised}

module _ (Db : Type 0) where
  -- What happens in one attempt, whose callback runs at this instant: nobody interferes; another
  -- client's writes make the attempt fail; Redis fails before the writes; or the answer to them is lost.
  pub data Round : Type 0 where
    undisturbed : ℕ → Round
    disturbed : ℕ → (Db → Db) → Round
    broken : Round
    cut_off : ℕ → Round

  -- A callback raises a typed error, or queues writes and returns.
  pub data Reply (A : Type 0) : Type 0 where
    refuse : AppError → Reply A
    commit : A → (Db → Db) → Reply A

module _ {Db A : Type 0} where
  -- EXEC, when nobody interfered.
  abbrev pub executed : Reply Db A → Db → Outcome A × Db
  executed (refuse e) d = (raised (app e), d)
  executed (commit a writes) d = (returned a, writes d)

  -- The writes are made, and Redis raises its error all the same.
  abbrev pub lost : Reply Db A → Db → Outcome A × Db
  lost (refuse e) d = (raised (app e), d)
  lost (commit a writes) d = (raised fault, writes d)

  -- A WatchError: the callback's own error comes first, since it is raised before EXEC.
  abbrev pub retried : Reply Db A → (Db → Db) → (Db → Outcome A × Db) → Db → Outcome A × Db
  retried (refuse e) others again d = (raised (app e), others d)
  retried (commit a writes) others again d = again (others d)

  abbrev pub in_round :
      (ℕ → Db → Reply Db A) → Round Db → (Db → Outcome A × Db) → Db → Outcome A × Db
  in_round callback (undisturbed now) again d = executed (callback now d) d
  in_round callback (disturbed now others) again d = retried (callback now d) others again d
  in_round callback broken again d = (raised fault, d)
  in_round callback (cut_off now) again d = lost (callback now d) d

  unfoldable pub transaction : ℕ → (ℕ → Round Db) → (ℕ → Db → Reply Db A) → Db → Outcome A × Db
  transaction zero rounds callback d = (raised (app (gate connection_gate_unavailable)), d)
  transaction (suc attempts) rounds callback d =
      in_round callback (rounds 0) (transaction attempts (λ n. rounds (suc n)) callback) d

-- `_TRANSACTION_ATTEMPTS`.
abbrev pub transaction_attempts : ℕ
transaction_attempts = 8

-- `except RedisError: raise ConnectionGateUnavailableError()`.
unfoldable pub or_unavailable : {A : Type 0} → Outcome A → Outcome A
or_unavailable (raised fault) = raised (app (gate connection_gate_unavailable))
or_unavailable (raised (app e)) = raised (app e)
or_unavailable (returned a) = returned a
