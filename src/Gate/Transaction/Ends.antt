-- ===== src/Gate/Transaction/Ends.antt =====
-- How `_transaction` of services/connection_gate.py ends, in at most `_TRANSACTION_ATTEMPTS` rounds.
use terraformer.Base.{ℕ, zero, suc, ◌<◌, ◌≡◌, refl, sym, subst, arith}
use terraformer.Errors.{AppError, gate}
use terraformer.Errors.Admission.{connection_gate_unavailable}
use terraformer.Pipeline.{app, fault, Outcome, raised}
use terraformer.Gate.Transaction.{
  Round, undisturbed, disturbed, broken, cut_off, Reply, refuse, commit, transaction, executed,
  lost, retried, in_round,
}

module _ {Db A : Type 0} (callback : ℕ → Db → Reply Db A) where
  -- A round that must be tried again: the callback has writes to make, and other clients wrote first.
  pub data IsLostRace (d e : Db) (round : Round Db) : Type 0 where
    raced :
        (now : ℕ) (others writes : Db → Db) (a : A)
        → round ≡ disturbed now others
        → callback now d ≡ commit a writes
        → e ≡ others d
        → IsLostRace d e round

  -- After this many lost races the database is `e`.
  pub data LostRaces : ℕ → (ℕ → Round Db) → Db → Db → Type 0 where
    none_lost : {rounds : ℕ → Round Db} {d : Db} → LostRaces zero rounds d d
    one_more :
        {n : ℕ} {rounds : ℕ → Round Db} {d e f : Db}
        → IsLostRace d e (rounds 0)
        → LostRaces n (λ i. rounds (suc i)) e f
        → LostRaces (suc n) rounds d f

  -- The round that decides, in the database `e`: the callback's error is raised, or its writes are
  -- made and its value returned, or Redis's own error is raised, with the writes made or not.
  pub Settles : Round Db → Db → Outcome A × Db → Type 0
  Settles (undisturbed now) e r = r ≡ executed (callback now e) e
  Settles (disturbed now others) e r =
      (err : AppError) × (callback now e ≡ refuse err) × (r ≡ (raised (app err), others e))
  Settles broken e r = r ≡ (raised fault, e)
  Settles (cut_off now) e r = r ≡ lost (callback now e) e

  pub data TransactionEnds (attempts : ℕ) (rounds : ℕ → Round Db) (d : Db) (r : Outcome A × Db)
      : Type 0 where
    exhausted :
        (e : Db)
        → LostRaces attempts rounds d e
        → r ≡ (raised (app (gate connection_gate_unavailable)), e)
        → TransactionEnds attempts rounds d r
    settled :
        (n : ℕ) (e : Db)
        → n < attempts
        → LostRaces n rounds d e
        → Settles (rounds n) e r
        → TransactionEnds attempts rounds d r

  later :
      (attempts : ℕ) (rounds : ℕ → Round Db) (d e : Db) (r : Outcome A × Db)
      → IsLostRace d e (rounds 0)
      → TransactionEnds attempts (λ i. rounds (suc i)) e r
      → TransactionEnds (suc attempts) rounds d r
  later attempts rounds d e r l (exhausted f x q) = exhausted f (one_more l x) q
  later attempts rounds d e r l (settled n f h x q) =
      settled (suc n) f (omega arith) (one_more l x) q

  -- The loop ends within its attempts. It raises "unavailable" with nothing written when it lost
  -- every race; otherwise the first round that lost no race decides, on the database that the other
  -- clients' writes left until then.
  pub transaction_ends :
      (attempts : ℕ) (rounds : ℕ → Round Db) (d : Db)
      → TransactionEnds attempts rounds d (transaction attempts rounds callback d)
  unfolding transaction Settles
  transaction_ends zero rounds d = exhausted d none_lost refl
  transaction_ends (suc attempts) rounds d =
      go (λ e l. later attempts rounds d e _ l (transaction_ends attempts (λ i. rounds (suc i)) e))
        (rounds 0) refl
    where
      Ends : Outcome A × Db → Type 0
      Ends = TransactionEnds (suc attempts) rounds d

      next : Db → Outcome A × Db
      next = transaction attempts (λ i. rounds (suc i)) callback

      here :
          (round : Round Db) → rounds 0 ≡ round → (r : Outcome A × Db) → Settles round d r → Ends r
      here round q r s = settled 0 d (omega arith) none_lost (subst (λ x. Settles x d r) (sym q) s)

      tried :
          ((e : Db) → IsLostRace d e (rounds 0) → Ends (next e))
          → (now : ℕ) (others : Db → Db) → rounds 0 ≡ disturbed now others
          → (reply : Reply Db A) → callback now d ≡ reply
          → Ends (retried reply others next d)
      tried again now others q (refuse err) c = here (disturbed now others) q _ (err, c, refl)
      tried again now others q (commit a writes) c =
          again (others d) (raced now others writes a q c refl)

      go :
          ((e : Db) → IsLostRace d e (rounds 0) → Ends (next e))
          → (round : Round Db) → rounds 0 ≡ round
          → Ends (in_round callback round next d)
      go again (undisturbed now) q = here (undisturbed now) q _ refl
      go again (disturbed now others) q = tried again now others q (callback now d) refl
      go again broken q = here broken q _ refl
      go again (cut_off now) q = here (cut_off now) q _ refl
