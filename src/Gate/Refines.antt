-- ===== src/Gate/Refines.antt =====
-- The gate of services/connection_gate.py over Redis keeps a pool of leases (Gate/Leases.antt).
pub mod Ended
pub mod Decides
use terraformer.Base.{
  ℕ, ◌+◌, ◌≤◌, ◌≡◌, refl, sym, ◌∙◌, ap, Bool, true, false, Option, none, some, List, [], ◌∷◌, ◌⊎◌,
  inl, inr, arith, ltb, leb, ◌==◌, ==_iff, if◌then◌else◌, any, subst, Bool-cases, Option-cases,
  ◌||◌,
}
use terraformer.Errors.{gate}
use terraformer.Errors.Admission.{
  device_authentication_rate_limited, device_connection_rate_limited,
}
use terraformer.Gate.{
  ConnectionOperation, connection_test, structured_read, structured_write, terminal,
  ConnectionTarget, ConnectionPermit, Settings, Spelling, ActiveKey, Key, active, permit,
  active_keys, permit_fingerprint,
}
use terraformer.Gate.Redis.{Redis, RedisLaws, at, above, kept, one_if}
use terraformer.Gate.Transaction.{Reply, refuse, commit}
use terraformer.Gate.Admit.{
  permit_ttl, record_permit, admit, refusal, forget_permit, release_permit, is_text,
}
use terraformer.Gate.Leases.{
  Lease, Pool, is_in, counts_in, lease_count, is_held, lease_of, lease_for, give_lease, end_lease,
  take_back, stored, IsPool, is_full, has_id,
}
use terraformer.Gate.Leases.Laws.{
  IsPool-later, lease_count-over, is_held-over, is_held-fresh, stored-fresh, end_lease-IsPool,
  lease_count-end_lease, is_held-end_lease, is_held-end_lease_other, stored-end_lease,
  stored-end_lease_other,
}
use terraformer.Gate.Writes.{IsFresh, SameAt-refl}
use terraformer.Gate.Writes.Permits.{
  record_permit-Entered, record_permit-SameAt, record_permit-get, forget_permit-Left,
  forget_permit-SameAt, forget_permit-get,
}

module _ (redis : Redis) (settings : Settings) (spelling : Spelling) where
  open redis use {Db, get, zcount, zscore}

  -- The database holds this pool from `now` on: every set of live permits counts the leases that
  -- have not ended, holds their identifiers and no other, and their fingerprints are stored.
  pub record Represents (now : ℕ) (d : Db) (pool : Pool) : Type 0 where
    pub is_pool : IsPool settings now pool
    pub counts :
        (s t : ℕ) (k : ActiveKey)
        → now ≤ s
        → s ≤ t
        → zcount s (active k) (at t) d ≡ lease_count t k pool
    pub members :
        (s t : ℕ) (k : ActiveKey) (m : ℕ)
        → now ≤ s
        → s ≤ t
        → above (at t) (zscore s (active k) m d) ≡ is_held t k m pool
    pub permits : (s m : ℕ) → now ≤ s → get s (permit m) d ≡ stored spelling s m pool

  module _ (laws : RedisLaws redis) where
    pool-IsFresh :
        (now m : ℕ) (k : ActiveKey) (d : Db) (pool : Pool)
        → Represents now d pool
        → lease_of m pool ≡ none
        → IsFresh redis laws settings now m k d
    pool-IsFresh now m k d pool r f t h =
        r.members now t k m (omega arith) h ∙ is_held-fresh t k m pool f

    given-counts :
        (now s t : ℕ) (k : ActiveKey) (p : ConnectionPermit) (d : Db) (pool : Pool)
        → Represents now d pool
        → lease_of p.identifier pool ≡ none
        → now ≤ s
        → s ≤ t
        → zcount s (active k) (at t) (record_permit redis settings spelling now p d)
          ≡ lease_count t k (lease_for settings now p ∷ pool)
    unfolding lease_count
    given-counts now s t k p d pool r f u v = elim (Bool-cases (is_in p k)) [
      | inl e ↦ rw e (
          (record_permit-Entered redis laws settings spelling now p d k e
              (pool-IsFresh now p.identifier k d pool r f)).entered_count
            s t u v
          ∙ elim (Bool-cases (ltb s (now + permit_ttl settings))) [
            | inl l ↦ ground (arith, l, r.counts now t k (omega arith) (omega arith))
            | inr l ↦ ground (arith, l, lease_count-over settings now t k pool r.is_pool)
          ])
      | inr e ↦ rw e (
          (record_permit-SameAt redis laws settings spelling now p d k e).same_count s (at t)
          ∙ ground (arith, r.counts s t k u v))
    ]

    given-members :
        (now s t : ℕ) (k : ActiveKey) (m : ℕ) (p : ConnectionPermit) (d : Db) (pool : Pool)
        → Represents now d pool
        → lease_of p.identifier pool ≡ none
        → now ≤ s
        → s ≤ t
        → above (at t) (zscore s (active k) m (record_permit redis settings spelling now p d))
          ≡ is_held t k m (lease_for settings now p ∷ pool)
    unfolding is_held
    given-members now s t k m p d pool r f u v = elim (Bool-cases (is_in p k)) [
      | inl e ↦
          let x =
            record_permit-Entered redis laws settings spelling now p d k e
              (pool-IsFresh now p.identifier k d pool r f) in
          elim (Bool-cases (p.identifier == m)) [
            | inl i ↦
                subst
                  (λ n.
                    above (at t)
                      (zscore s (active k) n (record_permit redis settings spelling now p d))
                    ≡ is_held t k n (lease_for settings now p ∷ pool))
                  ((==_iff p.identifier m).0 i) (rw (x.entered_self s u, is_held, e) (ground arith))
            | inr i ↦
                rw (i, x.entered_other s m u (λ q. ground (arith, q, i)))
                  (elim (Bool-cases (ltb s (now + permit_ttl settings))) [
                    | inl l ↦ rw l (
                        later now t (zscore now (active k) m d) (omega arith)
                        ∙ r.members now t k m (omega arith) (omega arith))
                    | inr l ↦
                        rw l (sym (is_held-over settings now t k m pool r.is_pool (ground arith)))
                  ])
          ]
      | inr e ↦
          ap (above (at t))
            ((record_permit-SameAt redis laws settings spelling now p d k e).same_score s m)
          ∙ r.members s t k m u v
          ∙ passed_over e (p.identifier == m) refl
    ]
      where
        passed_over :
            is_in p k ≡ false
            → (b : Bool) → (p.identifier == m) ≡ b
            → is_held t k m pool ≡ is_held t k m (lease_for settings now p ∷ pool)
        passed_over e true i =
            is_held-fresh t k m pool
              (subst (λ n. lease_of n pool ≡ none) ((==_iff p.identifier m).0 i) f)
            ∙ rw (is_held, i, e) (ground arith)
        passed_over e false i = rw (is_held, i) refl

        later :
            (now t : ℕ) (o : Option ℕ) → now ≤ t → above (at t) (kept (at now) o) ≡ above (at t) o
        later now t none h = refl
        later now t (some x) h = ground arith

    given-permits :
        (now s m : ℕ) (p : ConnectionPermit) (d : Db) (pool : Pool)
        → Represents now d pool
        → now ≤ s
        → get s (permit m) (record_permit redis settings spelling now p d)
          ≡ stored spelling s m (lease_for settings now p ∷ pool)
    unfolding stored
    given-permits now s m p d pool r u =
        record_permit-get redis laws settings spelling now p d s m u
        ∙ ground (arith, r.permits s m u)

    -- A recorded permit is a lease given.
    pub record_permit-Represents :
        (now : ℕ) (p : ConnectionPermit) (d : Db) (pool : Pool)
        → Represents now d pool
        → lease_of p.identifier pool ≡ none
        → Represents now
            (record_permit redis settings spelling now p d)
            (lease_for settings now p ∷ pool)
    unfolding IsPool
    record_permit-Represents now p d pool r f = record {
      is_pool = (f, omega arith, r.is_pool);
      counts = λ s t k u v. given-counts now s t k p d pool r f u v;
      members = λ s t k m u v. given-members now s t k m p d pool r f u v;
      permits = λ s m u. given-permits now s m p d pool r u;
    }

    -- As time passes the leases end by themselves.
    pub Represents-later :
        (now later : ℕ) (d : Db) (pool : Pool)
        → now ≤ later
        → Represents now d pool
        → Represents later d pool
    Represents-later now later d pool h r = record {
      is_pool = IsPool-later settings now later pool h r.is_pool;
      counts = λ s t k u v. r.counts s t k (omega arith) v;
      members = λ s t k m u v. r.members s t k m (omega arith) v;
      permits = λ s m u. r.permits s m (omega arith);
    }
