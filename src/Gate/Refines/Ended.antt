-- ===== src/Gate/Refines/Ended.antt =====
-- A permit that is forgotten is a lease that ends: `release` of services/connection_gate.py.
use terraformer.Base.{
  ℕ, ◌≤◌, ◌≡◌, refl, sym, ◌∙◌, ap, Bool, true, false, none, [], ◌∷◌, arith, ◌==◌, ==_iff,
  if◌then◌else◌, All, Bool-cases, inl, inr, subst,
}
use terraformer.Gate.{ConnectionPermit, Settings, Spelling, ActiveKey, active, permit}
use terraformer.Gate.Redis.{Redis, RedisLaws, at, above}
use terraformer.Gate.Admit.{forget_permit}
use terraformer.Gate.Leases.{Lease, Pool, is_in, lease_count, is_held, end_lease, stored, has_id}
use terraformer.Gate.Leases.Laws.{
  end_lease-IsPool, lease_count-end_lease, is_held-end_lease, is_held-end_lease_other,
  stored-end_lease, stored-end_lease_other,
}
use terraformer.Gate.Writes.Permits.{forget_permit-Left, forget_permit-SameAt, forget_permit-get}
use terraformer.Gate.Refines.{Represents}

-- The lease of this permit's identifier, if there is one, is of this permit.
abbrev pub IsOf : ConnectionPermit → Lease → Type 0
IsOf p l = has_id p.identifier l ≡ true → l.permit ≡ p

-- A permit is in no set but its own.
is_held-outside :
    (t : ℕ) (k : ActiveKey) (p : ConnectionPermit) (pool : Pool)
    → All (IsOf p) pool
    → is_in p k ≡ false
    → is_held t k p.identifier pool ≡ false
unfolding is_held
is_held-outside t k p [] h e = refl
is_held-outside t k p (l ∷ ls) h e = elim (Bool-cases (has_id p.identifier l)) [
  | inl i ↦ rw (i, h.0 i, e) (ground arith)
  | inr i ↦ rw i (is_held-outside t k p ls h.1 e)
]

module _ (redis : Redis) (settings : Settings) (spelling : Spelling) (laws : RedisLaws redis) where
  open redis use {Db, get, zcount, zscore}

  module _ (now : ℕ) (p : ConnectionPermit) (d : Db) (pool : Pool)
      (r : Represents redis settings spelling now d pool) (own : All (IsOf p) pool) where
    ended-counts :
        (s t : ℕ) (k : ActiveKey)
        → now ≤ s
        → s ≤ t
        → zcount s (active k) (at t) (forget_permit redis settings p d)
          ≡ lease_count t k (end_lease p.identifier pool)
    ended-counts s t k u v = elim (Bool-cases (is_in p k)) [
      | inl e ↦ ground (
        arith,
        (forget_permit-Left redis laws settings p d k e).left_count s (at t),
        r.counts s t k u v,
        r.members s t k p.identifier u v,
        lease_count-end_lease settings now t k p.identifier pool r.is_pool,
      )
      | inr e ↦
          (forget_permit-SameAt redis laws settings p d k e).same_count s (at t)
          ∙ ground (
            arith,
            r.counts s t k u v,
            is_held-outside t k p pool own e,
            lease_count-end_lease settings now t k p.identifier pool r.is_pool,
          )
    ]

    ended-members :
        (s t : ℕ) (k : ActiveKey) (m : ℕ)
        → now ≤ s
        → s ≤ t
        → above (at t) (zscore s (active k) m (forget_permit redis settings p d))
          ≡ is_held t k m (end_lease p.identifier pool)
    ended-members s t k m u v = elim (Bool-cases (is_in p k)) [
      | inl e ↦ inside e (p.identifier == m) refl
      | inr e ↦
          ap (above (at t)) ((forget_permit-SameAt redis laws settings p d k e).same_score s m)
          ∙ r.members s t k m u v
          ∙ outside e (p.identifier == m) refl
    ]
      where
        inside :
            is_in p k ≡ true
            → (b : Bool) → (p.identifier == m) ≡ b
            → above (at t) (zscore s (active k) m (forget_permit redis settings p d))
              ≡ is_held t k m (end_lease p.identifier pool)
        inside e true i =
            subst
              (λ n.
                above (at t) (zscore s (active k) n (forget_permit redis settings p d))
                ≡ is_held t k n (end_lease p.identifier pool))
              ((==_iff p.identifier m).0 i)
              (rw ((forget_permit-Left redis laws settings p d k e).left_self s)
                (sym (is_held-end_lease t k p.identifier pool)))
        inside e false i =
            ap (above (at t)) (
              (forget_permit-Left redis laws settings p d k e).left_other s m
                (λ q. ground (arith, q, i)))
            ∙ r.members s t k m u v
            ∙ sym (is_held-end_lease_other t k p.identifier m pool i)

        outside :
            is_in p k ≡ false
            → (b : Bool) → (p.identifier == m) ≡ b
            → is_held t k m pool ≡ is_held t k m (end_lease p.identifier pool)
        outside e true i =
            subst (λ n. is_held t k n pool ≡ is_held t k n (end_lease p.identifier pool))
              ((==_iff p.identifier m).0 i)
              (is_held-outside t k p pool own e ∙ sym (is_held-end_lease t k p.identifier pool))
        outside e false i = sym (is_held-end_lease_other t k p.identifier m pool i)

    ended-permits :
        (s m : ℕ)
        → now ≤ s
        → get s (permit m) (forget_permit redis settings p d)
          ≡ stored spelling s m (end_lease p.identifier pool)
    ended-permits s m u =
        forget_permit-get redis laws settings p d s m ∙ go (p.identifier == m) refl
      where
        go :
            (b : Bool)
            → (p.identifier == m) ≡ b
            → (if p.identifier == m then none else get s (permit m) d)
              ≡ stored spelling s m (end_lease p.identifier pool)
        go true i =
            rw (i, sym ((==_iff p.identifier m).0 i))
              (sym (stored-end_lease spelling s p.identifier pool))
        go false i =
            rw i (r.permits s m u ∙ sym (stored-end_lease_other spelling s p.identifier m pool i))

    pub forget_permit-Represents :
        Represents redis settings spelling now
          (forget_permit redis settings p d)
          (end_lease p.identifier pool)
    forget_permit-Represents = record {
      is_pool = end_lease-IsPool settings now p.identifier pool r.is_pool;
      counts = ended-counts;
      members = ended-members;
      permits = ended-permits;
    }
