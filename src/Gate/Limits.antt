-- ===== src/Gate/Limits.antt =====
-- A pool of leases (Gate/Leases.antt) stays within its limits.
use terraformer.Base.{
  ℕ, ◌≤◌, ◌≡◌, Bool, true, false, ◌&&◌, some, List, [], ◌∷◌, arith, ltb, any, Bool-cases, inl, inr,
}
use terraformer.Gate.Leases.Keys.{same_key→eq}
use terraformer.Gate.{
  ConnectionPermit, Settings, Spelling, ActiveKey, active_keys, permit_fingerprint,
}
use terraformer.Gate.Redis.{one_if}
use terraformer.Gate.Admit.{is_text}
use terraformer.Gate.Leases.{
  Pool, lease_count, lease_for, give_lease, take_back, IsPool, is_full, is_in, same_key,
  IsWithinLimits, stored,
}
use terraformer.Gate.Leases.Laws.{lease_count-end_lease}

-- Leases only end as time passes.
pub lease_count-later :
    (t later : ℕ) (k : ActiveKey) (pool : Pool)
    → t ≤ later
    → lease_count later k pool ≤ lease_count t k pool
unfolding lease_count
lease_count-later t later k [] h = omega arith
lease_count-later t later k (l ∷ ls) h =
    omega (arith, lease_count-later t later k ls h, one t later (is_in l.permit k) l.expiry h)
  where
    one :
        (t later : ℕ) (b : Bool) (e : ℕ)
        → t ≤ later
        → one_if (ltb later e && b) ≤ one_if (ltb t e && b)
    one t later b e h = ground arith

module _ (settings : Settings) where
  not-full :
      (now : ℕ) (pool : Pool) (k : ActiveKey) (ks : List ActiveKey)
      → any (is_full settings now pool) ks ≡ false
      → any (same_key k) ks ≡ true
      → is_full settings now pool k ≡ false
  not-full now pool k [] h e = cc e
  not-full now pool k (j ∷ ks) h e = elim (Bool-cases (same_key k j)) [
    | inl q ↦ rw (same_key→eq k j q) (ground (arith, h))
    | inr q ↦ not-full now pool k ks (ground (arith, h)) (ground (arith, e, q))
  ]

  give_lease-new :
      (now : ℕ) (p : ConnectionPermit) (pool new : Pool)
      → give_lease settings now p pool ≡ some new
      → (any (is_full settings now pool) (active_keys p.operation p.target) ≡ false)
        × (new ≡ lease_for settings now p ∷ pool)
  unfolding give_lease
  give_lease-new now p pool new h =
      elim (Bool-cases (any (is_full settings now pool) (active_keys p.operation p.target))) [
        | inl e ↦ cc (h, e)
        | inr e ↦ (e, ground (arith, h, e))
      ]

  -- A lease that the pool gives leaves every set within its limit.
  pub give_lease-IsWithinLimits :
      (now : ℕ) (p : ConnectionPermit) (pool new : Pool)
      → IsWithinLimits settings now pool
      → give_lease settings now p pool ≡ some new
      → IsWithinLimits settings now new
  unfolding lease_count is_in
  give_lease-IsWithinLimits now p pool new w h t k u =
      let g = give_lease-new now p pool new h in
      rw g.1 (elim (Bool-cases (is_in p k)) [
        | inl e ↦ ground (
          arith,
          e,
          not-full now pool k (active_keys p.operation p.target) g.0 e,
          lease_count-later now t k pool u,
        )
        | inr e ↦ ground (arith, e, w t k u)
      ])

  pub take_back-IsWithinLimits :
      (spelling : Spelling) (now : ℕ) (p : ConnectionPermit) (pool : Pool)
      → IsPool settings now pool
      → IsWithinLimits settings now pool
      → IsWithinLimits settings now (take_back spelling now p pool)
  unfolding take_back
  take_back-IsWithinLimits spelling now p pool i w t k u =
      elim (Bool-cases
        (is_text (permit_fingerprint spelling p) (stored spelling now p.identifier pool))) [
          | inl e ↦
              rw e
                (omega (arith, lease_count-end_lease settings now t k p.identifier pool i, w t k u))
          | inr e ↦ rw e (w t k u)
        ]
