-- ===== src/Gate/Leases/Laws.antt =====
-- Pools of leases: what holds of a pool when a lease is given, ends, or is given back.
use terraformer.Base.{
  ℕ, ◌+◌, ◌≤◌, ◌≡◌, refl, false, none, [], ◌∷◌, arith, ◌==◌, Bool-cases, inl, inr,
}
use terraformer.Gate.{Settings, Spelling, ActiveKey}
use terraformer.Gate.Redis.{one_if}
use terraformer.Gate.Admit.{permit_ttl}
use terraformer.Gate.Leases.{
  Pool, has_id, lease_count, is_held, lease_of, end_lease, stored, IsPool,
}

module _ (settings : Settings) where
  pub IsPool-later :
      (now later : ℕ) (pool : Pool)
      → now ≤ later
      → IsPool settings now pool
      → IsPool settings later pool
  unfolding IsPool
  IsPool-later now later [] h p = tt
  IsPool-later now later (l ∷ ls) h p = (p.0, omega arith, IsPool-later now later ls h p.2)

  -- After the longest term no lease is left.
  pub lease_count-over :
      (now t : ℕ) (k : ActiveKey) (pool : Pool)
      → IsPool settings now pool
      → now + permit_ttl settings ≤ t
      → lease_count t k pool ≡ 0
  unfolding IsPool lease_count
  lease_count-over now t k [] p h = refl
  lease_count-over now t k (l ∷ ls) p h = ground (arith, lease_count-over now t k ls p.2 h)

  pub is_held-over :
      (now t : ℕ) (k : ActiveKey) (m : ℕ) (pool : Pool)
      → IsPool settings now pool
      → now + permit_ttl settings ≤ t
      → is_held t k m pool ≡ false
  unfolding IsPool is_held
  is_held-over now t k m [] p h = refl
  is_held-over now t k m (l ∷ ls) p h = ground (arith, is_held-over now t k m ls p.2 h)

pub is_held-fresh :
    (t : ℕ) (k : ActiveKey) (m : ℕ) (pool : Pool)
    → lease_of m pool ≡ none
    → is_held t k m pool ≡ false
unfolding lease_of is_held
is_held-fresh t k m [] h = refl
is_held-fresh t k m (l ∷ ls) h = ground (arith, is_held-fresh t k m ls)

pub stored-fresh :
    (spelling : Spelling) (t m : ℕ) (pool : Pool)
    → lease_of m pool ≡ none
    → stored spelling t m pool ≡ none
unfolding lease_of stored
stored-fresh spelling t m [] h = refl
stored-fresh spelling t m (l ∷ ls) h = ground (arith, stored-fresh spelling t m ls)

pub end_lease-fresh : (m : ℕ) (pool : Pool) → lease_of m pool ≡ none → end_lease m pool ≡ pool
unfolding lease_of end_lease
end_lease-fresh m [] h = refl
end_lease-fresh m (l ∷ ls) h = ground (arith, end_lease-fresh m ls)

pub lease_of-end_lease :
    (m n : ℕ) (pool : Pool) → lease_of n pool ≡ none → lease_of n (end_lease m pool) ≡ none
unfolding lease_of end_lease
lease_of-end_lease m n [] h = refl
lease_of-end_lease m n (l ∷ ls) h = ground (arith, lease_of-end_lease m n ls)

pub is_held-end_lease :
    (t : ℕ) (k : ActiveKey) (m : ℕ) (pool : Pool) → is_held t k m (end_lease m pool) ≡ false
unfolding is_held end_lease
is_held-end_lease t k m [] = refl
is_held-end_lease t k m (l ∷ ls) = ground (arith, is_held-end_lease t k m ls)

pub is_held-end_lease_other :
    (t : ℕ) (k : ActiveKey) (m n : ℕ) (pool : Pool)
    → (m == n) ≡ false
    → is_held t k n (end_lease m pool) ≡ is_held t k n pool
unfolding is_held end_lease
is_held-end_lease_other t k m n [] h = refl
is_held-end_lease_other t k m n (l ∷ ls) h = ground (arith, is_held-end_lease_other t k m n ls h)

pub stored-end_lease :
    (spelling : Spelling) (t m : ℕ) (pool : Pool) → stored spelling t m (end_lease m pool) ≡ none
unfolding stored end_lease
stored-end_lease spelling t m [] = refl
stored-end_lease spelling t m (l ∷ ls) = ground (arith, stored-end_lease spelling t m ls)

pub stored-end_lease_other :
    (spelling : Spelling) (t m n : ℕ) (pool : Pool)
    → (m == n) ≡ false
    → stored spelling t n (end_lease m pool) ≡ stored spelling t n pool
unfolding stored end_lease
stored-end_lease_other spelling t m n [] h = refl
stored-end_lease_other spelling t m n (l ∷ ls) h =
    ground (arith, stored-end_lease_other spelling t m n ls h)

module _ (settings : Settings) where
  pub end_lease-IsPool :
      (now m : ℕ) (pool : Pool) → IsPool settings now pool → IsPool settings now (end_lease m pool)
  unfolding IsPool end_lease
  end_lease-IsPool now m [] p = tt
  end_lease-IsPool now m (l ∷ ls) p = elim (Bool-cases (has_id m l)) [
    | inl e ↦ rw e (end_lease-IsPool now m ls p.2)
    | inr e ↦
        rw e (lease_of-end_lease m l.permit.identifier ls p.0, p.1, end_lease-IsPool now m ls p.2)
  ]

  -- Ending a lease takes one from each set in which it counts.
  pub lease_count-end_lease :
      (now t : ℕ) (k : ActiveKey) (m : ℕ) (pool : Pool)
      → IsPool settings now pool
      → lease_count t k (end_lease m pool) + one_if (is_held t k m pool) ≡ lease_count t k pool
  unfolding IsPool end_lease is_held lease_count
  lease_count-end_lease now t k m [] p = refl
  lease_count-end_lease now t k m (l ∷ ls) p = elim (Bool-cases (has_id m l)) [
    | inl e ↦
        let f : lease_of m ls ≡ none = ground (arith, p.0) in
        rw (e, end_lease-fresh m ls f) (omega arith)
    | inr e ↦ rw e (omega (arith, lease_count-end_lease now t k m ls p.2))
  ]
