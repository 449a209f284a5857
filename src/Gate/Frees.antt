-- ===== src/Gate/Frees.antt =====
-- Places come back in the gate of services/connection_gate.py: when leases end, and when a permit is
-- released.
use terraformer.Base.{
  ℕ, ◌+◌, ◌≤◌, ◌<◌, ◌≡◌, refl, sym, ◌∙◌, Bool, true, false, ◌&&◌, ◌||◌, none, some, List, [], ◌∷◌,
  arith, ltb, leb, any, subst, Bool-cases, All, if◌then◌else◌, inl, inr,
}
use terraformer.Text.Ends.{same_refl}
use terraformer.Gate.{
  ConnectionOperation, ConnectionTarget, ConnectionPermit, Settings, Spelling, ActiveKey,
  cooldown_key, rate_limit, active_keys, permit_fingerprint, global,
}
use terraformer.Gate.Redis.{Redis, RedisLaws}
use terraformer.Gate.Transaction.{commit}
use terraformer.Gate.Admit.{
  admit, answered, refusal, release_permit, record_permit, forget_permit, is_over_rate, permit_ttl,
  active_count, is_terminal_full, is_device_full,
}
use terraformer.Gate.Leases.{
  Lease, Pool, is_in, is_held, lease_of, stored, end_lease, limit_of, is_full, has_id, same_key,
}
use terraformer.Gate.Leases.Laws.{lease_count-over, lease_count-end_lease}
use terraformer.Gate.Refines.{Represents, Represents-later}
use terraformer.Gate.Refines.Ended.{IsOf, forget_permit-Represents}
use terraformer.Gate.Refines.Decides.{is_addressed, sets-full}
use terraformer.Gate.Reach.{Reach, Reach-Represents}

same_key_refl : (k : ActiveKey) → same_key k k ≡ true
same_key_refl k = ground arith

-- A test that fails in every set named fails in the list.
none-of :
    (f : ActiveKey → Bool) (ks : List ActiveKey)
    → ((k : ActiveKey) → any (same_key k) ks ≡ true → f k ≡ false)
    → any f ks ≡ false
none-of f [] h = refl
none-of f (k ∷ ks) h =
    rw (h k (rw (same_key_refl k) refl), none-of f ks (λ j e. h j (ground (arith, e)))) refl

stored-live :
    (spelling : Spelling) (now : ℕ) (p : ConnectionPermit) (pool : Pool) (l : Lease)
    → lease_of p.identifier pool ≡ some l
    → now < l.expiry
    → All (IsOf p) pool
    → stored spelling now p.identifier pool ≡ some (permit_fingerprint spelling p)
unfolding lease_of stored
stored-live spelling now p [] l f h own = cc f
stored-live spelling now p (x ∷ xs) l f h own = elim (Bool-cases (has_id p.identifier x)) [
  | inl e ↦
      let g : x ≡ l = ground (arith, f, e) in
      rw (e, own.0 e)
        (subst
          (λ (y : Lease).
            (if ltb now y.expiry then some (permit_fingerprint spelling p) else none)
            ≡ some (permit_fingerprint spelling p))
          (sym g) (ground arith))
  | inr e ↦ rw e (stored-live spelling now p xs l (ground (arith, f, e)) h own.1)
]

is_held-live :
    (now : ℕ) (k : ActiveKey) (p : ConnectionPermit) (pool : Pool) (l : Lease)
    → lease_of p.identifier pool ≡ some l
    → now < l.expiry
    → All (IsOf p) pool
    → is_in p k ≡ true
    → is_held now k p.identifier pool ≡ true
unfolding lease_of is_held
is_held-live now k p [] l f h own i = cc f
is_held-live now k p (x ∷ xs) l f h own i = elim (Bool-cases (has_id p.identifier x)) [
  | inl e ↦
      let g : x ≡ l = ground (arith, f, e) in
      rw (e, own.0 e, i)
        (subst (λ (y : Lease). (ltb now y.expiry && true) ≡ true) (sym g) (ground arith))
  | inr e ↦ rw e (is_held-live now k p xs l (ground (arith, f, e)) h own.1 i)
]

module _ (redis : Redis) (settings : Settings) where
  open redis use {Db, get}

  -- Nothing but the sets stands against a request on this target.
  pub record IsClear (now : ℕ) (operation : ConnectionOperation) (target : ConnectionTarget)
      (d : Db) : Type 0 where
    pub addressed : is_addressed operation target.device_id ≡ true
    pub no_cooldown : get now (cooldown_key target) d ≡ none
    pub under_rate :
        is_over_rate redis settings now (rate_limit settings operation target) d ≡ false

module _ (redis : Redis) (settings : Settings) (spelling : Spelling) where
  open redis use {Db}

  clear-admits :
      (now : ℕ) (p : ConnectionPermit) (d : Db) (pool : Pool)
      → Represents redis settings spelling now d pool
      → IsClear redis settings now p.operation p.target d
      → any (is_full settings now pool) (active_keys p.operation p.target) ≡ false
      → admit redis settings spelling p now d
        ≡ commit p (record_permit redis settings spelling now p)
  unfolding admit refusal answered
  clear-admits now p d pool r c h = rw (c.no_cooldown, c.under_rate, sets.0, sets.1, sets.2) refl
    where
      parts : (a b e : Bool) → (a || b || e) ≡ false → (a ≡ false) × (b ≡ false) × (e ≡ false)
      parts a b e q = ground arith

      sets :
          (leb settings.max_device_connections (active_count redis settings now global d) ≡ false)
          × (is_terminal_full redis settings now p.operation p.target.device_id d ≡ false)
          × (is_device_full redis settings now p.target.device_id d ≡ false)
      sets = parts _ _ _ (
          sym (
            sets-full redis settings spelling now p.operation p.target p.target.device_id d pool r
              c.addressed)
          ∙ h)

  module _ (laws : RedisLaws redis) where
    -- When the longest term has passed since any state that the calls reach, whatever was held then
    -- and never released, a request that its rate and cooldown allow is admitted, if every limit is at
    -- least one.
    pub recovers :
        (now later : ℕ) (p : ConnectionPermit) (d : Db) (pool : Pool)
        → Reach redis settings spelling now d pool
        → now + permit_ttl settings ≤ later
        → ((k : ActiveKey) → 0 < limit_of settings k)
        → IsClear redis settings later p.operation p.target d
        → admit redis settings spelling p later d
          ≡ commit p (record_permit redis settings spelling later p)
    recovers now later p d pool x h some_limit c =
        let (r, w) = Reach-Represents redis settings spelling laws now d pool x in
        clear-admits later p d pool
          (Represents-later redis settings spelling laws now later d pool (omega arith) r) c
          (none-of (is_full settings later pool) (active_keys p.operation p.target) (λ k e.
            ground (arith, lease_count-over settings now later k pool r.is_pool h, some_limit k)))

    -- A live permit that is released makes room: a request for the same operation on the same target
    -- is admitted next, if its rate and cooldown allow it, however full the sets were.
    pub release_makes_room :
        (now : ℕ) (p q : ConnectionPermit) (d : Db) (pool : Pool) (l : Lease)
        → Reach redis settings spelling now d pool
        → lease_of p.identifier pool ≡ some l
        → now < l.expiry
        → All (IsOf p) pool
        → q.operation ≡ p.operation
        → q.target ≡ p.target
        → IsClear redis settings now q.operation q.target (forget_permit redis settings p d)
        → (release_permit redis settings spelling p now d
            ≡ commit tt (forget_permit redis settings p))
          × (admit redis settings spelling q now (forget_permit redis settings p d)
              ≡ commit q (record_permit redis settings spelling now q))
    unfolding release_permit is_in active_keys
    release_makes_room now p q d pool l x f live own same_operation same_target c =
        let (r, w) = Reach-Represents redis settings spelling laws now d pool x in
        (
          rw
              (
                r.permits now p.identifier (omega arith),
                stored-live spelling now p pool l f live own,
                same_refl (permit_fingerprint spelling p),
              )
              refl,
          clear-admits now q (forget_permit redis settings p d) (end_lease p.identifier pool)
              (forget_permit-Represents redis settings spelling laws now p d pool r own) c
              (none-of (is_full settings now (end_lease p.identifier pool))
                (active_keys q.operation q.target)
                (λ k e. ground (
                  arith,
                  lease_count-end_lease settings now now k p.identifier pool r.is_pool,
                  is_held-live now k p pool l f live own
                      (rw (sym same_operation, sym same_target) e),
                  w now k,
                ))),
        )
