-- ===== src/Gate/Writes.antt =====
-- What the writes of the gate do to each key: services/connection_gate.py over the documented
-- behaviour of Redis.
pub mod Permits
use terraformer.Base.{
  ℕ, ◌+◌, ◌≤◌, ◌≡◌, ◌≢◌, refl, sym, ◌∙◌, ap, Bool, true, false, Option, none, some, List, [], ◌∷◌,
  arith, ltb, ◌==◌, if◌then◌else◌, any, All, subst, Bool-cases, inl, inr,
}
use terraformer.Text.{Text}
use terraformer.Gate.{
  ConnectionOperation, connection_test, structured_read, structured_write, terminal,
  ConnectionTarget, ConnectionPermit, Settings, Spelling, ActiveKey, Key, active, permit,
  connection_test_rate, terminal_rate, authentication_failures, authentication_cooldown, micros,
  rate_limit, active_keys, global, terminals, device_active, terminal_device, permit_fingerprint,
}
use terraformer.Gate.Redis.{Redis, RedisLaws, SameAt, Cutoff, at, above, kept, is_after, one_if}
use terraformer.Gate.Admit.{
  permit_ttl, note_attempt, rate_cutoff, enter_set, enter_sets, record_permit, leave_sets,
  forget_permit,
}
use terraformer.Gate.Leases.{same_key, is_in}
use terraformer.Gate.Leases.Keys.{same_key→eq, same_key-ne, outside}

-- The keys that hold permits: not those of rates, failures and cooldowns.
abbrev pub IsPermitKey : Key → Type 0
IsPermitKey (active k) = Unit
IsPermitKey (permit m) = Unit
IsPermitKey (connection_test_rate digest profile) = ⊥
IsPermitKey (terminal_rate device) = ⊥
IsPermitKey (authentication_failures digest profile) = ⊥
IsPermitKey (authentication_cooldown digest profile) = ⊥

module _ (redis : Redis) where
  open redis use {Db, get, zcount, zscore, zrem, zremrangebyscore, zadd, expire, set, delete}

  pub SameAt-refl : (k : Key) (d : Db) → SameAt redis k d d
  SameAt-refl k d = record {
    same_get = λ t. refl;
    same_count = λ t c. refl;
    same_score = λ t m. refl;
  }

  pub SameAt-trans :
      (k : Key) (d e f : Db) → SameAt redis k d e → SameAt redis k e f → SameAt redis k d f
  SameAt-trans k d e f p q = record {
    same_get = λ t. p.same_get t ∙ q.same_get t;
    same_count = λ t c. p.same_count t c ∙ q.same_count t c;
    same_score = λ t m. p.same_score t m ∙ q.same_score t m;
  }

  module _ (laws : RedisLaws redis) (settings : Settings) where
    -- A new member at a key: what is read from `e` at s, above t, when it was added to `d` at `now`.
    pub record Entered (now m : ℕ) (k : ActiveKey) (e d : Db) : Type 0 where
      pub entered_count :
          (s t : ℕ)
          → now ≤ s
          → s ≤ t
          → zcount s (active k) (at t) e ≡ (
              if ltb s (now + permit_ttl settings)
              then zcount now (active k) (at t) d + one_if (ltb t (now + permit_ttl settings))
              else 0)
      pub entered_self :
          (s : ℕ)
          → now ≤ s
          → zscore s (active k) m e
            ≡ (if ltb s (now + permit_ttl settings) then some (now + permit_ttl settings) else none)
      pub entered_other :
          (s n : ℕ)
          → now ≤ s
          → m ≢ n
          → zscore s (active k) n e ≡ (
              if ltb s (now + permit_ttl settings)
              then kept (at now) (zscore now (active k) n d)
              else none)

    -- The identifier is not in the set, or no longer.
    abbrev pub IsFresh : ℕ → ℕ → ActiveKey → Db → Type 0
    IsFresh now m k d = (t : ℕ) → now ≤ t → above (at t) (zscore now (active k) m d) ≡ false

    -- The three commands that put a member into a set leave every other key alone.
    pub put-elsewhere :
        (now : ℕ) (j x : Key) (c : Cutoff) (m score ttl : ℕ) (d : Db)
        → j ≢ x
        → SameAt redis x (expire now j ttl (zadd now j m score (zremrangebyscore now j c d))) d
    put-elsewhere now j x c m score ttl d h =
        SameAt-trans x _ _ d (laws.expire_elsewhere now j x ttl _ h) (
          SameAt-trans x _ _ d (laws.zadd_elsewhere now j x m score _ h)
            (laws.prune_elsewhere now j x c d h))

    enter_set-Entered :
        (now m : ℕ) (k : ActiveKey) (d : Db)
        → IsFresh now m k d
        → Entered now m k (enter_set redis settings now m k d) d
    unfolding enter_set
    enter_set-Entered now m k d fresh = record {
      entered_count = λ s t p q.
          let pruned = zremrangebyscore now (active k) (at now) d in
          ground (
            arith,
            laws.zcount-expire now s (active k) (at t) (permit_ttl settings)
                (zadd now (active k) m (now + permit_ttl settings) pruned) p,
            laws.zcount-zadd now (active k) m (now + permit_ttl settings) (at t) pruned,
            laws.zscore-prune now (active k) m (at now) d,
            laws.zcount-prune now (active k) (at now) (at t) d,
            fresh t,
          );
      entered_self = λ s p.
          laws.zscore-expire now s (active k) m (permit_ttl settings) _ p
          ∙ ap (λ (x : Option ℕ). if ltb s (now + permit_ttl settings) then x else none)
              (laws.zscore-zadd now (active k) m (now + permit_ttl settings) _);
      entered_other = λ s n p q.
          laws.zscore-expire now s (active k) n (permit_ttl settings) _ p
          ∙ ap (λ (x : Option ℕ). if ltb s (now + permit_ttl settings) then x else none)
              (laws.zscore-zadd_other now (active k) m n (now + permit_ttl settings) _ q
                ∙ laws.zscore-prune now (active k) n (at now) d);
    }

    -- Only what is read counts.
    Entered-same :
        (now m : ℕ) (k : ActiveKey) (e' e d d' : Db)
        → SameAt redis (active k) e' e
        → SameAt redis (active k) d d'
        → Entered now m k e d
        → Entered now m k e' d'
    Entered-same now m k e' e d d' p q x = record {
      entered_count = λ s t u v.
          p.same_count s (at t)
          ∙ x.entered_count s t u v
          ∙ ap
              (λ (c : ℕ).
                if ltb s (now + permit_ttl settings)
                then c + one_if (ltb t (now + permit_ttl settings))
                else 0)
              (q.same_count now (at t));
      entered_self = λ s u. p.same_score s m ∙ x.entered_self s u;
      entered_other = λ s n u v.
          p.same_score s n
          ∙ x.entered_other s n u v
          ∙ ap
              (λ (c : Option ℕ).
                if ltb s (now + permit_ttl settings) then kept (at now) c else none)
              (q.same_score now n);
    }

    -- No set is named twice.
    pub IsDistinct : List ActiveKey → Type 0
    IsDistinct [] = Unit
    IsDistinct (k ∷ ks) = (any (same_key k) ks ≡ false) × IsDistinct ks

    pub enter_sets-other :
        (now m : ℕ) (x : Key) (ks : List ActiveKey) (d : Db)
        → All (λ k. active k ≢ x) ks
        → SameAt redis x (enter_sets redis settings now m ks d) d
    unfolding enter_sets enter_set
    enter_sets-other now m x [] d h = SameAt-refl x d
    enter_sets-other now m x (k ∷ ks) d h =
        SameAt-trans x _ _ d (enter_sets-other now m x ks _ h.1)
          (put-elsewhere now (active k) x (at now) m _ _ d h.0)

    pub enter_sets-outside :
        (now m : ℕ) (k : ActiveKey) (ks : List ActiveKey) (d : Db)
        → any (same_key k) ks ≡ false
        → SameAt redis (active k) (enter_sets redis settings now m ks d) d
    enter_sets-outside now m k ks d h = enter_sets-other now m (active k) ks d (outside k ks h)

    pub enter_sets-Entered :
        (now m : ℕ) (k : ActiveKey) (ks : List ActiveKey) (d : Db)
        → IsDistinct ks
        → any (same_key k) ks ≡ true
        → IsFresh now m k d
        → Entered now m k (enter_sets redis settings now m ks d) d
    unfolding enter_sets IsDistinct
    enter_sets-Entered now m k [] d u h f = cc h
    enter_sets-Entered now m k (j ∷ ks) d u h f = elim (Bool-cases (same_key k j)) [
      | inl e ↦
          subst
            (λ i.
              Entered now m i
                (enter_sets redis settings now m ks (enter_set redis settings now m j d)) d)
            (sym (same_key→eq k j e))
            (Entered-same now m j _ _ d d (enter_sets-outside now m j ks _ u.0)
              (SameAt-refl (active j) d)
              (enter_set-Entered now m j d (subst (λ i. IsFresh now m i d) (same_key→eq k j e) f)))
      | inr e ↦
          let s =
            put-elsewhere now (active j) (active k) (at now) m (now + permit_ttl settings)
              (permit_ttl settings) d (same_key-ne k j e) in
          Entered-same now m k _ _ _ d (SameAt-refl (active k) _) s (
            enter_sets-Entered now m k ks _ u.1 (ground (arith, h, e))
              (λ t p. ap (above (at t)) (s.same_score now m) ∙ f t p))
    ]

    rate_limit-elsewhere :
        (operation : ConnectionOperation) (target : ConnectionTarget) (x : Key) (now m : ℕ) (d : Db)
        → IsPermitKey x
        → SameAt redis x
            (note_attempt redis settings now m (rate_limit settings operation target) d)
            d
    unfolding rate_limit note_attempt
    rate_limit-elsewhere connection_test target x now m d h =
        put-elsewhere now _ x _ m now _ d (λ e. subst IsPermitKey (sym e) h)
    rate_limit-elsewhere structured_read target x now m d h = SameAt-refl x d
    rate_limit-elsewhere structured_write target x now m d h = SameAt-refl x d
    rate_limit-elsewhere terminal target x now m d h = go target.device_id
      where
        go :
            (o : Option ℕ)
            → SameAt redis x
                (note_attempt redis settings now m
                  (elim o [
                    | some device ↦ some (terminal_rate device, settings.terminal_open_rate_limit)
                    | none ↦ none
                  ])
                  d)
                d
        go none = SameAt-refl x d
        go (some device) = put-elsewhere now _ x _ m now _ d (λ e. subst IsPermitKey (sym e) h)
