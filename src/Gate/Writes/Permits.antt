-- ===== src/Gate/Writes/Permits.antt =====
-- What a permit that is recorded, and one that is forgotten, changes: `acquire` and `release` of
-- services/connection_gate.py.
use terraformer.Base.{
  ℕ, ◌+◌, ◌≤◌, ◌≡◌, ◌≢◌, refl, sym, ◌∙◌, ap, true, false, Option, none, some, List, [], ◌∷◌, arith,
  ltb, ◌==◌, ==_iff, if◌then◌else◌, any, All, subst, Bool-cases, inl, inr,
}
use terraformer.Gate.Leases.Keys.{same_key→eq, same_key-ne, outside}
use terraformer.Gate.{
  ConnectionOperation, connection_test, structured_read, structured_write, terminal,
  ConnectionTarget, ConnectionPermit, Settings, Spelling, ActiveKey, Key, active, permit,
  rate_limit, active_keys, permit_fingerprint,
}
use terraformer.Gate.Redis.{Redis, RedisLaws, SameAt, Cutoff, at, above, one_if}
use terraformer.Gate.Admit.{permit_ttl, note_attempt, record_permit, leave_sets, forget_permit}
use terraformer.Gate.Leases.{same_key, is_in}
use terraformer.Gate.Writes.{
  SameAt-refl, SameAt-trans, Entered, Entered-same, IsFresh, IsDistinct, enter_sets-other,
  enter_sets-outside, enter_sets-Entered, rate_limit-elsewhere,
}

module _ (redis : Redis) (laws : RedisLaws redis) (settings : Settings) where
  open redis use {Db, get, zcount, zscore, zrem, set, delete}

  active_keys-IsDistinct :
      (operation : ConnectionOperation) (target : ConnectionTarget)
      → IsDistinct redis laws settings (active_keys operation target)
  unfolding active_keys IsDistinct
  active_keys-IsDistinct operation target = go operation target.device_id
    where
      go :
          (o : ConnectionOperation) (device : Option ℕ)
          → IsDistinct redis laws settings (active_keys o (record target { device_id = device }))
      go connection_test none = (refl, tt)
      go connection_test (some device) = (refl, (refl, tt))
      go structured_read none = (refl, tt)
      go structured_read (some device) = (refl, (refl, tt))
      go structured_write none = (refl, tt)
      go structured_write (some device) = (refl, (refl, tt))
      go terminal none = (refl, tt)
      go terminal (some device) = (refl, (refl, (refl, (refl, tt))))

  apart : (m : ℕ) (ks : List ActiveKey) → All (λ k. active k ≢ permit m) ks
  apart m [] = tt
  apart m (k ∷ ks) = ((λ e. cc e), apart m ks)

  module _ (spelling : Spelling) (now : ℕ) (p : ConnectionPermit) (d : Db) where
    attempted : Db
    attempted =
        note_attempt redis settings now p.identifier (rate_limit settings p.operation p.target) d

    permitted : Db
    permitted =
        set now (permit p.identifier) (permit_fingerprint spelling p) (permit_ttl settings)
          attempted

    permitted-SameAt : (k : ActiveKey) → SameAt redis (active k) permitted d
    unfolding permitted attempted
    permitted-SameAt k =
        SameAt-trans redis (active k) _ _ d
          (laws.set_elsewhere now (permit p.identifier) (active k) _ _ _ (λ e. cc e))
          (rate_limit-elsewhere redis laws settings p.operation p.target (active k) now p.identifier
            d tt)

    pub record_permit-Entered :
        (k : ActiveKey)
        → is_in p k ≡ true
        → IsFresh redis laws settings now p.identifier k d
        → Entered redis laws settings now p.identifier k
            (record_permit redis settings spelling now p d)
            d
    unfolding record_permit is_in permitted attempted
    record_permit-Entered k h f =
        let s = permitted-SameAt k in
        Entered-same redis laws settings now p.identifier k _ _ _ d (SameAt-refl redis (active k) _)
          s
          (enter_sets-Entered redis laws settings now p.identifier k
            (active_keys p.operation p.target) permitted
            (active_keys-IsDistinct p.operation p.target) h
            (λ t q. ap (above (at t)) (s.same_score now p.identifier) ∙ f t q))

    pub record_permit-SameAt :
        (k : ActiveKey)
        → is_in p k ≡ false
        → SameAt redis (active k) (record_permit redis settings spelling now p d) d
    unfolding record_permit is_in permitted attempted
    record_permit-SameAt k h =
        SameAt-trans redis (active k) _ _ d
          (enter_sets-outside redis laws settings now p.identifier k _ permitted h)
          (permitted-SameAt k)

    pub record_permit-get :
        (t m : ℕ)
        → now ≤ t
        → get t (permit m) (record_permit redis settings spelling now p d) ≡ (
            if p.identifier == m
            then if ltb t (now + permit_ttl settings)
              then some (permit_fingerprint spelling p)
              else none
            else get t (permit m) d)
    unfolding record_permit permitted attempted
    record_permit-get t m h =
        (enter_sets-other redis laws settings now p.identifier (permit m)
            (active_keys p.operation p.target) permitted
            (apart m (active_keys p.operation p.target))).same_get
          t
        ∙ elim (Bool-cases (p.identifier == m)) [
          | inl e ↦ rw (e, (==_iff p.identifier m).0 e) (laws.get-set now t (permit m) _ _ _ h)
          | inr e ↦ rw e (
              (laws.set_elsewhere now (permit p.identifier) (permit m) _ _ _
                  (λ q. ground (arith, q, e))).same_get
                t
              ∙ (rate_limit-elsewhere redis laws settings p.operation p.target (permit m) now
                    p.identifier d tt).same_get
                  t)
        ]

  leave_sets-other :
      (m : ℕ) (x : Key) (ks : List ActiveKey) (d : Db)
      → All (λ k. active k ≢ x) ks
      → SameAt redis x (leave_sets redis settings m ks d) d
  unfolding leave_sets
  leave_sets-other m x [] d h = SameAt-refl redis x d
  leave_sets-other m x (k ∷ ks) d h =
      SameAt-trans redis x _ _ d (leave_sets-other m x ks _ h.1)
        (laws.zrem_elsewhere (active k) x m d h.0)

  -- A member that left a key: what is read from `e`, when it left `d`.
  pub record Left (m : ℕ) (k : ActiveKey) (e d : Db) : Type 0 where
    pub left_count :
        (t : ℕ) (c : Cutoff)
        → zcount t (active k) c e + one_if (above c (zscore t (active k) m d))
          ≡ zcount t (active k) c d
    pub left_self : (t : ℕ) → zscore t (active k) m e ≡ none
    pub left_other : (t n : ℕ) → m ≢ n → zscore t (active k) n e ≡ zscore t (active k) n d

  Left-same :
      (m : ℕ) (k : ActiveKey) (e' e d d' : Db)
      → SameAt redis (active k) e' e
      → SameAt redis (active k) d d'
      → Left m k e d
      → Left m k e' d'
  Left-same m k e' e d d' p q x = record {
    left_count = λ t c.
        rw (p.same_count t c, sym (q.same_score t m), sym (q.same_count t c)) (x.left_count t c);
    left_self = λ t. p.same_score t m ∙ x.left_self t;
    left_other = λ t n h. p.same_score t n ∙ x.left_other t n h ∙ q.same_score t n;
  }

  leave_sets-Left :
      (m : ℕ) (k : ActiveKey) (ks : List ActiveKey) (d : Db)
      → IsDistinct redis laws settings ks
      → any (same_key k) ks ≡ true
      → Left m k (leave_sets redis settings m ks d) d
  unfolding leave_sets IsDistinct
  leave_sets-Left m k [] d u h = cc h
  leave_sets-Left m k (j ∷ ks) d u h = elim (Bool-cases (same_key k j)) [
    | inl e ↦
        subst (λ i. Left m i (leave_sets redis settings m ks (zrem (active j) m d)) d)
          (sym (same_key→eq k j e))
          (Left-same m j _ _ d d (leave_sets-other m (active j) ks _ (outside j ks u.0))
            (SameAt-refl redis (active j) d)
            (record {
              left_count = λ t c. laws.zcount-zrem t (active j) m c d;
              left_self = λ t. laws.zscore-zrem t (active j) m d;
              left_other = λ t n q. laws.zscore-zrem_other t (active j) m n d q;
            }))
    | inr e ↦
        Left-same m k _ _ _ d (SameAt-refl redis (active k) _)
          (laws.zrem_elsewhere (active j) (active k) m d (same_key-ne k j e))
          (leave_sets-Left m k ks _ u.1 (ground (arith, h, e)))
  ]

  module _ (p : ConnectionPermit) (d : Db) where
    deleted-SameAt : (k : ActiveKey) → SameAt redis (active k) (delete (permit p.identifier) d) d
    deleted-SameAt k = laws.delete_elsewhere (permit p.identifier) (active k) d (λ e. cc e)

    pub forget_permit-Left :
        (k : ActiveKey)
        → is_in p k ≡ true
        → Left p.identifier k (forget_permit redis settings p d) d
    unfolding forget_permit is_in
    forget_permit-Left k h =
        Left-same p.identifier k _ _ _ d (SameAt-refl redis (active k) _) (deleted-SameAt k) (
          leave_sets-Left p.identifier k (active_keys p.operation p.target) _
            (active_keys-IsDistinct p.operation p.target) h)

    pub forget_permit-SameAt :
        (k : ActiveKey)
        → is_in p k ≡ false
        → SameAt redis (active k) (forget_permit redis settings p d) d
    unfolding forget_permit is_in
    forget_permit-SameAt k h =
        SameAt-trans redis (active k) _ _ d
          (leave_sets-other p.identifier (active k) (active_keys p.operation p.target) _
            (outside k _ h))
          (deleted-SameAt k)

    pub forget_permit-get :
        (t m : ℕ)
        → get t (permit m) (forget_permit redis settings p d)
          ≡ (if p.identifier == m then none else get t (permit m) d)
    unfolding forget_permit
    forget_permit-get t m =
        (leave_sets-other p.identifier (permit m) (active_keys p.operation p.target)
            (delete (permit p.identifier) d) (apart m (active_keys p.operation p.target))).same_get
          t
        ∙ elim (Bool-cases (p.identifier == m)) [
          | inl e ↦ rw (e, (==_iff p.identifier m).0 e) (laws.get-delete t (permit m) d)
          | inr e ↦ rw e (
              (laws.delete_elsewhere (permit p.identifier) (permit m) d
                  (λ q. ground (arith, q, e))).same_get
                t)
        ]
