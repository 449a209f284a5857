-- ===== src/Gate/Reach.antt =====
-- The states that the calls of services/connection_gate.py reach, and that none is above a limit.
use terraformer.Base.{
  ℕ, ◌≤◌, ◌≡◌, sym, ◌∙◌, ap, Bool, true, false, none, [], ◌∷◌, arith, subst, All, if◌then◌else◌,
}
use terraformer.Text.{codes}
use terraformer.Gate.{
  ConnectionTarget, ConnectionPermit, Settings, Spelling, micros, ActiveKey, Key, active, permit,
  failures_key, cooldown_key, permit_fingerprint,
}
use terraformer.Gate.Redis.{Redis, RedisLaws, SameAt, at, above}
use terraformer.Gate.Transaction.{Reply, commit}
use terraformer.Gate.Admit.{
  admit, release_permit, record_failure, note_failure, forget_permit, is_text, active_count,
}
use terraformer.Gate.Leases.{
  Pool, lease_count, lease_of, lease_for, take_back, end_lease, limit_of, IsWithinLimits,
}
use terraformer.Gate.Writes.{put-elsewhere, IsPermitKey}
use terraformer.Gate.Limits.{give_lease-IsWithinLimits, take_back-IsWithinLimits}
use terraformer.Gate.Refines.{Represents, Represents-later}
use terraformer.Gate.Refines.Ended.{IsOf, forget_permit-Represents}
use terraformer.Gate.Refines.Decides.{Decides, admit-Decides, is_addressed}

module _ (redis : Redis) (settings : Settings) (spelling : Spelling) where
  open redis use {Db, get, zcount, zscore, set, delete}

  -- The gate's calls as they take effect, one after the other, with the leases that they leave: an
  -- empty database at first; time passes; a request with a new identifier is admitted; a permit,
  -- which is of its lease if there is one, is released; an authentication fails or succeeds.
  pub data Reach : ℕ → Db → Pool → Type 0 where
    start : {now : ℕ} {d : Db} → Represents redis settings spelling now d [] → Reach now d []
    waits :
        {now later : ℕ} {d : Db} {pool : Pool} → now ≤ later → Reach now d pool → Reach later d pool
    admits :
        {now : ℕ} {d : Db} {pool : Pool} {q : ConnectionPermit} {writes : Db → Db}
        (p : ConnectionPermit)
        → lease_of p.identifier pool ≡ none
        → is_addressed p.operation p.target.device_id ≡ true
        → admit redis settings spelling p now d ≡ commit q writes
        → Reach now d pool
        → Reach now (writes d) (lease_for settings now p ∷ pool)
    releases :
        {now : ℕ} {d : Db} {pool : Pool} {writes : Db → Db} (p : ConnectionPermit)
        → All (IsOf p) pool
        → release_permit redis settings spelling p now d ≡ commit tt writes
        → Reach now d pool
        → Reach now (writes d) (take_back spelling now p pool)
    fails :
        {now : ℕ} {d : Db} {pool : Pool} {writes : Db → Db} (target : ConnectionTarget)
        (identifier : ℕ)
        → record_failure redis settings target identifier now d ≡ commit tt writes
        → Reach now d pool
        → Reach now (writes d) pool
    succeeds :
        {now : ℕ} {d : Db} {pool : Pool} (target : ConnectionTarget)
        → Reach now d pool
        → Reach now (delete (failures_key target) d) pool

  module _ (laws : RedisLaws redis) where
    -- What holds no permit may change.
    elsewhere-Represents :
        (now : ℕ) (e d : Db) (pool : Pool)
        → ((x : Key) → IsPermitKey x → SameAt redis x e d)
        → Represents redis settings spelling now d pool
        → Represents redis settings spelling now e pool
    elsewhere-Represents now e d pool h r = record {
      is_pool = r.is_pool;
      counts = λ s t k u v. (h (active k) tt).same_count s (at t) ∙ r.counts s t k u v;
      members = λ s t k m u v.
          ap (above (at t)) ((h (active k) tt).same_score s m) ∙ r.members s t k m u v;
      permits = λ s m u. (h (permit m) tt).same_get s ∙ r.permits s m u;
    }

    commit-writes :
        {A : Type 0} {a b : A} {f g : Db → Db}
        → ◌≡◌ {A = Reply Db A} (commit a f) (commit b g)
        → f ≡ g
    commit-writes h = cc h

    note_failure-SameAt :
        (now m : ℕ) (target : ConnectionTarget) (d : Db) (x : Key)
        → IsPermitKey x
        → SameAt redis x (note_failure redis settings target now m d) d
    unfolding note_failure
    note_failure-SameAt now m target d x h =
        put-elsewhere redis laws settings now _ x _ m now _ d (λ e. subst IsPermitKey (sym e) h)

    failed-Represents :
        (now m : ℕ) (target : ConnectionTarget) (d : Db) (pool : Pool) (writes : Db → Db)
        → record_failure redis settings target m now d ≡ commit tt writes
        → Represents redis settings spelling now d pool
        → Represents redis settings spelling now (writes d) pool
    unfolding record_failure
    failed-Represents now m target d pool writes h r = go _ h
      where
        noted :
            Represents redis settings spelling now (note_failure redis settings target now m d) pool
        noted = elsewhere-Represents now _ d pool (note_failure-SameAt now m target d) r

        go :
            (b : Bool)
            → ◌≡◌ {A = Reply Db (Unit {0})}
                (if b
                  then commit tt (λ e.
                    set now
                      (cooldown_key target)
                      (codes "1")
                      (micros settings.authentication_cooldown_seconds)
                      (note_failure redis settings target now m e))
                  else commit tt (note_failure redis settings target now m))
                (commit tt writes)
            → Represents redis settings spelling now (writes d) pool
        go true q =
            subst (λ (w : Db → Db). Represents redis settings spelling now (w d) pool)
              (commit-writes q)
              (elsewhere-Represents now _ _ pool
                (λ x p.
                  laws.set_elsewhere now (cooldown_key target) x _ _ _
                    (λ e. subst IsPermitKey (sym e) p))
                noted)
        go false q =
            subst (λ (w : Db → Db). Represents redis settings spelling now (w d) pool)
              (commit-writes q) noted

    released-Represents :
        (now : ℕ) (p : ConnectionPermit) (d : Db) (pool : Pool) (writes : Db → Db)
        → All (IsOf p) pool
        → release_permit redis settings spelling p now d ≡ commit tt writes
        → Represents redis settings spelling now d pool
        → Represents redis settings spelling now (writes d) (take_back spelling now p pool)
    unfolding release_permit take_back
    released-Represents now p d pool writes own h r =
        rw (sym (r.permits now p.identifier (omega arith)))
          (go (is_text (permit_fingerprint spelling p) (get now (permit p.identifier) d)) h)
      where
        go :
            (b : Bool)
            → ◌≡◌ {A = Reply Db (Unit {0})}
                (if b then commit tt (forget_permit redis settings p) else commit tt (λ e. e))
                (commit tt writes)
            → Represents redis settings spelling now
                (writes d)
                (if b then end_lease p.identifier pool else pool)
        go true q =
            subst
              (λ (w : Db → Db).
                Represents redis settings spelling now (w d) (end_lease p.identifier pool))
              (commit-writes q)
              (forget_permit-Represents redis settings spelling laws now p d pool r own)
        go false q =
            subst (λ (w : Db → Db). Represents redis settings spelling now (w d) pool)
              (commit-writes q) r

    -- In every state that the calls reach, the database holds exactly the leases that were given and
    -- not given back, and no set of live permits is above its limit.
    pub Reach-Represents :
        (now : ℕ) (d : Db) (pool : Pool)
        → Reach now d pool
        → Represents redis settings spelling now d pool × IsWithinLimits settings now pool
    unfolding lease_count Decides
    Reach-Represents now d pool (start r) = (r, λ t k u. omega arith)
    Reach-Represents now d pool (waits {now = before} h x) =
        let (r, w) = Reach-Represents before d pool x in
        (
          Represents-later redis settings spelling laws before now d pool h r,
          λ t k u. w t k (omega arith),
        )
    Reach-Represents now d pool (admits {d = old} {pool = leases} {q} {writes} p f a h x) =
        let (r, w) = Reach-Represents now old leases x in
        let (e, g, s) =
          subst (Decides redis settings spelling now p old leases) h
            (admit-Decides redis settings spelling laws now p old leases r f a) in
        (s, give_lease-IsWithinLimits settings now p leases _ w g)
    Reach-Represents now d pool (releases {d = old} {pool = leases} {writes} p own h x) =
        let (r, w) = Reach-Represents now old leases x in
        (
          released-Represents now p old leases writes own h r,
          take_back-IsWithinLimits settings spelling now p leases r.is_pool w,
        )
    Reach-Represents now d pool (fails {d = old} {writes} target m h x) =
        let (r, w) = Reach-Represents now old pool x in
        (failed-Represents now m target old pool writes h r, w)
    Reach-Represents now d pool (succeeds {d = old} target x) =
        let (r, w) = Reach-Represents now old pool x in
        (
          elsewhere-Represents now _ old pool
              (λ y p.
                laws.delete_elsewhere (failures_key target) y old
                  (λ e. subst IsPermitKey (sym e) p))
              r,
          w,
        )

    -- No number of live permits that the gate counts is above its setting, in every state that the
    -- calls reach: in all, of one device, of terminals, of terminals of one device.
    pub Reach-bounded :
        (now : ℕ) (d : Db) (pool : Pool)
        → Reach now d pool
        → (k : ActiveKey) → active_count redis settings now k d ≤ limit_of settings k
    unfolding active_count
    Reach-bounded now d pool x k =
        let (r, w) = Reach-Represents now d pool x in
        omega (arith, r.counts now now k (omega arith) (omega arith), w now k (omega arith))
