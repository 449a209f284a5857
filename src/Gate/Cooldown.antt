-- ===== src/Gate/Cooldown.antt =====
-- Failed authentications in services/connection_gate.py: how many start the cooldown, and what the
-- cooldown refuses.
use terraformer.Base.{
  ℕ, suc, ◌+◌, ◌≤◌, ◌<◌, ◌≡◌, refl, sym, ◌∙◌, Bool, true, false, Option, none, some, arith, leb,
  subst, if◌then◌else◌,
}
use terraformer.Text.{codes}
use terraformer.Errors.{gate}
use terraformer.Errors.Admission.{device_authentication_rate_limited}
use terraformer.Gate.{
  ConnectionTarget, ConnectionPermit, Settings, Spelling, Key, failures_key, cooldown_key, micros,
}
use terraformer.Gate.Redis.{Redis, RedisLaws, SameAt, Cutoff, above, kept}
use terraformer.Gate.Transaction.{Reply, refuse, commit}
use terraformer.Gate.Admit.{admit, answered, refusal, record_failure, note_failure, failure_cutoff}

above-kept : (c e : Cutoff) (o : Option ℕ) → above c o ≡ false → above c (kept e o) ≡ false
above-kept c e none h = refl
above-kept c e (some x) h = ground (arith, h)

module _ (redis : Redis) (settings : Settings) where
  open redis use {Db, get, set, zcount, zscore, zadd, expire, zremrangebyscore}

  abbrev pub window : ℕ
  window = micros settings.authentication_failure_window_seconds

  abbrev pub cooldown_term : ℕ
  cooldown_term = micros settings.authentication_cooldown_seconds

  -- Failures of one target since `first`, with new identifiers and in the window of the first, each
  -- recorded; between them, anything that leaves the set of failures alone.
  pub data Burst (target : ConnectionTarget) (first : ℕ) : ℕ → ℕ → Db → Type 0 where
    quiet : {d : Db} → Burst target first 0 first d
    aside :
        {n now later : ℕ} {d e : Db}
        → now ≤ later
        → SameAt redis (failures_key target) e d
        → Burst target first n now d
        → Burst target first n later e
    failed :
        {n now : ℕ} {d : Db} {writes : Db → Db} (identifier : ℕ)
        → ((c : Cutoff) → above c (zscore now (failures_key target) identifier d) ≡ false)
        → now < first + window
        → record_failure redis settings target identifier now d ≡ commit tt writes
        → Burst target first n now d
        → Burst target first (suc n) now (writes d)

  module _ (laws : RedisLaws redis) (target : ConnectionTarget) where
    abbrev Counted : ℕ → ℕ → ℕ → Db → Type 0
    Counted first n now d =
        (s u : ℕ)
        → now ≤ s
        → s ≤ u
        → u < first + window
        → n ≤ zcount s (failures_key target) (failure_cutoff redis settings u) d

    noted-Counted :
        (first n now m : ℕ) (d : Db)
        → first ≤ now
        → ((c : Cutoff) → above c (zscore now (failures_key target) m d) ≡ false)
        → Counted first n now d
        → Counted first (suc n) now (note_failure redis settings target now m d)
    unfolding note_failure
    noted-Counted first n now m d f fresh h s u p q l =
        let pruned =
          zremrangebyscore now (failures_key target) (failure_cutoff redis settings now) d in
        ground (
          arith,
          laws.zcount-expire now s (failures_key target) (failure_cutoff redis settings u) window
              (zadd now (failures_key target) m now pruned) p,
          laws.zcount-zadd now (failures_key target) m now (failure_cutoff redis settings u) pruned,
          laws.zscore-prune now (failures_key target) m (failure_cutoff redis settings now) d,
          above-kept (failure_cutoff redis settings u) (failure_cutoff redis settings now)
              (zscore now (failures_key target) m d) (fresh (failure_cutoff redis settings u)),
          laws.zcount-prune now (failures_key target) (failure_cutoff redis settings now)
              (failure_cutoff redis settings u) d,
          h now u,
        )

    commit-writes :
        {A : Type 0} {a b : A} {f g : Db → Db}
        → ◌≡◌ {A = Reply Db A} (commit a f) (commit b g)
        → f ≡ g
    commit-writes h = cc h

    -- The cooldown's key is not that of the failures.
    failed-Counted :
        (first n now m : ℕ) (d : Db) (writes : Db → Db)
        → first ≤ now
        → ((c : Cutoff) → above c (zscore now (failures_key target) m d) ≡ false)
        → record_failure redis settings target m now d ≡ commit tt writes
        → Counted first n now d
        → Counted first (suc n) now (writes d)
    unfolding record_failure
    failed-Counted first n now m d writes f fresh e h = go _ e
      where
        noted : Counted first (suc n) now (note_failure redis settings target now m d)
        noted = noted-Counted first n now m d f fresh h

        go :
            (b : Bool)
            → ◌≡◌ {A = Reply Db (Unit {0})}
                (if b
                  then commit tt (λ e.
                    set now
                      (cooldown_key target)
                      (codes "1")
                      cooldown_term
                      (note_failure redis settings target now m e))
                  else commit tt (note_failure redis settings target now m))
                (commit tt writes)
            → Counted first (suc n) now (writes d)
        go true q =
            subst (λ (w : Db → Db). Counted first (suc n) now (w d)) (commit-writes q)
              (λ s u a b l.
                subst (λ x. suc n ≤ x)
                  (sym (
                    (laws.set_elsewhere now (cooldown_key target) (failures_key target) (codes "1")
                        cooldown_term (note_failure redis settings target now m d)
                        (λ e. cc e)).same_count
                      s (failure_cutoff redis settings u)))
                  (noted s u a b l))
        go false q =
            subst (λ (w : Db → Db). Counted first (suc n) now (w d)) (commit-writes q) noted

    Burst-later : (first n now : ℕ) (d : Db) → Burst target first n now d → first ≤ now
    Burst-later first n now d quiet = omega arith
    Burst-later first n now d (aside {now = before} {d = old} h e b) =
        omega (arith, Burst-later first n before old b)
    Burst-later first n now d (failed {n = k} {d = old} m f l e b) = Burst-later first k now old b

    Burst-Counted : (first n now : ℕ) (d : Db) → Burst target first n now d → Counted first n now d
    Burst-Counted first n now d quiet = λ s u p q l. omega arith
    Burst-Counted first n now d (aside {now = before} {d = old} h e b) = λ s u p q l.
        subst (λ x. n ≤ x) (sym (e.same_count s (failure_cutoff redis settings u)))
          (Burst-Counted first n before old b s u (omega arith) q l)
    Burst-Counted first n now d (failed {n = k} {d = old} {writes} m f l e b) =
        failed-Counted first k now m old writes (Burst-later first k now old b) f e
          (Burst-Counted first k now old b)

    -- The failure that makes the limit, all within the window of the first, locks the target out: on
    -- the database as it is right after that failure, every request on the target, for any operation
    -- and device, is refused until the cooldown's term has passed.
    pub failures_lock_out :
        (spelling : Spelling) (first n now later m : ℕ) (p : ConnectionPermit) (d : Db)
        (writes : Db → Db)
        → Burst target first n now d
        → settings.authentication_failure_limit ≤ suc n
        → now < first + window
        → record_failure redis settings target m now d ≡ commit tt writes
        → cooldown_key p.target ≡ cooldown_key target
        → now ≤ later
        → later < now + cooldown_term
        → admit redis settings spelling p later (writes d)
          ≡ refuse (gate device_authentication_rate_limited)
    unfolding record_failure admit refusal answered
    failures_lock_out spelling first n now later m p d writes b limit l e same u v =
        subst
          (λ (w : Db → Db).
            admit redis settings spelling p later (w d)
            ≡ refuse (gate device_authentication_rate_limited))
          (commit-writes (sym started ∙ e)) (rw held refl)
      where
        locking : Db → Db
        locking x =
            set now (cooldown_key target) (codes "1") cooldown_term
              (note_failure redis settings target now m x)

        enough :
            leb settings.authentication_failure_limit
              (zcount now (failures_key target) (failure_cutoff redis settings now) d + 1)
            ≡ true
        enough =
            let c = Burst-Counted first n now d b now now (omega arith) (omega arith) l in
            ground (arith, c)

        started : record_failure redis settings target m now d ≡ commit tt locking
        started = rw enough refl

        held : get later (cooldown_key p.target) (locking d) ≡ some (codes "1")
        held =
            subst (λ (k : Key). get later k (locking d) ≡ some (codes "1")) (sym same)
              (laws.get-set now later (cooldown_key target) (codes "1") cooldown_term _ u
                ∙ ground arith)
