-- ===== src/Gate/Refines/Decides.antt =====
-- `admit` of services/connection_gate.py decides as the pool of leases does, beyond what the rate
-- limits and the cooldown refuse.
use terraformer.Base.{
  ℕ, ◌≡◌, refl, ap, Bool, true, false, ◌||◌, Option, none, some, ◌∷◌, arith, leb, if◌then◌else◌,
  any, inl, inr, ◌⊎◌,
}
use terraformer.Errors.{gate}
use terraformer.Errors.Admission.{
  GateError, device_connection_rate_limited, device_authentication_rate_limited,
  device_connection_limit_reached, terminal_session_limit_reached,
}
use terraformer.Gate.{
  ConnectionOperation, connection_test, structured_read, structured_write, terminal,
  ConnectionTarget, ConnectionPermit, Settings, Spelling, global, terminals, device_active,
  terminal_device, active_keys, rate_limit, cooldown_key,
}
use terraformer.Gate.Redis.{Redis, RedisLaws}
use terraformer.Gate.Admit.{
  admit, refusal, answered, active_count, is_terminal_full, is_device_full, is_over_rate, is_some,
}
use terraformer.Gate.Transaction.{Reply, refuse, commit}
use terraformer.Gate.Leases.{Pool, lease_of, lease_for, give_lease, is_full, limit_of}
use terraformer.Gate.Refines.{Represents, record_permit-Represents}

-- A terminal needs a device.
abbrev pub is_addressed : ConnectionOperation → Option ℕ → Bool
is_addressed terminal none = false
is_addressed terminal (some device) = true
is_addressed connection_test device = true
is_addressed structured_read device = true
is_addressed structured_write device = true

module _ (redis : Redis) (settings : Settings) (spelling : Spelling) where
  open redis use {Db, get}

  -- Refused for too many attempts or failures, or because a set is full; or admitted, and the pool
  -- has the lease.
  unfoldable pub Decides : ℕ → ConnectionPermit → Db → Pool → Reply Db ConnectionPermit → Type 0
  Decides now p d pool (refuse e) =
      (e ≡ gate device_authentication_rate_limited)
      ⊎ (e ≡ gate device_connection_rate_limited)
      ⊎ (give_lease settings now p pool ≡ none)
  Decides now p d pool (commit q writes) =
      (q ≡ p)
      × (give_lease settings now p pool ≡ some (lease_for settings now p ∷ pool))
      × Represents redis settings spelling now (writes d) (lease_for settings now p ∷ pool)

  -- The error that the checks give, and whether a set is full.
  Judges : Bool → Option GateError → Type 0
  Judges full none = full ≡ false
  Judges full (some e) =
      (e ≡ device_authentication_rate_limited)
      ⊎ (e ≡ device_connection_rate_limited)
      ⊎ (full ≡ true)

  chain-Judges :
      (cooldown rate global terminal device full : Bool)
      → full ≡ (global || terminal || device)
      → Judges full (
          if cooldown
          then some device_authentication_rate_limited
          else if rate
          then some device_connection_rate_limited
          else if global
          then some device_connection_limit_reached
          else if terminal
          then some terminal_session_limit_reached
          else if device
          then some device_connection_limit_reached
          else none)
  unfolding Judges
  chain-Judges true rate g t d full h = inl refl
  chain-Judges false true g t d full h = inr (inl refl)
  chain-Judges false false true t d full h = inr (inr (ground (arith, h)))
  chain-Judges false false false true d full h = inr (inr (ground (arith, h)))
  chain-Judges false false false false true full h = inr (inr (ground (arith, h)))
  chain-Judges false false false false false full h = h

  pub sets-full :
      (now : ℕ) (operation : ConnectionOperation) (target : ConnectionTarget) (device : Option ℕ)
      (d : Db) (pool : Pool)
      → Represents redis settings spelling now d pool
      → is_addressed operation device ≡ true
      → any
          (is_full settings now pool)
          (active_keys operation (record target { device_id = device }))
        ≡ (leb settings.max_device_connections (active_count redis settings now global d)
            || is_terminal_full redis settings now operation device d
            || is_device_full redis settings now device d)
  unfolding active_keys active_count is_terminal_full is_device_full limit_of
  sets-full now connection_test target none d pool r h =
      rw (r.counts now now global (omega arith) (omega arith)) (ground arith)
  sets-full now connection_test target (some x) d pool r h =
      rw
        (
          r.counts now now global (omega arith) (omega arith),
          r.counts now now (device_active x) (omega arith) (omega arith),
        )
        (ground arith)
  sets-full now structured_read target none d pool r h =
      rw (r.counts now now global (omega arith) (omega arith)) (ground arith)
  sets-full now structured_read target (some x) d pool r h =
      rw
        (
          r.counts now now global (omega arith) (omega arith),
          r.counts now now (device_active x) (omega arith) (omega arith),
        )
        (ground arith)
  sets-full now structured_write target none d pool r h =
      rw (r.counts now now global (omega arith) (omega arith)) (ground arith)
  sets-full now structured_write target (some x) d pool r h =
      rw
        (
          r.counts now now global (omega arith) (omega arith),
          r.counts now now (device_active x) (omega arith) (omega arith),
        )
        (ground arith)
  sets-full now terminal target none d pool r h = cc h
  sets-full now terminal target (some x) d pool r h =
      rw
        (
          r.counts now now global (omega arith) (omega arith),
          r.counts now now (device_active x) (omega arith) (omega arith),
          r.counts now now terminals (omega arith) (omega arith),
          r.counts now now (terminal_device x) (omega arith) (omega arith),
        )
        (ground arith)

  module _ (laws : RedisLaws redis) where
    refusal-Judges :
        (now : ℕ) (operation : ConnectionOperation) (target : ConnectionTarget) (d : Db)
        (pool : Pool)
        → Represents redis settings spelling now d pool
        → is_addressed operation target.device_id ≡ true
        → Judges
            (any (is_full settings now pool) (active_keys operation target))
            (refusal redis settings now operation target d)
    unfolding refusal
    refusal-Judges now operation target d pool r h =
        chain-Judges (is_some (get now (cooldown_key target) d))
          (is_over_rate redis settings now (rate_limit settings operation target) d) _ _ _ _
          (sets-full now operation target target.device_id d pool r h)

    -- Over a database that holds a pool, an addressed request is refused for its rate or a cooldown,
    -- or exactly as the pool refuses it, or it is admitted as the pool admits it, and then the
    -- database holds the pool with the new lease.
    pub admit-Decides :
        (now : ℕ) (p : ConnectionPermit) (d : Db) (pool : Pool)
        → Represents redis settings spelling now d pool
        → lease_of p.identifier pool ≡ none
        → is_addressed p.operation p.target.device_id ≡ true
        → Decides now p d pool (admit redis settings spelling p now d)
    unfolding admit Judges Decides give_lease
    admit-Decides now p d pool r f h =
        go (refusal redis settings now p.operation p.target d)
          (refusal-Judges now p.operation p.target d pool r h)
      where
        go :
            (e : Option GateError)
            → Judges (any (is_full settings now pool) (active_keys p.operation p.target)) e
            → Decides now p d pool (answered redis settings spelling now p e)
        go none j = (
          refl,
          rw j refl,
          record_permit-Represents redis settings spelling laws now p d pool r f,
        )
        go (some e) (inl j) = inl (ap gate j)
        go (some e) (inr (inl j)) = inr (inl (ap gate j))
        go (some e) (inr (inr j)) = inr (inr (rw j refl))
