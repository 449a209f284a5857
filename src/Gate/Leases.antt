-- ===== src/Gate/Leases.antt =====
-- What services/connection_gate.py promises, with no Redis in it: a pool of leases, which end by
-- themselves, and in which no set of live leases is above its limit.
pub mod Keys
pub mod Laws
use terraformer.Base.{
  ℕ, ◌+◌, ◌≤◌, ◌≡◌, Bool, true, false, ◌&&◌, Option, none, some, List, [], ◌∷◌, if◌then◌else◌, ltb,
  leb, ◌==◌, any,
}
use terraformer.Text.{Text}
use terraformer.Gate.{
  ConnectionPermit, Settings, Spelling, ActiveKey, global, terminals, device_active,
  terminal_device, active_keys, permit_fingerprint,
}
use terraformer.Gate.Redis.{one_if}
use terraformer.Gate.Admit.{is_text, permit_ttl}

pub record Lease : Type 0 where
  pub permit : ConnectionPermit
  pub expiry : ℕ

abbrev pub Pool : Type 0
Pool = List Lease

abbrev pub same_key : ActiveKey → ActiveKey → Bool
same_key global global = true
same_key terminals terminals = true
same_key (device_active a) (device_active b) = a == b
same_key (terminal_device a) (terminal_device b) = a == b
same_key _ _ = false

-- A permit is in the sets of its operation and target.
unfoldable pub is_in : ConnectionPermit → ActiveKey → Bool
is_in p k = any (same_key k) (active_keys p.operation p.target)

-- A lease counts in a set until it ends.
abbrev pub counts_in : ℕ → ActiveKey → Lease → Bool
counts_in t k l = ltb t l.expiry && is_in l.permit k

unfoldable pub lease_count : ℕ → ActiveKey → Pool → ℕ
lease_count t k [] = 0
lease_count t k (l ∷ ls) = one_if (counts_in t k l) + lease_count t k ls

abbrev pub has_id : ℕ → Lease → Bool
has_id m l = l.permit.identifier == m

-- The lease of this identifier counts in the set.
unfoldable pub is_held : ℕ → ActiveKey → ℕ → Pool → Bool
is_held t k m [] = false
is_held t k m (l ∷ ls) = if has_id m l then counts_in t k l else is_held t k m ls

unfoldable pub lease_of : ℕ → Pool → Option Lease
lease_of m [] = none
lease_of m (l ∷ ls) = if has_id m l then some l else lease_of m ls

unfoldable pub limit_of : Settings → ActiveKey → ℕ
limit_of settings global = settings.max_device_connections
limit_of settings terminals = settings.max_terminal_sessions
limit_of settings (device_active device) = settings.max_connections_per_device
limit_of settings (terminal_device device) = settings.max_terminal_sessions_per_device

abbrev pub is_full : Settings → ℕ → Pool → ActiveKey → Bool
is_full settings t pool k = leb (limit_of settings k) (lease_count t k pool)

abbrev pub lease_for : Settings → ℕ → ConnectionPermit → Lease
lease_for settings now p = record { permit = p; expiry = now + permit_ttl settings }

-- A permit is given unless one of its sets is full.
unfoldable pub give_lease : Settings → ℕ → ConnectionPermit → Pool → Option Pool
unfolding lease_count limit_of
give_lease settings now p pool =
    if any (is_full settings now pool) (active_keys p.operation p.target)
    then none
    else some (lease_for settings now p ∷ pool)

unfoldable pub end_lease : ℕ → Pool → Pool
end_lease m [] = []
end_lease m (l ∷ ls) = if has_id m l then end_lease m ls else l ∷ end_lease m ls

-- What is stored under a permit's key.
unfoldable pub stored : Spelling → ℕ → ℕ → Pool → Option Text
stored spelling t m [] = none
stored spelling t m (l ∷ ls) =
    if has_id m l
    then if ltb t l.expiry then some (permit_fingerprint spelling l.permit) else none
    else stored spelling t m ls

-- A permit gives back its lease while the lease lasts, and only if it is that lease's permit.
unfoldable pub take_back : Spelling → ℕ → ConnectionPermit → Pool → Pool
unfolding stored end_lease
take_back spelling now p pool =
    if is_text (permit_fingerprint spelling p) (stored spelling now p.identifier pool)
    then end_lease p.identifier pool
    else pool

-- No two leases have one identifier, and none ends later than a lease given now would.
unfoldable pub IsPool : Settings → ℕ → Pool → Type 0
IsPool settings now [] = Unit
IsPool settings now (l ∷ ls) =
    (lease_of l.permit.identifier ls ≡ none)
    × (l.expiry ≤ now + permit_ttl settings)
    × IsPool settings now ls

-- From now on no set of live leases is above its limit.
abbrev pub IsWithinLimits : Settings → ℕ → Pool → Type 0
IsWithinLimits settings now pool =
    (t : ℕ) (k : ActiveKey) → now ≤ t → lease_count t k pool ≤ limit_of settings k
