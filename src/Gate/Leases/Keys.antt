-- ===== src/Gate/Leases/Keys.antt =====
-- The sets of live permits of services/connection_gate.py, compared.
use terraformer.Base.{◌≡◌, ◌≢◌, sym, true, false, List, [], ◌∷◌, arith, any, All}
use terraformer.Gate.{ActiveKey, active}
use terraformer.Gate.Leases.{same_key}

pub same_key→eq : (j k : ActiveKey) → same_key j k ≡ true → j ≡ k
same_key→eq j k h = ground arith

pub same_key→ne : (j k : ActiveKey) → same_key j k ≡ false → j ≢ k
same_key→ne j k h e = ground arith

active-ne : (j k : ActiveKey) → j ≢ k → active j ≢ active k
active-ne j k h e = h (ground (arith, e))

pub same_key-ne : (j k : ActiveKey) → same_key j k ≡ false → active k ≢ active j
same_key-ne j k h = active-ne k j (λ e. same_key→ne j k h (sym e))

pub outside :
    (k : ActiveKey) (ks : List ActiveKey)
    → any (same_key k) ks ≡ false
    → All (λ j. active j ≢ active k) ks
outside k [] h = tt
outside k (j ∷ ks) h = (same_key-ne k j (ground (arith, h)), outside k ks (ground (arith, h)))
