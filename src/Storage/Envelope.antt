-- ===== src/Storage/Envelope.antt =====
-- core/security.py `EnvelopeCipher`: AES-GCM in a versioned envelope with its nonce.
pub mod Opens
use terraformer.Base.{
  ℕ, zero, suc, ◌+◌, Bool, Option, none, some, List, [], ◌∷◌, ◌++◌, if◌then◌else◌, length, ltb,
  take, ◌≤◌, ◌≡◌,
}
use terraformer.Text.{Text, codes, after_prefix}
use terraformer.Errors.{artifact_integrity}
use terraformer.Pipeline.{app, Outcome, returned, raised}

abbrev pub Bytes : Type 0
Bytes = Text

-- The key that is derived, the random bytes by the clock, and AES-GCM: key, nonce, message, data.
pub record Cipher : Type 0 where
  pub derive_key : Outcome Bytes
  pub token_bytes : ℕ → Bytes
  pub seal : Bytes → Bytes → Bytes → Bytes → Bytes
  pub unseal : Bytes → Bytes → Bytes → Bytes → Option Bytes

abbrev pub nonce_bytes : ℕ
nonce_bytes = 12

abbrev pub tag_bytes : ℕ
tag_bytes = 16

abbrev pub envelope_version : Bytes
envelope_version = codes "TFEN1"

unfoldable pub drop : ℕ → Bytes → Bytes
drop zero xs = xs
drop (suc n) [] = []
drop (suc n) (x ∷ xs) = drop n xs

sealed_with : Cipher → Bytes → Bytes → Bytes → Outcome Bytes → Outcome Bytes
sealed_with c nonce plaintext aad (raised e) = raised e
sealed_with c nonce plaintext aad (returned key) =
    returned (envelope_version ++ (nonce ++ c.seal key nonce plaintext aad))

unfoldable pub encrypt : Cipher → ℕ → Bytes → Bytes → Outcome Bytes
unfolding sealed_with
encrypt c now plaintext aad = sealed_with c (c.token_bytes now) plaintext aad c.derive_key

authentic : Option Bytes → Outcome Bytes
authentic none = raised (app artifact_integrity)
authentic (some plaintext) = returned plaintext

unseal_with : Cipher → Bytes → Bytes → Outcome Bytes → Outcome Bytes
unfolding authentic drop
unseal_with c body aad (raised e) = raised e
unseal_with c body aad (returned key) =
    authentic (c.unseal key (take nonce_bytes body) (drop nonce_bytes body) aad)

after_version : Cipher → Bytes → Option Bytes → Outcome Bytes
unfolding unseal_with
after_version c aad none = raised (app artifact_integrity)
after_version c aad (some body) = unseal_with c body aad c.derive_key

unfoldable pub decrypt : Cipher → Bytes → Bytes → Outcome Bytes
unfolding after_version
decrypt c envelope aad =
    if ltb (length envelope) (length envelope_version + nonce_bytes + tag_bytes)
    then raised (app artifact_integrity)
    else after_version c aad (after_prefix envelope_version envelope)

-- AES-GCM as it is documented: the tag is sixteen bytes, and what was sealed is what is unsealed with
-- the same key, nonce and data.
pub record CipherLaws (c : Cipher) : Type 0 where
  pub length-token : (n : ℕ) → length (c.token_bytes n) ≡ nonce_bytes
  pub length-seal : (k n p a : Bytes) → tag_bytes ≤ length (c.seal k n p a)
  pub unseal-seal : (k n p a : Bytes) → c.unseal k n (c.seal k n p a) a ≡ some p
