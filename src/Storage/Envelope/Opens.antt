-- ===== src/Storage/Envelope/Opens.antt =====
-- What the envelope of core/security.py seals, it opens.
use terraformer.Base.{
  ℕ, ◌+◌, ◌≤◌, ◌≡◌, refl, sym, ◌∙◌, ap, false, [], ◌∷◌, ◌++◌, length, length-append, ltb, take,
  arith,
}
use terraformer.Text.Ends.{after_prefix-append}
use terraformer.Pipeline.{Outcome, returned, raised}
use terraformer.Storage.Envelope.{
  Bytes, Cipher, CipherLaws, nonce_bytes, tag_bytes, envelope_version, drop, sealed_with, encrypt,
  authentic, unseal_with, after_version, decrypt,
}

take-append : (xs ys : Bytes) → take (length xs) (xs ++ ys) ≡ xs
take-append [] ys = refl
take-append (x ∷ xs) ys = ap (λ (t : Bytes). x ∷ t) (take-append xs ys)

drop-append : (xs ys : Bytes) → drop (length xs) (xs ++ ys) ≡ ys
unfolding drop
drop-append [] ys = refl
drop-append (x ∷ xs) ys = drop-append xs ys

long_enough :
    (nonce body : Bytes)
    → length nonce ≡ nonce_bytes
    → tag_bytes ≤ length body
    → ltb
        (length (envelope_version ++ (nonce ++ body)))
        (length envelope_version + nonce_bytes + tag_bytes)
      ≡ false
long_enough nonce body n t = let l = length-append nonce body in ground (arith, n, t, l)

module _ (c : Cipher) (laws : CipherLaws c) (nonce plaintext aad : Bytes)
    (n : length nonce ≡ nonce_bytes) where
  nonce_taken : (body : Bytes) → take nonce_bytes (nonce ++ body) ≡ nonce
  nonce_taken body = ap (λ (k : ℕ). take k (nonce ++ body)) (sym n) ∙ take-append nonce body

  nonce_dropped : (body : Bytes) → drop nonce_bytes (nonce ++ body) ≡ body
  nonce_dropped body = ap (λ (k : ℕ). drop k (nonce ++ body)) (sym n) ∙ drop-append nonce body

  unseal_with-seal :
      (key : Bytes)
      → unseal_with c (nonce ++ c.seal key nonce plaintext aad) aad (returned key)
        ≡ returned plaintext
  unfolding unseal_with authentic
  unseal_with-seal key =
      rw
        (
          nonce_taken (c.seal key nonce plaintext aad),
          nonce_dropped (c.seal key nonce plaintext aad),
          laws.unseal-seal key nonce plaintext aad,
        )
        refl

  opens :
      (o : Outcome Bytes) (envelope : Bytes)
      → c.derive_key ≡ o
      → sealed_with c nonce plaintext aad o ≡ returned envelope
      → decrypt c envelope aad ≡ returned plaintext
  unfolding decrypt after_version sealed_with
  opens (raised x) envelope k e = cc e
  opens (returned key) envelope k e =
      let body = c.seal key nonce plaintext aad in
      let v : envelope ≡ envelope_version ++ (nonce ++ body) = cc e in
      rw
        (
          v,
          long_enough nonce body n (laws.length-seal key nonce plaintext aad),
          after_prefix-append envelope_version (nonce ++ body),
          k,
        )
        (unseal_with-seal key)

pub decrypt-encrypt :
    (c : Cipher) (laws : CipherLaws c) (now : ℕ) (plaintext aad envelope : Bytes)
    → encrypt c now plaintext aad ≡ returned envelope
    → decrypt c envelope aad ≡ returned plaintext
unfolding encrypt
decrypt-encrypt c laws now plaintext aad envelope e =
    opens c laws (c.token_bytes now) plaintext aad (laws.length-token now) c.derive_key envelope
      refl e
