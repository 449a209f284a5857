-- ===== src/Changes/Prefixes/Print.antt =====
-- A prefix that is written from an address and a length.
use terraformer.Base.{
  ℕ, ◌-◌, ◌%◌, ◌^◌, ◌<◌, ◌≤◌, ◌≡◌, refl, true, false, some, [], ◌∷◌, ◌++◌, arith, any, ◌==◌, All,
  All-imp, All-append,
}
use terraformer.Text.{Text, codes, is_space, is_digit, strip, join, decimal, split_on}
use terraformer.Text.Words.{join-All}
use terraformer.Text.Strip.{decimal-IsDigits}
use terraformer.Text.Ends.{split_on-join, Without, strip-dark}
use terraformer.Ipv4.{dotted, netmask}
use terraformer.Ipv4.Print.{network-parts, address-dotted, prefix_length-decimal}
use terraformer.Changes.Prefixes.{prefix_parts}

-- A character of a prefix, the slash aside.
abbrev Inside : ℕ → Type 0
Inside c = ((c == b'/') ≡ false) × (is_space c ≡ false)

digit-Inside : (c : ℕ) → is_digit c ≡ true → Inside c
unfolding is_digit is_space
digit-Inside c h = (ground arith, ground arith)

decimal-Inside : (n : ℕ) → All Inside (decimal n)
decimal-Inside n =
    All-imp (λ c. is_digit c ≡ true) Inside digit-Inside (decimal n) (decimal-IsDigits n)

dotted-Inside : (n : ℕ) → All Inside (dotted n)
unfolding dotted is_space
dotted-Inside n =
    join-All Inside (codes ".") _ ((refl, refl), tt)
      (decimal-Inside _, (decimal-Inside _, (decimal-Inside _, (decimal-Inside _, tt))))

-- `a.b.c.d/p`.
abbrev pub written : ℕ → ℕ → Text
written n p = dotted n ++ (b'/' ∷ decimal p)

slash_dark : is_space b'/' ≡ false
unfolding is_space
slash_dark = refl

strip-written : (n p : ℕ) → strip (written n p) ≡ written n p
strip-written n p = strip-dark (written n p) (
    All-append (λ c. is_space c ≡ false) (dotted n) _ (dark (dotted n) (dotted-Inside n))
      (slash_dark, dark (decimal p) (decimal-Inside p)))
  where
    dark : (s : Text) → All Inside s → All (λ c. is_space c ≡ false) s
    dark = All-imp Inside (λ c. is_space c ≡ false) (λ c h. h.1)

any_slash : (s t : Text) → any (λ c. c == b'/') (s ++ b'/' ∷ t) ≡ true
any_slash [] t = refl
any_slash (c ∷ s) t = ground (arith, any_slash s t)

split-written : (n p : ℕ) → split_on b'/' (written n p) ≡ dotted n ∷ decimal p ∷ []
unfolding join
split-written n p =
    split_on-join b'/' (dotted n) (decimal p ∷ [])
      (bare (dotted n) (dotted-Inside n), (bare (decimal p) (decimal-Inside p), tt))
  where
    bare : (s : Text) → All Inside s → Without b'/' s
    bare = All-imp Inside (λ c. (c == b'/') ≡ false) (λ c h. h.0)

-- A prefix written from an address below 2 ^ 32 and a length of at most 32, with no host bit set, is
-- read back as the dotted address and the dotted mask of that length.
pub prefix_parts-written :
    (n p : ℕ)
    → n < 2 ^ 32
    → p ≤ 32
    → n % 2 ^ (32 - p) ≡ 0
    → prefix_parts (written n p) ≡ some (dotted n, dotted (netmask p))
unfolding prefix_parts
prefix_parts-written n p l k e =
    rw
      (
        strip-written n p,
        any_slash (dotted n) (decimal p),
        network-parts (written n p) (dotted n) (decimal p) n p (split-written n p)
            (address-dotted n l) (prefix_length-decimal p k) e,
      )
      refl
