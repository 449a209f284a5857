-- ===== src/Text/Strip.antt =====
-- `strip`, `lower` and `decimal`: what they keep of the characters, and texts that are one line.
use terraformer.Base.{
  ℕ, zero, suc, ◌+◌, ◌/◌, ◌%◌, ◌<◌, ◌≡◌, refl, Bool, true, false, [], ◌∷◌, arith, All, All-imp,
  Bool-cases, inl, inr, ◌==◌,
}
use terraformer.Text.{
  Text, codes, is_space, is_break, is_digit, to_lower, lower, lstrip, rstrip, keep_unless, strip,
  words, collapse, decimal_from, decimal,
}
use terraformer.Text.Lines.{IsLine, is_break-is_space}
use terraformer.Text.Words.{IsWord, IsDark, words-IsWord, join-All}

module _ {κ} (P : ℕ → Type κ) where
  pub lstrip-All : (s : Text) → All P s → All P (lstrip s)
  unfolding lstrip
  lstrip-All [] h = tt
  lstrip-All (c ∷ s) h = elim (Bool-cases (is_space c)) [
    | inl e ↦ rw e (lstrip-All s h.1)
    | inr e ↦ rw e h
  ]

  keep_unless-All : (b : Bool) (c : ℕ) (s : Text) → P c → All P s → All P (keep_unless b c s)
  keep_unless-All true c [] p h = tt
  keep_unless-All false c [] p h = (p, tt)
  keep_unless-All b c (d ∷ s) p h = (p, h)

  rstrip-All : (s : Text) → All P s → All P (rstrip s)
  unfolding rstrip
  rstrip-All [] h = tt
  rstrip-All (c ∷ s) h = keep_unless-All (is_space c) c (rstrip s) h.0 (rstrip-All s h.1)

  pub strip-All : (s : Text) → All P s → All P (strip s)
  unfolding strip
  strip-All s h = lstrip-All (rstrip s) (rstrip-All s h)

-- A text with no white space at its ends is its own `strip`.
abbrev pub IsTrimmed : Text → Type 0
IsTrimmed s = strip s ≡ s

pub is_break-to_lower : (c : ℕ) → is_break c ≡ false → is_break (to_lower c) ≡ false
unfolding is_break to_lower
is_break-to_lower c h = ground arith

pub is_space-to_lower : (c : ℕ) → is_space (to_lower c) ≡ is_space c
unfolding is_space to_lower
is_space-to_lower c = ground arith

pub lower-IsLine : (s : Text) → IsLine s → IsLine (lower s)
unfolding lower
lower-IsLine [] h = tt
lower-IsLine (c ∷ s) h = (is_break-to_lower c h.0, lower-IsLine s h.1)

IsWord-IsLine : (w : Text) → IsWord w → IsLine w
IsWord-IsLine w h = All-imp IsDark (λ c. is_break c ≡ false) is_break-is_space w h.1

space-IsLine : IsLine (codes " ")
unfolding is_break
space-IsLine = (refl, tt)

-- Whatever the text, collapsing it leaves one line.
pub collapse-IsLine : (s : Text) → IsLine (collapse s)
unfolding collapse
collapse-IsLine s =
    join-All (λ c. is_break c ≡ false) (codes " ") (words s) space-IsLine
      (All-imp IsWord IsLine IsWord-IsLine (words s) (words-IsWord s))

abbrev pub IsDigits : Text → Type 0
IsDigits = All (λ c. is_digit c ≡ true)

digit_of : (n : ℕ) → n < 10 → is_digit (b'0' + n) ≡ true
unfolding is_digit
digit_of n h = ground arith

decimal_from-IsDigits :
    (fuel n : ℕ) (acc : Text) → IsDigits acc → IsDigits (decimal_from fuel n acc)
unfolding decimal_from
decimal_from-IsDigits zero n acc h = h
decimal_from-IsDigits (suc fuel) n acc h = elim (Bool-cases (n / 10 == 0)) [
  | inl e ↦ rw e (digit_of (n % 10) (omega arith), h)
  | inr e ↦ rw e (
      decimal_from-IsDigits fuel (n / 10) ((b'0' + n % 10) ∷ acc)
        (digit_of (n % 10) (omega arith), h))
]

pub decimal-IsDigits : (n : ℕ) → IsDigits (decimal n)
unfolding decimal
decimal-IsDigits n = decimal_from-IsDigits (suc n) n [] tt

pub is_digit-is_break : (c : ℕ) → is_digit c ≡ true → is_break c ≡ false
unfolding is_digit is_break
is_digit-is_break c h = ground arith

pub decimal-IsLine : (n : ℕ) → IsLine (decimal n)
decimal-IsLine n =
    All-imp (λ c. is_digit c ≡ true) (λ c. is_break c ≡ false) is_digit-is_break (decimal n)
      (decimal-IsDigits n)
