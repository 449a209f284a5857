-- ===== src/Changes/Vlans/Numerals.antt =====
-- `int` of digits, and a text without the separator that it is split at.
use terraformer.Base.{
  ℕ, ◌≡◌, ◌≢◌, refl, ap, sym, ◌∙◌, true, false, some, [], ◌∷◌, arith, All-imp, Bool-cases, inl, inr,
  ◌==◌,
}
use terraformer.Text.{Text, is_digit, is_digits, is_space, partition, number}
use terraformer.Text.Ends.{strip-dark}
use terraformer.Text.Strip.{IsDigits}
use terraformer.Text.Numbers.{all→All, partition-sep, partition-other}
use terraformer.Changes.Vlans.{pos, int, int_digits, unsigned, signed}

int_digits-IsDigits : (s : Text) → IsDigits s → int_digits true s ≡ some s
unfolding int_digits
int_digits-IsDigits [] h = refl
int_digits-IsDigits (c ∷ s) h = rw (int_digits, h.0, int_digits-IsDigits s h.1) refl

digit_dark : (c : ℕ) → is_digit c ≡ true → is_space c ≡ false
unfolding is_digit is_space
digit_dark c h = ground arith

digit_unsigned : (c : ℕ) → is_digit c ≡ true → ((c == b'-') ≡ false) × ((c == b'+') ≡ false)
unfolding is_digit
digit_unsigned c h = (ground arith, ground arith)

signed-IsDigits :
    (c : ℕ) (s : Text) → IsDigits (c ∷ s) → signed (c ∷ s) ≡ some (pos (number (c ∷ s)))
unfolding signed unsigned int_digits
signed-IsDigits c s h =
    rw
      (
        (digit_unsigned c h.0).0,
        (digit_unsigned c h.0).1,
        unsigned,
        int_digits,
        h.0,
        int_digits-IsDigits s h.1,
      )
      refl

-- `int` of a run of digits is the number that it writes.
pub int-is_digits : (s : Text) → is_digits s ≡ true → int s ≡ some (pos (number s))
unfolding int is_digits
int-is_digits [] h = cc h
int-is_digits (c ∷ s) h =
    let d = all→All is_digit (c ∷ s) h in
    ap signed (strip-dark (c ∷ s) (All-imp (λ c. is_digit c ≡ true) _ digit_dark (c ∷ s) d))
    ∙ signed-IsDigits c s d

pub partition-none : (sep : ℕ) (s : Text) → (partition sep s).0 ≡ s → (partition sep s).1 ≡ []
unfolding partition
partition-none sep [] h = refl
partition-none sep (c ∷ s) h = elim (Bool-cases (c == sep)) [
  | inl e ↦ absurd (empty (sym (ap (λ (q : Text × Text). q.0) (partition-sep sep c s e)) ∙ h))
  | inr e ↦
      ap (λ (q : Text × Text). q.1) (partition-other sep c s e)
      ∙ partition-none sep s
          (tail (sym (ap (λ (q : Text × Text). q.0) (partition-other sep c s e)) ∙ h))
]
  where
    empty : [] ≢ c ∷ s
    empty x = cc x

    tail : {t : Text} → c ∷ t ≡ c ∷ s → t ≡ s
    tail x = cc x
