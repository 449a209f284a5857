-- ===== src/Text/Numbers.antt =====
-- Texts of digits, and texts of digits with separators, are one line.
use terraformer.Base.{
  ℕ, ◌≡◌, subst, sym, Bool, true, false, List, [], ◌∷◌, arith, all, All, All-imp, Bool-cases, inl,
  inr, ◌==◌, ==_iff,
}
use terraformer.Text.{Text, is_break, is_digit, is_digits, partition}
use terraformer.Text.Lines.{IsLine}
use terraformer.Text.Strip.{IsDigits, is_digit-is_break}

pub all→All {ℓ} :
    {A : Type ℓ} (p : A → Bool) (xs : List A) → all p xs ≡ true → All (λ x. p x ≡ true) xs
all→All p [] h = tt
all→All p (x ∷ xs) h = (ground arith, all→All p xs (ground arith))

pub IsDigits-IsLine : (s : Text) → IsDigits s → IsLine s
IsDigits-IsLine = All-imp (λ c. is_digit c ≡ true) (λ c. is_break c ≡ false) is_digit-is_break

pub is_digits→IsDigits : (s : Text) → is_digits s ≡ true → IsDigits s
unfolding is_digits
is_digits→IsDigits s h = all→All is_digit s (ground arith)

pub is_digits-IsLine : (s : Text) → is_digits s ≡ true → IsLine s
is_digits-IsLine s h = IsDigits-IsLine s (is_digits→IsDigits s h)

pub partition-sep : (sep c : ℕ) (s : Text) → (c == sep) ≡ true → partition sep (c ∷ s) ≡ ([], s)
unfolding partition
partition-sep sep c s e = rw e

pub partition-other :
    (sep c : ℕ) (s : Text)
    → (c == sep) ≡ false
    → partition sep (c ∷ s) ≡ (c ∷ (partition sep s).0, (partition sep s).1)
unfolding partition
partition-other sep c s e = rw e

-- What holds of both parts and of the separator holds of the text.
pub partition-All {κ} :
    (P : ℕ → Type κ) (sep : ℕ) (s : Text)
    → P sep
    → All P (partition sep s).0
    → All P (partition sep s).1
    → All P s
partition-All P sep [] p a b = tt
partition-All P sep (c ∷ s) p a b = elim (Bool-cases (c == sep)) [
  | inl e ↦ (
    subst P (sym ((==_iff c sep).0 e)) p,
    subst (λ (q : Text × Text). All P q.1) (partition-sep sep c s e) b,
  )
  | inr e ↦
      let x = subst (λ (q : Text × Text). All P q.0) (partition-other sep c s e) a in
      (
        x.0,
        partition-All P sep s p x.1
            (subst (λ (q : Text × Text). All P q.1) (partition-other sep c s e) b),
      )
]

pub partition_left-All {κ} :
    (P : ℕ → Type κ) (sep : ℕ) (s : Text) → All P s → All P (partition sep s).0
unfolding partition
partition_left-All P sep [] h = tt
partition_left-All P sep (c ∷ s) h = elim (Bool-cases (c == sep)) [
  | inl e ↦ rw (partition-sep sep c s e) tt
  | inr e ↦ rw (partition-other sep c s e) (h.0, partition_left-All P sep s h.1)
]

pub partition_right-All {κ} :
    (P : ℕ → Type κ) (sep : ℕ) (s : Text) → All P s → All P (partition sep s).1
unfolding partition
partition_right-All P sep [] h = tt
partition_right-All P sep (c ∷ s) h = elim (Bool-cases (c == sep)) [
  | inl e ↦ rw (partition-sep sep c s e) h.1
  | inr e ↦ rw (partition-other sep c s e) (partition_right-All P sep s h.1)
]
