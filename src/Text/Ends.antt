-- ===== src/Text/Ends.antt =====
-- Prefixes, separators and white space at the ends of a text.
use terraformer.Base.{
  ℕ, ◌≤◌, ◌≡◌, ◌≢◌, refl, sym, ap, ◌∙◌, inl, inr, true, false, not, some, List, [], ◌∷◌, ◌++◌,
  append-nil, append_assoc, subst, length-append, arith, all, length, All, All-append, Bool-cases,
  ◌==◌, ==_iff,
}
use terraformer.Text.{
  Text, is_space, is_break, to_lower, lower, after_prefix, same, split_from, split_on, lstrip,
  rstrip, strip, join, keep_unless,
}
use terraformer.Text.Lines.{IsLine}

pub same→eq : (s t : Text) → same s t ≡ true → s ≡ t
unfolding same
same→eq [] [] h = refl
same→eq [] (d ∷ t) h = cc h
same→eq (c ∷ s) [] h = cc h
same→eq (c ∷ s) (d ∷ t) h = ground (arith, same→eq s t)

pub same_refl : (s : Text) → same s s ≡ true
unfolding same
same_refl [] = refl
same_refl (c ∷ s) = ground (arith, same_refl s)

pub after_prefix-eq : (p s r : Text) → after_prefix p s ≡ some r → s ≡ p ++ r
unfolding after_prefix
after_prefix-eq [] s r h = ground arith
after_prefix-eq (c ∷ p) [] r h = cc h
after_prefix-eq (c ∷ p) (d ∷ s) r h = ground (arith, after_prefix-eq p s r)

pub after_prefix-append : (p r : Text) → after_prefix p (p ++ r) ≡ some r
unfolding after_prefix
after_prefix-append [] r = refl
after_prefix-append (c ∷ p) r = ground (arith, after_prefix-append p r)

-- A text all of whose characters are no boundaries is one line; for literals.
pub no_breaks : (s : Text) → all (λ c. not (is_break c)) s ≡ true → IsLine s
no_breaks [] h = tt
no_breaks (c ∷ s) h = (ground arith, no_breaks s (ground arith))

pub line_append : (s t : Text) → IsLine s → IsLine t → IsLine (s ++ t)
line_append = All-append (λ c. is_break c ≡ false)

is_break-of-to_lower : (c : ℕ) → is_break (to_lower c) ≡ false → is_break c ≡ false
unfolding is_break to_lower
is_break-of-to_lower c h = ground arith

pub IsLine_of_lower : (s : Text) → IsLine (lower s) → IsLine s
unfolding lower
IsLine_of_lower [] h = tt
IsLine_of_lower (c ∷ s) h = (is_break-of-to_lower c h.0, IsLine_of_lower s h.1)

split_from-sep :
    (sep : ℕ) (part : Text) (c : ℕ) (s : Text)
    → (c == sep) ≡ true
    → split_from sep part (c ∷ s) ≡ part ∷ split_from sep [] s
unfolding split_from
split_from-sep sep part c s h = rw (h, split_from)

split_from-other :
    (sep : ℕ) (part : Text) (c : ℕ) (s : Text)
    → (c == sep) ≡ false
    → split_from sep part (c ∷ s) ≡ split_from sep (part ++ c ∷ []) s
unfolding split_from
split_from-other sep part c s h = rw (h, split_from)

append-cons : (part : Text) (c : ℕ) (s : Text) → (part ++ c ∷ []) ++ s ≡ part ++ (c ∷ s)
append-cons part c s = append_assoc part (c ∷ []) s

-- No character of the text is the separator.
abbrev pub Without : ℕ → Text → Type 0
Without sep = All (λ c. (c == sep) ≡ false)

split_from_last :
    (sep : ℕ) (part s : Text) → Without sep s → split_from sep part s ≡ (part ++ s) ∷ []
unfolding split_from
split_from_last sep part [] h = rw append-nil
split_from_last sep part (c ∷ s) h =
    split_from-other sep part c s h.0
    ∙ split_from_last sep (part ++ c ∷ []) s h.1
    ∙ ap (λ (t : Text). t ∷ []) (append-cons part c s)

split_from_more :
    (sep : ℕ) (part s rest : Text)
    → Without sep s
    → split_from sep part (s ++ sep ∷ rest) ≡ (part ++ s) ∷ split_from sep [] rest
split_from_more sep part [] rest h =
    split_from-sep sep part sep rest ((==_iff sep sep).1 refl)
    ∙ ap (λ (t : Text). t ∷ split_from sep [] rest) (sym (append-nil part))
split_from_more sep part (c ∷ s) rest h =
    split_from-other sep part c (s ++ sep ∷ rest) h.0
    ∙ split_from_more sep (part ++ c ∷ []) s rest h.1
    ∙ ap (λ (t : Text). t ∷ split_from sep [] rest) (append-cons part c s)

-- Parts that hold no separator, joined by it, are split back into the same parts.
pub split_on-join :
    (sep : ℕ) (w : Text) (ws : List Text)
    → All (Without sep) (w ∷ ws)
    → split_on sep (join (sep ∷ []) (w ∷ ws)) ≡ w ∷ ws
unfolding split_on join
split_on-join sep w [] h = split_from_last sep [] w h.0
split_on-join sep w (v ∷ ws) h =
    split_from_more sep [] w (join (sep ∷ []) (v ∷ ws)) h.0
    ∙ ap (λ (l : List Text). w ∷ l) (split_on-join sep v ws h.1)

module _ {κ} (P : ℕ → Type κ) where
  split_from-All :
      (sep : ℕ) (part s : Text) → P sep → All (All P) (split_from sep part s) → All P (part ++ s)
  unfolding split_from
  split_from-All sep part [] p h = All-append P part [] h.0 tt
  split_from-All sep part (c ∷ s) p h = elim (Bool-cases (c == sep)) [
    | inl e ↦
        let (a, b) = subst (All (All P)) (split_from-sep sep part c s e) h in
        All-append P part (c ∷ s) a
          (subst P (sym ((==_iff c sep).0 e)) p, split_from-All sep [] s p b)
    | inr e ↦ subst (All P) (append-cons part c s) (
        split_from-All sep (part ++ c ∷ []) s p
          (subst (All (All P)) (split_from-other sep part c s e) h))
  ]

  -- What holds of the separator and of all parts holds of the text.
  pub split_on-All : (sep : ℕ) (s : Text) → P sep → All (All P) (split_on sep s) → All P s
  unfolding split_on
  split_on-All sep s p h = split_from-All sep [] s p h

-- The white space that `strip` removes at the end of a text.
pub length-rstrip : (s : Text) → length (rstrip s) ≤ length s
unfolding rstrip
length-rstrip [] = omega arith
length-rstrip (c ∷ s) = ground (arith, length-rstrip s)

pub length-lstrip : (s : Text) → length (lstrip s) ≤ length s
unfolding lstrip
length-lstrip [] = omega arith
length-lstrip (c ∷ s) = ground (arith, length-lstrip s)

rstrip-space : (s : Text) (c : ℕ) → is_space c ≡ true → rstrip (s ++ c ∷ []) ≡ rstrip s
unfolding rstrip
rstrip-space [] c h = ground arith
rstrip-space (d ∷ s) c h = ground (arith, rstrip-space s c h)

-- A text that ends in white space is not trimmed.
pub strip-ne : (s : Text) (c : ℕ) → is_space c ≡ true → strip (s ++ c ∷ []) ≢ s ++ c ∷ []
unfolding strip
strip-ne s c h e = omega (
  arith,
  length-lstrip (rstrip (s ++ c ∷ [])),
  length-rstrip s,
  ap length (rstrip-space s c h),
  ap length e,
  length-append s (c ∷ []),
)

-- White space in front of a text is invisible to `strip`.
pub strip-space : (c : ℕ) (s : Text) → is_space c ≡ true → strip (c ∷ s) ≡ strip s
unfolding strip lstrip rstrip
strip-space c s h = go (rstrip s)
  where
    go : (r : Text) → lstrip (keep_unless (is_space c) c r) ≡ lstrip r
    go [] = rw h refl
    go (d ∷ r) = rw h refl

rstrip-dark : (s : Text) → All (λ c. is_space c ≡ false) s → rstrip s ≡ s
unfolding rstrip
rstrip-dark [] h = refl
rstrip-dark (c ∷ s) h = rw (rstrip-dark s h.1) (kept s)
  where
    kept : (r : Text) → keep_unless (is_space c) c r ≡ c ∷ r
    kept [] = rw h.0 refl
    kept (d ∷ r) = refl

-- A text without white space is its own `strip`.
pub strip-dark : (s : Text) → All (λ c. is_space c ≡ false) s → strip s ≡ s
unfolding strip lstrip
strip-dark [] h = refl
strip-dark (c ∷ s) h = rw (rstrip-dark (c ∷ s) h, h.0) refl
