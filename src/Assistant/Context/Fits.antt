-- ===== src/Assistant/Context/Fits.antt =====
-- How much of a history `_trim_to_context_limit` of assistant/service.py keeps within a budget.
use mathlib.Core.List.{reverse, reverse-append, reverse-reverse, reverse-cons}
use terraformer.Base.{
  ℕ, suc, ◌+◌, ◌≤◌, ◌≡◌, refl, sym, ◌∙◌, ap, true, false, [], ◌∷◌, ◌++◌, append_assoc, arith, ltb,
  ◌==◌, length, length-append, Bool-cases, ◌⊎◌, inl, inr,
}
use terraformer.Assistant.Context.{
  History, is_tool, cost, size, drop_leading_orphan, newest, keep_newest,
}

abbrev pub IsSuffix : History → History → Type 0
IsSuffix s l = (front : History) × (l ≡ front ++ s)

pub size-append : (xs ys : History) → size (xs ++ ys) ≡ size xs + size ys
unfolding size
size-append [] ys = omega arith
size-append (x ∷ xs) ys = omega (arith, size-append xs ys)

pub size-reverse : (xs : History) → size (reverse xs) ≡ size xs
unfolding size
size-reverse [] = refl
size-reverse (x ∷ xs) =
    ap size (reverse-cons x xs) ∙ size-append (reverse xs) (x ∷ []) ∙ omega (arith, size-reverse xs)

-- A window from the newest message on: what it leaves out is older, and it fits unless it is empty.
unfoldable pub Fits : ℕ → ℕ → History → ℕ → Type 0
Fits budget used kept total = (total ≡ used + size kept) × ((kept ≡ []) ⊎ (total ≤ budget))

pub one_more :
    (budget used total : ℕ) (kept : History)
    → ltb budget used ≡ false
    → total ≡ used + size kept
    → (kept ≡ []) ⊎ (total ≤ budget)
    → total ≤ budget
unfolding size
one_more budget used total kept h t (inl e) =
    let z : size kept ≡ 0 = ap size e in ground (arith, h, t, z)
one_more budget used total kept h t (inr l) = l

pub newest-Fits :
    (budget used : ℕ) (ms : History)
    → ((rest : History) × (ms ≡ (newest budget used ms).0 ++ rest))
      × Fits budget used (newest budget used ms).0 (newest budget used ms).1
unfolding newest Fits size
newest-Fits budget used [] = (([], refl), (omega arith, inl refl))
newest-Fits budget used (m ∷ ms) = elim (Bool-cases (ltb budget (used + cost m))) [
  | inl e ↦ rw (e, newest) ((m ∷ ms, refl), (omega arith, inl refl))
  | inr e ↦
      let ((rest, q), (t, f)) = newest-Fits budget (used + cost m) ms in
      rw (e, newest)
        (
          (rest, ap (λ (l : History). m ∷ l) q),
          (omega (arith, t), inr (one_more budget (used + cost m) _ _ e t f)),
        )
]

pub keep_newest-Fits :
    (budget used : ℕ) (ms : History)
    → IsSuffix (keep_newest budget used ms).0 ms
      × Fits budget used (keep_newest budget used ms).0 (keep_newest budget used ms).1
unfolding keep_newest Fits
keep_newest-Fits budget used ms =
    let ((rest, q), (t, f)) = newest-Fits budget used (reverse ms) in
    (
      (
        reverse rest,
        sym (reverse-reverse ms)
            ∙ ap reverse q
            ∙ reverse-append (newest budget used (reverse ms)).0 rest,
      ),
      (
        t ∙ ap (λ (n : ℕ). used + n) (sym (size-reverse (newest budget used (reverse ms)).0)),
        emptied f,
      ),
    )
  where
    emptied :
        ((newest budget used (reverse ms)).0 ≡ []) ⊎ ((newest budget used (reverse ms)).1 ≤ budget)
        → (reverse (newest budget used (reverse ms)).0 ≡ [])
          ⊎ ((newest budget used (reverse ms)).1 ≤ budget)
    emptied (inl e) = inl (ap reverse e)
    emptied (inr l) = inr l

pub drop-IsSuffix :
    (ms : History)
    → IsSuffix (drop_leading_orphan ms) ms × (size (drop_leading_orphan ms) ≤ size ms)
unfolding drop_leading_orphan size
drop-IsSuffix [] = (([], refl), omega arith)
drop-IsSuffix (m ∷ ms) = elim (Bool-cases (is_tool m.role)) [
  | inl e ↦
      let ((front, q), l) = drop-IsSuffix ms in
      rw (e, drop_leading_orphan) ((m ∷ front, ap (λ (l : History). m ∷ l) q), omega (arith, l))
  | inr e ↦ rw (e, drop_leading_orphan) (([], refl), omega arith)
]

pub suffix_trans : (a b c : History) → IsSuffix a b → IsSuffix b c → IsSuffix a c
suffix_trans a b c (f, p) (g, q) =
    (g ++ f, q ∙ ap (λ (l : History). g ++ l) p ∙ sym (append_assoc g f a))

pub suffix_whole : (s l : History) → IsSuffix s l → (length s == length l) ≡ true → s ≡ l
suffix_whole s l ([], q) h = sym q
suffix_whole s l (m ∷ front, q) h =
    absurd
      (longer (length front) (length s) (length l) (ap length q ∙ length-append (m ∷ front) s) h)
  where
    longer : (f a b : ℕ) → b ≡ suc f + a → (a == b) ≡ true → ⊥
    longer f a b e t = ground arith
