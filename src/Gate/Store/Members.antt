-- ===== src/Gate/Store/Members.antt =====
-- The members of a set of the example store (Gate/Store.antt) and their scores.
use terraformer.Base.{
  ℕ, zero, suc, ◌+◌, ◌≤◌, ◌≡◌, ◌≢◌, refl, ap, Option, none, some, List, [], ◌∷◌, arith, map,
}
use terraformer.Gate.Redis.{Cutoff, above, kept, one_if}

-- The score of member m stands at place m.
abbrev pub Scores : Type 0
Scores = List (Option ℕ)

unfoldable pub score_of : ℕ → Scores → Option ℕ
score_of m [] = none
score_of zero (o ∷ os) = o
score_of (suc m) (o ∷ os) = score_of m os

unfoldable pub put_score : ℕ → Option ℕ → Scores → Scores
put_score zero o [] = o ∷ []
put_score zero o (x ∷ xs) = o ∷ xs
put_score (suc m) o [] = none ∷ put_score m o []
put_score (suc m) o (x ∷ xs) = x ∷ put_score m o xs

unfoldable pub count_after : Cutoff → Scores → ℕ
count_after c [] = 0
count_after c (o ∷ os) = one_if (above c o) + count_after c os

pub score_of-put : (m : ℕ) (o : Option ℕ) (xs : Scores) → score_of m (put_score m o xs) ≡ o
unfolding score_of put_score
score_of-put zero o [] = refl
score_of-put zero o (x ∷ xs) = refl
score_of-put (suc m) o [] = score_of-put m o []
score_of-put (suc m) o (x ∷ xs) = score_of-put m o xs

pub score_of-put_other :
    (m n : ℕ) (o : Option ℕ) (xs : Scores) → m ≢ n → score_of n (put_score m o xs) ≡ score_of n xs
unfolding score_of put_score
score_of-put_other zero zero o xs h = absurd (h refl)
score_of-put_other zero (suc n) o [] h = refl
score_of-put_other zero (suc n) o (x ∷ xs) h = refl
score_of-put_other (suc m) zero o [] h = refl
score_of-put_other (suc m) zero o (x ∷ xs) h = refl
score_of-put_other (suc m) (suc n) o [] h = score_of-put_other m n o [] (λ e. h (ap suc e))
score_of-put_other (suc m) (suc n) o (x ∷ xs) h = score_of-put_other m n o xs (λ e. h (ap suc e))

pub count_after-put :
    (c : Cutoff) (m : ℕ) (o : Option ℕ) (xs : Scores)
    → count_after c (put_score m o xs) + one_if (above c (score_of m xs))
      ≡ count_after c xs + one_if (above c o)
unfolding count_after score_of put_score
count_after-put c zero o [] = omega arith
count_after-put c zero o (x ∷ xs) = omega arith
count_after-put c (suc m) o [] = omega (arith, count_after-put c m o [])
count_after-put c (suc m) o (x ∷ xs) = omega (arith, count_after-put c m o xs)

pub score_of-map :
    (c : Cutoff) (m : ℕ) (xs : Scores) → score_of m (map (kept c) xs) ≡ kept c (score_of m xs)
unfolding score_of
score_of-map c m [] = refl
score_of-map c zero (x ∷ xs) = refl
score_of-map c (suc m) (x ∷ xs) = score_of-map c m xs

above-kept_later :
    (c later : Cutoff) (o : Option ℕ)
    → c.instant + later.back ≤ later.instant + c.back
    → above later (kept c o) ≡ above later o
above-kept_later c later none h = refl
above-kept_later c later (some x) h = ground (arith, h)

pub count_after-map :
    (c later : Cutoff) (xs : Scores)
    → c.instant + later.back ≤ later.instant + c.back
    → count_after later (map (kept c) xs) ≡ count_after later xs
unfolding count_after
count_after-map c later [] h = refl
count_after-map c later (x ∷ xs) h =
    rw (above-kept_later c later x h, count_after-map c later xs h) refl
