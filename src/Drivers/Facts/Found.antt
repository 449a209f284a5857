-- ===== src/Drivers/Facts/Found.antt =====
-- Which statements a routing process is found to have (drivers/base.py `has_statement`).
use mathlib.Core.List.{Memᴰ}
use mathlib.Core.List.Memᴰ.{head, tail}
use terraformer.Base.{
  ◌≡◌, ◌↔◌, refl, sym, ap, ◌∙◌, inl, inr, subst, Bool, true, arith, List, [], ◌∷◌, any, map,
  Bool-cases,
}
use terraformer.Text.{Text, lower, words, collapse, same, join, codes}
use terraformer.Text.Ends.{same→eq, same_refl}
use terraformer.Text.Words.{words-collapse}
use terraformer.Text.Words.Normal.{lowers, words-lower}
use terraformer.Changes.Routing.{normalize_statement}
use terraformer.Drivers.Facts.{RoutingProcessFacts, same_statement, has_statement}
use terraformer.Drivers.Facts.Spelling.{normalize_words}

-- A line of the list has the words of the text, apart from their case.
abbrev pub IsSpelledIn : List Text → Text → Type 0
IsSpelledIn lines s =
    (line : Text) × (Memᴰ line lines × (map lower (words line) ≡ map lower (words s)))

-- The words of a normal form are those of the text in lower case, so it forgets nothing else.
words-normalize : (s : Text) → words (normalize_statement s) ≡ lowers (words s)
unfolding normalize_statement
words-normalize s = words-lower (collapse s) ∙ ap lowers (words-collapse s)

same_statement_iff :
    (line s : Text)
    → (same_statement line s ≡ true) ↔ (map lower (words line) ≡ map lower (words s))
unfolding same_statement
same_statement_iff line s = (
  λ h.
      sym (words-normalize line)
      ∙ ap words (same→eq (normalize_statement line) (normalize_statement s) h)
      ∙ words-normalize s,
  λ h.
      subst (λ (t : Text). same (normalize_statement line) t ≡ true)
        (normalize_words line ∙ ap (join (codes " ")) h ∙ sym (normalize_words s))
        (same_refl (normalize_statement line)),
)

any→Mem :
    {A : Type 0} (p : A → Bool) (xs : List A)
    → any p xs ≡ true
    → (x : A) × (Memᴰ x xs × (p x ≡ true))
any→Mem p [] h = cc h
any→Mem p (x ∷ xs) h = elim (Bool-cases (p x)) [
  | inl e ↦ (x, (head refl, e))
  | inr e ↦
      let later : any p xs ≡ true = ground (arith, h, e) in
      let (y, (m, q)) = any→Mem p xs later in (y, (tail m, q))
]

Mem→any :
    {A : Type 0} (p : A → Bool) (xs : List A) (x : A) → Memᴰ x xs → p x ≡ true → any p xs ≡ true
Mem→any p [] x m h = elim m [ ]
Mem→any p (y ∷ xs) x (head e) h = let here : p y ≡ true = ap p (sym e) ∙ h in ground (arith, here)
Mem→any p (y ∷ xs) x (tail m) h = let later = Mem→any p xs x m h in ground (arith, later)

-- A process has a statement exactly if one of its lines has the words of the statement, in this order,
-- apart from their case and however they are spaced.
pub has_statement_iff :
    (process : RoutingProcessFacts) (s : Text)
    → (has_statement process s ≡ true) ↔ IsSpelledIn process.statements s
unfolding has_statement
has_statement_iff process s = (
  λ h.
      let (line, (m, e)) = any→Mem (λ line. same_statement line s) process.statements h in
      (line, (m, (same_statement_iff line s).0 e)),
  λ (line, (m, e)).
      Mem→any (λ line. same_statement line s) process.statements line m
        ((same_statement_iff line s).1 e),
)
