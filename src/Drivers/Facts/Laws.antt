-- ===== src/Drivers/Facts/Laws.antt =====
-- Searches in the statements of a routing process.
use terraformer.Base.{
  ℕ, ◌≡◌, ◌≢◌, refl, subst, sym, ◌∙◌, inl, inr, true, false, some, List, [], ◌∷◌, Bool-cases,
}
use terraformer.Text.{Text, is_space, collapse, lower, starts_with, after_prefix}
use terraformer.Text.Lines.{IsLine, IsCommand}
use terraformer.Text.Words.{collapse-ne}
use terraformer.Text.Strip.{lower-IsLine, collapse-IsLine}
use terraformer.Changes.Routing.{normalize_statement}
use terraformer.Drivers.Facts.{RoutingProcessFacts, find_statement, first_with}

normalize-IsLine : (s : Text) → IsLine (normalize_statement s)
unfolding normalize_statement
normalize-IsLine s = lower-IsLine (collapse s) (collapse-IsLine s)

lower-ne : (s : Text) → s ≢ [] → lower s ≢ []
unfolding lower
lower-ne [] h = h
lower-ne (c ∷ s) h = λ e. cc e

normalize-ne : (c : ℕ) (s : Text) → is_space c ≡ false → normalize_statement (c ∷ s) ≢ []
unfolding normalize_statement
normalize-ne c s e = lower-ne (collapse (c ∷ s)) (collapse-ne c s e)

starts_with-ne : (p s : Text) → p ≢ [] → starts_with p s ≡ true → s ≢ []
unfolding starts_with after_prefix
starts_with-ne [] s n h = absurd (n refl)
starts_with-ne (c ∷ p) [] n h = cc h
starts_with-ne (c ∷ p) (d ∷ s) n h = λ e. cc e

first_with-IsCommand :
    (wanted : Text) (lines : List Text)
    → wanted ≢ []
    → (found : Text) → first_with wanted lines ≡ some found
    → IsCommand found
unfolding first_with
first_with-IsCommand wanted [] n found h = cc h
first_with-IsCommand wanted (line ∷ lines) n found h =
    elim (Bool-cases (starts_with wanted (normalize_statement line))) [
      | inl e ↦
          subst IsCommand (some_inj (sym (go e) ∙ h))
            (starts_with-ne wanted (normalize_statement line) n e, normalize-IsLine line)
      | inr e ↦ first_with-IsCommand wanted lines n found (sym (skip e) ∙ h)
    ]
  where
    go :
        starts_with wanted (normalize_statement line) ≡ true
        → first_with wanted (line ∷ lines) ≡ some (normalize_statement line)
    go e = rw e

    skip :
        starts_with wanted (normalize_statement line) ≡ false
        → first_with wanted (line ∷ lines) ≡ first_with wanted lines
    skip e = rw e

    some_inj : {a b : Text} → some a ≡ some b → a ≡ b
    some_inj x = cc x

-- A statement that is found is one command, whatever the device printed.
pub find_statement-IsCommand :
    (process : RoutingProcessFacts) (c : ℕ) (prefix found : Text)
    → is_space c ≡ false
    → find_statement process (c ∷ prefix) ≡ some found
    → IsCommand found
unfolding find_statement
find_statement-IsCommand process c prefix found e h =
    first_with-IsCommand (normalize_statement (c ∷ prefix)) process.statements
      (normalize-ne c prefix e) found h
