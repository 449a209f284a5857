-- ===== src/Drivers/Cisco/Render/Commands.antt =====
-- Lists of commands that are one line each.
use terraformer.Base.{
  ◌≡◌, inl, inr, Bool, true, false, not, Option, none, some, List, [], ◌∷◌, ◌++◌, all, is_empty,
  All, Bool-cases, find,
}
use terraformer.Text.{Text, is_break}
use terraformer.Text.Lines.{IsLine, IsCommand}
use terraformer.Text.Ends.{no_breaks, line_append}
use terraformer.Drivers.Cisco.Batch.{Rendered, rendered, unsupported, value_error}

-- The commands of a batch are one line each, those that undo it too.
abbrev pub OneLine : Rendered → Type 0
OneLine (rendered change) = All IsCommand change.commands × All IsCommand change.inverse_commands
OneLine unsupported = Unit
OneLine value_error = Unit

abbrev pub Given : {A : Type 0} → (A → Type 0) → Option A → Type 0
Given P none = Unit
Given P (some a) = P a

pub find-Given :
    {A : Type 0} (P : A → Type 0) (p : A → Bool) (xs : List A) → All P xs → Given P (find p xs)
find-Given P p [] h = tt
find-Given P p (x ∷ xs) h = elim (Bool-cases (p x)) [
  | inl e ↦ rw e h.0
  | inr e ↦ rw e (find-Given P p xs h.1)
]

-- A literal in front of a line.
pub command :
    (p s : Text)
    → is_empty p ≡ false
    → all (λ c. not (is_break c)) p ≡ true
    → IsLine s
    → IsCommand (p ++ s)
command [] s e h l = cc e
command (c ∷ p) s e h l = (λ x. cc x, line_append (c ∷ p) s (no_breaks (c ∷ p) h) l)

pub literal : (p : Text) → is_empty p ≡ false → all (λ c. not (is_break c)) p ≡ true → IsCommand p
literal [] e h = cc e
literal (c ∷ p) e h = (λ x. cc x, no_breaks (c ∷ p) h)

pub one : {a : Text} → IsCommand a → All IsCommand (a ∷ [])
one x = (x, tt)

pub two : {a b : Text} → IsCommand a → IsCommand b → All IsCommand (a ∷ b ∷ [])
two x y = (x, (y, tt))

pub three :
    {a b c : Text} → IsCommand a → IsCommand b → IsCommand c → All IsCommand (a ∷ b ∷ c ∷ [])
three x y z = (x, (y, (z, tt)))
