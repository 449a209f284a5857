-- ===== src/Text/Lines.antt =====
-- Texts of one line, and how `splitlines` undoes a join by newlines.
use terraformer.Base.{
  ℕ, ◌≡◌, ◌≢◌, refl, ap, ◌∙◌, false, List, [], ◌∷◌, ◌++◌, append-nil, append_assoc, arith, All,
  All-concat, Bool, Bool-cases, inl, inr, ◌&&◌, ◌==◌, true, sym, subst,
}
use terraformer.Text.{Text, codes, is_break, is_space, emit, join, lines_from, splitlines}

-- No character of the text ends a line.
abbrev pub IsLine : Text → Type 0
IsLine = All (λ c. is_break c ≡ false)

-- A text that stands for one line of a batch: it is not empty and ends no line.
abbrev pub IsCommand : Text → Type 0
IsCommand s = (s ≢ []) × IsLine s

abbrev pub newline : Text
newline = codes "\n"

pub is_break-is_space : (c : ℕ) → is_space c ≡ false → is_break c ≡ false
unfolding is_break is_space
is_break-is_space c h = ground arith

append-cons : (line : Text) (c : ℕ) (s : Text) → (line ++ c ∷ []) ++ s ≡ line ++ (c ∷ s)
append-cons line c s = append_assoc line (c ∷ []) s

lines_from-step :
    (line : Text) (c : ℕ) (s : Text)
    → is_break c ≡ false
    → lines_from false line (c ∷ s) ≡ lines_from false (line ++ c ∷ []) s
unfolding lines_from
lines_from-step line c s h = rw (h, lines_from)

lines_from_last : (line s : Text) → IsLine s → lines_from false line s ≡ emit (line ++ s) []
unfolding lines_from
lines_from_last line [] h = rw append-nil
lines_from_last line (c ∷ s) h =
    lines_from-step line c s h.0
    ∙ lines_from_last (line ++ c ∷ []) s h.1
    ∙ ap (λ l. emit l []) (append-cons line c s)

lines_from_more :
    (line s rest : Text)
    → IsLine s
    → lines_from false line (s ++ 10 ∷ rest) ≡ (line ++ s) ∷ lines_from false [] rest
unfolding lines_from is_break
lines_from_more line [] rest h = rw append-nil
lines_from_more line (c ∷ s) rest h =
    lines_from-step line c (s ++ 10 ∷ rest) h.0
    ∙ lines_from_more (line ++ c ∷ []) s rest h.1
    ∙ ap (λ l. l ∷ lines_from false [] rest) (append-cons line c s)

emit_ne : (s : Text) → s ≢ [] → emit s [] ≡ s ∷ []
emit_ne [] h = absurd (h refl)
emit_ne (c ∷ s) h = refl

-- A batch of commands joined by newlines is split back into the same commands.
pub splitlines-join : (ws : List Text) → All IsCommand ws → splitlines (join newline ws) ≡ ws
unfolding splitlines join
splitlines-join [] h = refl
splitlines-join (w ∷ []) h = lines_from_last [] w h.0.1 ∙ emit_ne w h.0.0
splitlines-join (w ∷ v ∷ ws) h =
    lines_from_more [] w (join newline (v ∷ ws)) h.0.1
    ∙ ap (λ l. w ∷ l) (splitlines-join (v ∷ ws) h.1)

lines_from-after_cr :
    (cr : Bool) (line : Text) (c : ℕ) (s : Text)
    → (cr && c == 10) ≡ true
    → lines_from cr line (c ∷ s) ≡ lines_from false line s
unfolding lines_from
lines_from-after_cr cr line c s e = rw (lines_from, e) refl

lines_from-break :
    (cr : Bool) (line : Text) (c : ℕ) (s : Text)
    → (cr && c == 10) ≡ false
    → is_break c ≡ true
    → lines_from cr line (c ∷ s) ≡ line ∷ lines_from (c == 13) [] s
unfolding lines_from
lines_from-break cr line c s e b = rw (lines_from, e, b) refl

lines_from-inside :
    (cr : Bool) (line : Text) (c : ℕ) (s : Text)
    → (cr && c == 10) ≡ false
    → is_break c ≡ false
    → lines_from cr line (c ∷ s) ≡ lines_from false (line ++ c ∷ []) s
unfolding lines_from
lines_from-inside cr line c s e b = rw (lines_from, e, b) refl

lines_from-All : (cr : Bool) (line s : Text) → IsLine line → All IsLine (lines_from cr line s)
unfolding lines_from
lines_from-All cr [] [] h = tt
lines_from-All cr (c ∷ line) [] h = (h, tt)
lines_from-All cr line (c ∷ s) h = elim (Bool-cases (cr && c == 10)) [
  | inl e ↦
      subst (All IsLine) (sym (lines_from-after_cr cr line c s e)) (lines_from-All false line s h)
  | inr e ↦ elim (Bool-cases (is_break c)) [
    | inl b ↦
        subst (All IsLine) (sym (lines_from-break cr line c s e b))
          (h, lines_from-All (c == 13) [] s tt)
    | inr b ↦
        subst (All IsLine) (sym (lines_from-inside cr line c s e b)) (
          lines_from-All false (line ++ c ∷ []) s (All-concat (λ d. is_break d ≡ false) line c h b))
  ]
]

-- Each line of a text is a single line.
pub splitlines-IsLine : (s : Text) → All IsLine (splitlines s)
unfolding splitlines
splitlines-IsLine s = lines_from-All false [] s tt
