-- ===== src/Text/Words.antt =====
-- `split` and `collapse`: tokens hold no white space, and joined words are split again.
pub mod Normal
use terraformer.Base.{
  ℕ, ◌≡◌, ◌≢◌, refl, ap, ◌∙◌, true, false, List, [], ◌∷◌, ◌++◌, append-nil, append_assoc, All,
  All-append, All-concat, Bool-cases, inl, inr,
}
use terraformer.Text.{Text, codes, is_space, emit, join, words_from, words, collapse}

abbrev pub IsDark : ℕ → Type 0
IsDark c = is_space c ≡ false

-- A token of `split`: not empty, and no white space inside.
abbrev pub IsWord : Text → Type 0
IsWord w = (w ≢ []) × All IsDark w

append-ne-nil : (w : Text) (c : ℕ) → w ++ c ∷ [] ≢ []
append-ne-nil [] c h = cc
append-ne-nil (d ∷ w) c h = cc

words_from-space :
    (w : Text) (c : ℕ) (s : Text)
    → is_space c ≡ true
    → words_from w (c ∷ s) ≡ emit w (words_from [] s)
unfolding words_from
words_from-space w c s h = rw (h, words_from)

words_from-dark :
    (w : Text) (c : ℕ) (s : Text)
    → is_space c ≡ false
    → words_from w (c ∷ s) ≡ words_from (w ++ c ∷ []) s
unfolding words_from
words_from-dark w c s h = rw (h, words_from)

emit-All : (w : Text) (ws : List Text) → All IsDark w → All IsWord ws → All IsWord (emit w ws)
emit-All [] ws h k = k
emit-All (c ∷ w) ws h k = (((λ e. cc), h), k)

words_from-All : (w s : Text) → All IsDark w → All IsWord (words_from w s)
unfolding words_from
words_from-All w [] h = emit-All w [] h tt
words_from-All w (c ∷ s) h = elim (Bool-cases (is_space c)) [
  | inl e ↦ rw (words_from-space w c s e) (emit-All w (words_from [] s) h (words_from-All [] s tt))
  | inr e ↦
      rw (words_from-dark w c s e) (words_from-All (w ++ c ∷ []) s (All-concat IsDark w c h e))
]

-- The tokens of any text are words.
pub words-IsWord : (s : Text) → All IsWord (words s)
unfolding words
words-IsWord s = words_from-All [] s tt

append-cons : (w : Text) (c : ℕ) (s : Text) → (w ++ c ∷ []) ++ s ≡ w ++ (c ∷ s)
append-cons w c s = append_assoc w (c ∷ []) s

words_from_last : (w v : Text) → All IsDark v → words_from w v ≡ emit (w ++ v) []
unfolding words_from
words_from_last w [] h = rw append-nil
words_from_last w (c ∷ v) h =
    words_from-dark w c v h.0
    ∙ words_from_last (w ++ c ∷ []) v h.1
    ∙ ap (λ l. emit l []) (append-cons w c v)

words_from_more :
    (w v rest : Text)
    → All IsDark v
    → words_from w (v ++ 32 ∷ rest) ≡ emit (w ++ v) (words_from [] rest)
unfolding words_from is_space
words_from_more w [] rest h = rw append-nil
words_from_more w (c ∷ v) rest h =
    words_from-dark w c (v ++ 32 ∷ rest) h.0
    ∙ words_from_more (w ++ c ∷ []) v rest h.1
    ∙ ap (λ l. emit l (words_from [] rest)) (append-cons w c v)

emit_ne : (s : Text) (rest : List Text) → s ≢ [] → emit s rest ≡ s ∷ rest
emit_ne [] rest h = absurd (h refl)
emit_ne (c ∷ s) rest h = refl

-- Words joined by single spaces are split back into the same words.
pub words-join : (ws : List Text) → All IsWord ws → words (join (codes " ") ws) ≡ ws
unfolding words join
words-join [] h = refl
words-join (w ∷ []) h = words_from_last [] w h.0.1 ∙ emit_ne w [] h.0.0
words-join (w ∷ v ∷ ws) h =
    words_from_more [] w (join (codes " ") (v ∷ ws)) h.0.1
    ∙ emit_ne w _ h.0.0
    ∙ ap (λ l. w ∷ l) (words-join (v ∷ ws) h.1)

pub words-collapse : (s : Text) → words (collapse s) ≡ words s
unfolding collapse
words-collapse s = words-join (words s) (words-IsWord s)

-- What holds of the separator and of the parts' characters holds of the joined text.
pub join-All {κ} :
    (P : ℕ → Type κ) (sep : Text) (ws : List Text)
    → All P sep
    → All (All P) ws
    → All P (join sep ws)
unfolding join
join-All P sep [] hs h = tt
join-All P sep (w ∷ []) hs h = h.0
join-All P sep (w ∷ v ∷ ws) hs h =
    All-append P w _ h.0 (All-append P sep _ hs (join-All P sep (v ∷ ws) hs h.1))

words_from-ne : (d : ℕ) (w s : Text) → words_from (d ∷ w) s ≢ []
unfolding words_from
words_from-ne d w [] = λ e. cc e
words_from-ne d w (c ∷ s) = elim (Bool-cases (is_space c)) [
  | inl e ↦ rw (words_from-space (d ∷ w) c s e) (λ x. cc x)
  | inr e ↦ rw (words_from-dark (d ∷ w) c s e) (words_from-ne d (w ++ c ∷ []) s)
]

join-ne : (sep : Text) (ws : List Text) → All IsWord ws → ws ≢ [] → join sep ws ≢ []
unfolding join
join-ne sep [] h n = absurd (n refl)
join-ne sep ([] ∷ ws) h n = absurd (h.0.0 refl)
join-ne sep ((c ∷ w) ∷ []) h n = λ e. cc e
join-ne sep ((c ∷ w) ∷ v ∷ ws) h n = λ e. cc e

-- A text that starts with a dark character does not collapse to nothing.
pub collapse-ne : (c : ℕ) (s : Text) → is_space c ≡ false → collapse (c ∷ s) ≢ []
unfolding collapse words
collapse-ne c s e =
    join-ne (codes " ") (words_from [] (c ∷ s)) (words_from-All [] (c ∷ s) tt)
      (rw (words_from-dark [] c s e) (words_from-ne c [] s))
