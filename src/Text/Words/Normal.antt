-- ===== src/Text/Words/Normal.antt =====
-- The words of a text in lower case.
use terraformer.Base.{◌≡◌, refl, ap, sym, ◌∙◌, List, [], ◌∷◌, ◌++◌, Bool-cases, inl, inr}
use terraformer.Text.{Text, codes, is_space, to_lower, lower, emit, words_from, words, join}
use terraformer.Text.Strip.{is_space-to_lower}
use terraformer.Text.Words.{words_from-space, words_from-dark}

lower-append : (s t : Text) → lower (s ++ t) ≡ lower s ++ lower t
unfolding lower
lower-append [] t = refl
lower-append (c ∷ s) t = ap (λ (r : Text). to_lower c ∷ r) (lower-append s t)

abbrev pub lowers : List Text → List Text
lowers [] = []
lowers (w ∷ ws) = lower w ∷ lowers ws

emit-lower : (w : Text) (ws : List Text) → emit (lower w) (lowers ws) ≡ lowers (emit w ws)
unfolding lower
emit-lower [] ws = refl
emit-lower (c ∷ w) ws = refl

words_from-lower : (w s : Text) → words_from (lower w) (lower s) ≡ lowers (words_from w s)
unfolding words_from lower
words_from-lower w [] = emit-lower w []
words_from-lower w (c ∷ s) = elim (Bool-cases (is_space c)) [
  | inl e ↦
      words_from-space (lower w) (to_lower c) (lower s) (is_space-to_lower c ∙ e)
      ∙ ap (emit (lower w)) (words_from-lower [] s)
      ∙ emit-lower w (words_from [] s)
      ∙ ap lowers (sym (words_from-space w c s e))
  | inr e ↦
      words_from-dark (lower w) (to_lower c) (lower s) (is_space-to_lower c ∙ e)
      ∙ ap (λ (v : Text). words_from v (lower s)) (sym (lower-append w (c ∷ [])))
      ∙ words_from-lower (w ++ c ∷ []) s
      ∙ ap lowers (sym (words_from-dark w c s e))
]

pub join-lowers : (ws : List Text) → join (codes " ") (lowers ws) ≡ lower (join (codes " ") ws)
unfolding join lower to_lower
join-lowers [] = refl
join-lowers (w ∷ []) = refl
join-lowers (w ∷ v ∷ ws) =
    ap (λ (t : Text). lower w ++ (codes " " ++ t)) (join-lowers (v ∷ ws))
    ∙ sym (lower-append w (codes " " ++ join (codes " ") (v ∷ ws)))

pub words-lower : (s : Text) → words (lower s) ≡ lowers (words s)
unfolding words lower
words-lower s = words_from-lower [] s
