-- ===== src/Drivers/Facts/Spelling.antt =====
-- Lookups of statements and processes do not depend on how they are spelled.
use terraformer.Base.{◌≡◌, sym, ap, ◌∙◌, any, find, map}
use terraformer.Text.{Text, codes, lower, words, join, collapse, same}
use terraformer.Text.Words.Normal.{lowers, join-lowers}
use terraformer.Changes.Routing.{normalize_statement}
use terraformer.Drivers.Facts.{
  RoutingProcessFacts, ChangeContext, same_statement, has_statement, find_statement, first_with,
  routing_process,
}

-- The normal form is made of the words in lower case, with one blank between them.
pub normalize_words : (s : Text) → normalize_statement s ≡ join (codes " ") (lowers (words s))
unfolding normalize_statement collapse
normalize_words s = sym (join-lowers (words s))

-- Two spellings with one normal form are found alike.
lookups_ignore_spelling :
    (process : RoutingProcessFacts) (context : ChangeContext) (s t : Text)
    → normalize_statement s ≡ normalize_statement t
    → (has_statement process s ≡ has_statement process t)
      × ((find_statement process s ≡ find_statement process t)
          × (routing_process context s ≡ routing_process context t))
unfolding has_statement find_statement routing_process same_statement
lookups_ignore_spelling process context s t h = (
  ap (λ (n : Text). any (λ line. same (normalize_statement line) n) process.statements) h,
  (
    ap (λ (n : Text). first_with n process.statements) h,
    ap (λ (n : Text). find (λ p. same (normalize_statement p.name) n) context.routing_processes) h,
  ),
)

-- Two texts with the same words, apart from their case and however they are spaced, are found alike:
-- among the statements of a process, as the start of one, and as the name of a process.
pub lookups_by_words :
    (process : RoutingProcessFacts) (context : ChangeContext) (s t : Text)
    → map lower (words s) ≡ map lower (words t)
    → (has_statement process s ≡ has_statement process t)
      × ((find_statement process s ≡ find_statement process t)
          × (routing_process context s ≡ routing_process context t))
lookups_by_words process context s t h =
    lookups_ignore_spelling process context s t
      (normalize_words s ∙ ap (join (codes " ")) h ∙ sym (normalize_words t))
