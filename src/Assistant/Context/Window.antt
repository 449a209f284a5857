-- ===== src/Assistant/Context/Window.antt =====
-- The window that `_trim_to_context_limit` of assistant/service.py keeps around the request.
use terraformer.Base.{
  ℕ, ◌+◌, ◌≤◌, ◌≡◌, refl, sym, ◌∙◌, ap, Bool, true, false, [], ◌∷◌, ◌++◌, append-nil, arith, ◌==◌,
  length, ◌⊎◌, inl, inr,
}
use terraformer.Assistant.Context.{
  ChatMessage, History, Around, cost, size, drop_leading_orphan, keep_newest, keep_earlier,
  trim_around,
}
use terraformer.Assistant.Context.Fits.{
  IsSuffix, size-append, Fits, keep_newest-Fits, drop-IsSuffix, suffix_trans, suffix_whole,
}

-- The window around the request: all of the pinned messages and the request; the newest of this turn,
-- and of the earlier ones only if this turn is whole; within the budget, unless nothing is kept beside
-- the pinned messages and the request.
unfoldable pub Trimmed : ℕ → History → Around → History → Type 0
Trimmed budget pins a r =
    (e : History) × ((t : History) × ((r ≡ pins ++ (e ++ (a.request ∷ t)))
        × (IsSuffix e a.earlier
            × (IsSuffix t a.turn
                × (((e ≡ []) ⊎ (t ≡ a.turn)) × ((size r ≤ budget) ⊎ ((e ≡ []) × (t ≡ []))))))))

size-window :
    (pins e t : History) (m : ChatMessage)
    → size (pins ++ (e ++ (m ∷ t))) ≡ size pins + (size e + (cost m + size t))
unfolding size
size-window pins e t m =
    size-append pins (e ++ (m ∷ t)) ∙ ap (λ (n : ℕ). size pins + n) (size-append e (m ∷ t))

-- What is dropped from nothing is nothing.
drop-nil : (ms : History) → ms ≡ [] → drop_leading_orphan ms ≡ []
unfolding drop_leading_orphan
drop-nil ms h = ap drop_leading_orphan h

-- The budget, from what the two windows used up.
within :
    (budget base used total : ℕ) (fit kept fit' e : History) (r : ℕ)
    → Fits budget base fit used
    → Fits budget used fit' total
    → size kept ≤ size fit
    → size e ≤ size fit'
    → (fit ≡ [] → kept ≡ [])
    → (fit' ≡ [] → e ≡ [])
    → r ≡ base + size e + size kept
    → (r ≤ budget) ⊎ ((e ≡ []) × (kept ≡ []))
unfolding Fits size
within budget base used total fit kept fit' e r (u, inr l) (v, inl empty) a b c d q =
    let z : size e ≡ 0 = ap size (d empty) in inl (omega (arith, z, u, l, a, q))
within budget base used total fit kept fit' e r (u, f) (v, inr l) a b c d q =
    inl (omega (arith, u, v, l, a, b, q))
within budget base used total fit kept fit' e r (u, inl empty) (v, inl none_fit) a b c d q =
    inr (d none_fit, c empty)

nothing-Fits : (budget used : ℕ) → Fits budget used [] used
unfolding Fits size
nothing-Fits budget used = (omega arith, inl refl)

pub trim_around-Trimmed :
    (budget : ℕ) (pins : History) (a : Around) → Trimmed budget pins a (trim_around budget pins a)
unfolding trim_around keep_earlier Trimmed
trim_around-Trimmed budget pins a = go (length kept == length a.turn) refl
  where
    base : ℕ
    base = size pins + cost a.request

    fit : History
    fit = (keep_newest budget base a.turn).0

    used : ℕ
    used = (keep_newest budget base a.turn).1

    kept : History
    kept = drop_leading_orphan fit

    fit' : History
    fit' = (keep_newest budget used a.earlier).0

    first : IsSuffix fit a.turn × Fits budget base fit used
    first = keep_newest-Fits budget base a.turn

    second : IsSuffix fit' a.earlier × Fits budget used fit' (keep_newest budget used a.earlier).1
    second = keep_newest-Fits budget used a.earlier

    whole : IsSuffix kept a.turn
    whole = suffix_trans kept fit a.turn (drop-IsSuffix fit).0 first.0

    window : (e : History) → size (pins ++ (e ++ (a.request ∷ kept))) ≡ base + size e + size kept
    window e = size-window pins e kept a.request ∙ omega arith

    go :
        (b : Bool)
        → (length kept == length a.turn) ≡ b
        → Trimmed budget pins a
            (pins ++ (keep_earlier budget used b a.earlier ++ (a.request ∷ kept)))
    go true h =
        let e = drop_leading_orphan fit' in
        (
          e,
          (
            kept,
            (
              refl,
              (
                suffix_trans e fit' a.earlier (drop-IsSuffix fit').0 second.0,
                (
                  whole,
                  (
                    inr (suffix_whole kept a.turn whole h),
                    within budget base used _ fit kept fit' e _ first.1 second.1
                        (drop-IsSuffix fit).1 (drop-IsSuffix fit').1 (drop-nil fit) (drop-nil fit')
                        (window e),
                  ),
                ),
              ),
            ),
          ),
        )
    go false h = (
      [],
      (
        kept,
        (
          refl,
          (
            (a.earlier, sym (append-nil a.earlier)),
            (
              whole,
              (
                inl refl,
                within budget base used used fit kept [] [] _ first.1 (nothing-Fits budget used)
                    (drop-IsSuffix fit).1 (omega arith) (drop-nil fit) (λ e. refl) (window []),
              ),
            ),
          ),
        ),
      ),
    )
