-- ===== src/Assistant/Context/Kept.antt =====
-- What `_trim_to_context_limit` of assistant/service.py keeps, and how large it is.
use terraformer.Base.{
  ℕ, ◌*◌, ◌≡◌, refl, sym, ◌∙◌, ap, subst, true, false, Option, none, some, [], ◌∷◌, ◌++◌,
  append-nil, All, All-left, Bool-cases, ◌⊎◌, inl, inr,
}
use terraformer.Assistant.Context.{
  ChatMessage, History, Around, is_system, is_user, pinned, after_pinned, around_user, around_last,
  trim_around, trim_rest, trim_to_context_limit, chars_per_token,
}
use terraformer.Assistant.Context.Window.{Trimmed, trim_around-Trimmed}

abbrev pub NotUser : ChatMessage → Type 0
NotUser m = is_user m.role ≡ false

-- The request is the newest user message, or the last message if no user wrote any.
pub IsNewest : Around → Type 0
IsNewest a =
    All NotUser a.turn × ((is_user a.request.role ≡ true) ⊎ ((a.turn ≡ []) × All NotUser a.earlier))

pub around_user-cases :
    (ms : History)
    → ((around_user ms ≡ none) × All NotUser ms)
      ⊎ ((a : Around) × ((around_user ms ≡ some a)
            × ((ms ≡ a.earlier ++ (a.request ∷ a.turn))
                × (All NotUser a.turn × (is_user a.request.role ≡ true)))))
unfolding around_user
around_user-cases [] = inl (refl, tt)
around_user-cases (m ∷ ms) = elim (around_user-cases ms) [
  | inl (e, h) ↦ here e h (Bool-cases (is_user m.role))
  | inr (a, (e, (q, r))) ↦ inr (
    record a { earlier = m ∷ a.earlier },
    (rw (e, around_user) refl, (ap (λ (l : History). m ∷ l) q, r)),
  )
]
  where
    here :
        around_user ms ≡ none
        → All NotUser ms
        → (is_user m.role ≡ true) ⊎ (is_user m.role ≡ false)
        → ((around_user (m ∷ ms) ≡ none) × All NotUser (m ∷ ms))
          ⊎ ((a : Around) × ((around_user (m ∷ ms) ≡ some a)
                × ((m ∷ ms ≡ a.earlier ++ (a.request ∷ a.turn))
                    × (All NotUser a.turn × (is_user a.request.role ≡ true)))))
    here e h (inl u) = inr (
      record { earlier = []; request = m; turn = ms },
      (rw (e, around_user, u) refl, (refl, (h, u))),
    )
    here e h (inr u) = inl (rw (e, around_user, u) refl, (u, h))

around_last-whole :
    (m : ChatMessage) (ms : History)
    → ((m ∷ ms)
        ≡ (around_last m ms).earlier ++ ((around_last m ms).request ∷ (around_last m ms).turn))
      × ((around_last m ms).turn ≡ [])
unfolding around_last
around_last-whole m [] = (refl, refl)
around_last-whole m (n ∷ ms) =
    let (q, t) = around_last-whole n ms in (ap (λ (l : History). m ∷ l) q, t)

pub split_pinned : (ms : History) → ms ≡ pinned ms ++ after_pinned ms
unfolding pinned after_pinned
split_pinned [] = refl
split_pinned (m ∷ ms) = elim (Bool-cases (is_system m.role)) [
  | inl e ↦ rw (e, pinned, after_pinned) (ap (λ (l : History). m ∷ l) (split_pinned ms))
  | inr e ↦ rw (e, pinned, after_pinned) refl
]

pub data TrimEnds (limit : ℕ) (history r : History) : Type 0 where
  only_pinned : after_pinned history ≡ [] → r ≡ history → TrimEnds limit history r
  around :
      (a : Around)
      → history ≡ pinned history ++ (a.earlier ++ (a.request ∷ a.turn))
      → IsNewest a
      → Trimmed (limit * chars_per_token) (pinned history) a r
      → TrimEnds limit history r

trim_rest-none :
    (budget : ℕ) (pins : History) (m : ChatMessage) (ms : History)
    → around_user (m ∷ ms) ≡ none
    → trim_rest budget pins (m ∷ ms) ≡ trim_around budget pins (around_last m ms)
unfolding trim_rest
trim_rest-none budget pins m ms h =
    ap
      (λ (o : Option Around). elim o [
        | some a ↦ trim_around budget pins a
        | none ↦ trim_around budget pins (around_last m ms)
      ])
      h

pub trim_rest-some :
    (budget : ℕ) (pins : History) (m : ChatMessage) (ms : History) (a : Around)
    → around_user (m ∷ ms) ≡ some a
    → trim_rest budget pins (m ∷ ms) ≡ trim_around budget pins a
unfolding trim_rest
trim_rest-some budget pins m ms a h =
    ap
      (λ (o : Option Around). elim o [
        | some a ↦ trim_around budget pins a
        | none ↦ trim_around budget pins (around_last m ms)
      ])
      h

-- A history that is trimmed keeps its leading system messages and the newest user message, the
-- request, whatever the budget. Beside these it keeps the newest messages after the request, and the
-- newest before it only if all after it are kept; and it is within the budget, unless it is the system
-- messages and the request alone.
pub trim-TrimEnds :
    (history : History) (limit : ℕ)
    → TrimEnds limit history (trim_to_context_limit history (some limit))
unfolding trim_to_context_limit IsNewest
trim-TrimEnds history limit = go (after_pinned history) refl
  where
    go :
        (rest : History)
        → after_pinned history ≡ rest
        → TrimEnds limit history (trim_rest (limit * chars_per_token) (pinned history) rest)
    go [] e = only_pinned e (
        sym (
          split_pinned history
          ∙ ap (λ (l : History). pinned history ++ l) e
          ∙ append-nil (pinned history)))
    go (m ∷ ms) e = elim (around_user-cases (m ∷ ms)) [
      | inl (n, h) ↦
          let (q, t) = around_last-whole m ms in
          subst (TrimEnds limit history)
            (sym (trim_rest-none (limit * chars_per_token) (pinned history) m ms n))
            (around (around_last m ms) (whole (m ∷ ms) e q)
              (nobody (around_last m ms) t (subst (All NotUser) q h))
              (trim_around-Trimmed (limit * chars_per_token) (pinned history) (around_last m ms)))
      | inr (a, (n, (q, (h, u)))) ↦
          subst (TrimEnds limit history)
            (sym (trim_rest-some (limit * chars_per_token) (pinned history) m ms a n))
            (around a (whole (m ∷ ms) e q) (h, inl u)
              (trim_around-Trimmed (limit * chars_per_token) (pinned history) a))
    ]
      where
        whole :
            (rest : History) {l : History}
            → after_pinned history ≡ rest
            → rest ≡ l
            → history ≡ pinned history ++ l
        whole rest p q = split_pinned history ∙ ap (λ (l : History). pinned history ++ l) (p ∙ q)

        nobody :
            (a : Around)
            → a.turn ≡ []
            → All NotUser (a.earlier ++ (a.request ∷ a.turn))
            → IsNewest a
        nobody a t h = (
          subst (All NotUser) (sym t) tt,
          inr (t, All-left NotUser a.earlier (a.request ∷ a.turn) h),
        )
