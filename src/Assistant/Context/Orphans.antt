-- ===== src/Assistant/Context/Orphans.antt =====
-- A tool result stands behind the assistant's turn that announced it, or behind another result; the
-- provider rejects a conversation where one does not. `_trim_to_context_limit` of
-- assistant/service.py keeps it so.
use terraformer.Base.{
  ℕ, ◌+◌, ◌*◌, ◌≡◌, refl, sym, ◌∙◌, ap, subst, Bool, true, false, ◌&&◌, some, [], ◌∷◌, ◌++◌,
  append_assoc, arith, ◌==◌, if◌then◌else◌, length, any, All, inl, inr,
}
use terraformer.Assistant.Context.{
  ChatMessage, History, Around, Role, system, user, assistant, tool, is_user, is_tool, size, cost,
  drop_leading_orphan, pinned, after_pinned, keep_newest, keep_earlier, trim_around, trim_rest,
  trim_to_context_limit, chars_per_token,
}
use terraformer.Assistant.Context.Fits.{IsSuffix, keep_newest-Fits}
use terraformer.Assistant.Context.Kept.{split_pinned, around_user-cases, trim_rest-some, NotUser}

abbrev pub is_assistant : Role → Bool
is_assistant system = false
is_assistant user = false
is_assistant assistant = true
is_assistant tool = false

-- Every result stands behind a turn of the assistant or another result; the flag says whether what
-- stands before the list is one.
unfoldable pub is_answered : Bool → History → Bool
is_answered b [] = true
is_answered b (m ∷ ms) =
    if is_tool m.role then b && is_answered true ms else is_answered (is_assistant m.role) ms

answered-nil : (b : Bool) → is_answered b [] ≡ true
unfolding is_answered
answered-nil b = refl

answered-weaken : (b : Bool) (ms : History) → is_answered b ms ≡ true → is_answered true ms ≡ true
unfolding is_answered
answered-weaken b [] h = refl
answered-weaken b (m ∷ ms) h = ground (arith, h)

answered-prefix :
    (b : Bool) (xs ys : History) → is_answered b (xs ++ ys) ≡ true → is_answered b xs ≡ true
unfolding is_answered
answered-prefix b [] ys h = refl
answered-prefix b (m ∷ xs) ys h =
    ground (arith, h, answered-prefix true xs ys, answered-prefix (is_assistant m.role) xs ys)

answered-behind :
    (b : Bool) (front s : History) → is_answered b (front ++ s) ≡ true → is_answered true s ≡ true
unfolding is_answered
answered-behind b [] s h = answered-weaken b s h
answered-behind b (m ∷ front) s h =
    ground (arith, h, answered-behind true front s, answered-behind (is_assistant m.role) front s)

answered-suffix :
    (b : Bool) (s l : History) → IsSuffix s l → is_answered b l ≡ true → is_answered true s ≡ true
answered-suffix b s l (front, q) h =
    answered-behind b front s (subst (λ (x : History). is_answered b x ≡ true) q h)

answered-drop :
    (ms : History) → is_answered true ms ≡ true → is_answered false (drop_leading_orphan ms) ≡ true
unfolding is_answered drop_leading_orphan
answered-drop [] h = refl
answered-drop (m ∷ ms) h = ground (arith, h, answered-drop ms)

answered-pinned :
    (history r : History) → is_answered false (pinned history ++ r) ≡ is_answered false r
unfolding is_answered pinned
answered-pinned [] r = refl
answered-pinned (m ∷ ms) r = ground (arith, answered-pinned ms r)

answered-glue :
    (b : Bool) (e t : History) (m : ChatMessage)
    → is_answered b e ≡ true
    → is_user m.role ≡ true
    → is_answered false t ≡ true
    → is_answered b (e ++ (m ∷ t)) ≡ true
unfolding is_answered
answered-glue b [] t m h u k = ground (arith, u, k)
answered-glue b (x ∷ e) t m h u k =
    ground (arith, h, u, k, answered-glue true e t m, answered-glue (is_assistant x.role) e t m)

no_user : (ms : History) → All NotUser ms → any (λ (m : ChatMessage). is_user m.role) ms ≡ false
no_user [] h = refl
no_user (m ∷ ms) h = rw (h.0, no_user ms h.1) refl

trim_around-answered :
    (budget : ℕ) (history : History) (a : Around)
    → is_answered false (a.earlier ++ (a.request ∷ a.turn)) ≡ true
    → is_user a.request.role ≡ true
    → is_answered false (trim_around budget (pinned history) a) ≡ true
unfolding trim_around keep_earlier
trim_around-answered budget history a h u =
    answered-pinned history _
    ∙ answered-glue false _ kept a.request (before (length kept == length a.turn)) u answered
  where
    base : ℕ
    base = size (pinned history) + cost a.request

    fit : History
    fit = (keep_newest budget base a.turn).0

    used : ℕ
    used = (keep_newest budget base a.turn).1

    kept : History
    kept = drop_leading_orphan fit

    answered : is_answered false kept ≡ true
    answered = answered-drop fit (
        answered-suffix true fit a.turn (keep_newest-Fits budget base a.turn).0 (
          answered-behind false (a.earlier ++ (a.request ∷ [])) a.turn (
            subst (λ (x : History). is_answered false x ≡ true)
              (sym (append_assoc a.earlier (a.request ∷ []) a.turn)) h)))

    before : (b : Bool) → is_answered false (keep_earlier budget used b a.earlier) ≡ true
    before true = answered-drop (keep_newest budget used a.earlier).0 (
        answered-suffix false _ a.earlier (keep_newest-Fits budget used a.earlier).0
          (answered-prefix false a.earlier (a.request ∷ a.turn) h))
    before false = answered-nil false

-- A conversation with a user's message in it, in which every tool result is answered for, is still so
-- when it is trimmed, to whatever limit. The ids of calls are not compared.
pub trim-answered :
    (history : History) (limit : ℕ)
    → any (λ (m : ChatMessage). is_user m.role) (after_pinned history) ≡ true
    → is_answered false history ≡ true
    → is_answered false (trim_to_context_limit history (some limit)) ≡ true
unfolding trim_to_context_limit
trim-answered history limit some_user h = go (after_pinned history) refl
  where
    go :
        (rest : History)
        → after_pinned history ≡ rest
        → is_answered false (trim_rest (limit * chars_per_token) (pinned history) rest) ≡ true
    go [] e = cc (some_user, ap (any (λ (m : ChatMessage). is_user m.role)) e)
    go (m ∷ ms) e = elim (around_user-cases (m ∷ ms)) [
      | inl (n, q) ↦
          cc (some_user, ap (any (λ (m : ChatMessage). is_user m.role)) e, no_user (m ∷ ms) q)
      | inr (a, (n, (q, (t, u)))) ↦
          ap (is_answered false)
            (trim_rest-some (limit * chars_per_token) (pinned history) m ms a n)
          ∙ trim_around-answered (limit * chars_per_token) history a
              (sym (answered-pinned history _)
                ∙ ap (is_answered false)
                    (sym (split_pinned history ∙ ap (λ (l : History). pinned history ++ l) (e ∙ q)))
                ∙ h)
              u
    ]
