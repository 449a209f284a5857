-- ===== src/Assistant/Allowance/Bounded.antt =====
-- Auto mode's allowance is a bound: repositories/assistant.py `MAX_AUTO_APPLIES_PER_SESSION`.
use terraformer.Base.{
  ℕ, suc, ◌+◌, ◌≤◌, ◌≡◌, refl, sym, ◌∙◌, ap, inl, inr, Bool, true, false, not, ◌&&◌, ◌==◌, ==_iff,
  Option, none, some, List, [], ◌∷◌, if◌then◌else◌, arith, All, Bool-cases, Option-cases,
}
use terraformer.Text.{Text}
use terraformer.Pipeline.{returned}
use terraformer.Jobs.Queue.{Services}
use terraformer.Jobs.Rows.{one_if}
use terraformer.Assistant.Allowance.{
  AssistantSessionMode, confirm, auto, AssistantSession, Sessions, World, max_auto_applies, is_auto,
  put_session, charged, record_auto_apply, begin_apply, settle, apply_change_plan, with_mode,
  set_mode, set_model, Request, apply_plan, switch_mode, switch_model, handle,
}
use terraformer.Assistant.Allowance.Charges.{
  is_returned, is_auto_chat, charge-cases, settled, settled-sessions, settled-free,
}

-- The request is an apply that Auto mode of this conversation fires, and its job is accepted.
unfoldable pub auto_applied : Services → ℕ → ℕ → Request → World → Bool
auto_applied services now s (apply_plan id none) w = false
auto_applied services now s (apply_plan id (some k)) w =
    k == s
    && (is_auto_chat (w.sessions k) && is_returned (apply_change_plan services now id (some k) w).0)
auto_applied services now s (switch_mode id mode risk_acknowledged) w = false
auto_applied services now s (switch_model id model) w = false

-- The request turns this conversation's Auto mode on.
abbrev pub renews : ℕ → Request → Bool
renews s (switch_mode id mode risk_acknowledged) = id == s && (is_auto mode && risk_acknowledged)
renews s (apply_plan id session) = false
renews s (switch_model id model) = false

-- How many applies of this conversation's Auto mode are accepted in a row of requests, each with its time.
unfoldable pub auto_applies : Services → ℕ → List (ℕ × Request) → World → ℕ
unfolding auto_applied handle
auto_applies services s [] w = 0
auto_applies services s ((now, r) ∷ rs) w =
    one_if (auto_applied services now s r w) + auto_applies services s rs (handle services now r w)

-- The conversation is there, and has used `n` of its allowance.
abbrev Used : ℕ → ℕ → Sessions → Type 0
Used s n sessions =
    (c : AssistantSession) × ((sessions s ≡ some c)
      × ((c.auto_apply_count ≤ max_auto_applies) × (c.auto_apply_count ≡ n)))

some_inj : {a b : AssistantSession} → some a ≡ some b → a ≡ b
some_inj x = cc x

eq_comm : (k s : ℕ) → (k == s) ≡ true → (s == k) ≡ true
eq_comm k s e = ground (arith, e)

ne_comm : (k s : ℕ) → (k == s) ≡ false → (s == k) ≡ false
ne_comm k s e = ground (arith, e)

module _ (s : ℕ) (before : Sessions) (chat : AssistantSession) (found : before s ≡ some chat)
    (within : chat.auto_apply_count ≤ max_auto_applies) where
  unused : (after : Sessions) → after ≡ before → Used s (0 + chat.auto_apply_count) after
  unused after e = (chat, (ap (λ (f : Sessions). f s) e ∙ found, (within, omega arith)))

  none_unused :
      (after : Sessions) (b : Bool)
      → b ≡ false
      → after ≡ before
      → Used s (one_if b + chat.auto_apply_count) after
  none_unused after b e p = rw (e) (unused after p)

  same_count :
      (k : ℕ) (c : AssistantSession)
      → before k ≡ some c
      → (k == s) ≡ true
      → suc c.auto_apply_count ≡ suc chat.auto_apply_count
  same_count k c e q =
      ap (λ (x : AssistantSession). suc x.auto_apply_count)
        (some_inj (sym e ∙ ap before ((==_iff k s).0 q) ∙ found))

  spent :
      (k : ℕ) (c : AssistantSession) (b : Bool) (after : Sessions)
      → before k ≡ some c
      → suc c.auto_apply_count ≤ max_auto_applies
      → is_auto_chat (before k) ≡ true
      → after ≡ (if b then put_session k (record_auto_apply c c) before else before)
      → Used s (one_if (k == s && (is_auto_chat (before k) && b)) + chat.auto_apply_count) after
  unfolding put_session
  spent k c false after e l a p = rw (a) (none_unused after (k == s && false) (ground arith) p)
  spent k c true after e l a p = elim (Bool-cases (k == s)) [
    | inl q ↦
        rw (a, q)
          (
            record_auto_apply c c,
            (
              ap (λ (f : Sessions). f s) p ∙ rw (eq_comm k s q) refl,
              (l, same_count k c e q ∙ omega arith),
            ),
          )
    | inr q ↦
        rw (a, q)
          (chat, (ap (λ (f : Sessions). f s) p ∙ rw (ne_comm k s q) found, (within, omega arith)))
  ]

  -- A row that is written back with the same count.
  rewritten :
      (k : ℕ) (c new : AssistantSession)
      → before k ≡ some c
      → ((k == s) ≡ true → new.auto_apply_count ≡ c.auto_apply_count)
      → Used s (0 + chat.auto_apply_count) (put_session k new before)
  unfolding put_session
  rewritten k c new e same = elim (Bool-cases (k == s)) [
    | inl q ↦
        let n = same_count k c e q in
        let kept = same q in
        (new, (rw (eq_comm k s q) refl, (omega (arith, n, kept), omega (arith, n, kept))))
    | inr q ↦ (chat, (rw (ne_comm k s q) found, (within, omega arith)))
  ]

never : (a b : Bool) → (a && (b && false)) ≡ false
never a b = ground arith

unowned : (a b c : Bool) → b ≡ false → (a && (b && c)) ≡ false
unowned a b c e = ground (arith, e)

apply-Used :
    (services : Services) (now id : ℕ) (session : Option ℕ) (w : World) (s : ℕ)
    (chat : AssistantSession)
    → w.sessions s ≡ some chat
    → chat.auto_apply_count ≤ max_auto_applies
    → Used s
        (one_if (auto_applied services now s (apply_plan id session) w) + chat.auto_apply_count)
        (apply_change_plan services now id session w).1.sessions
unfolding apply_change_plan begin_apply settle auto_applied charged
apply-Used services now id none w s chat f h = elim (Option-cases (w.plans id)) [
  | inl e ↦ rw (e, apply_change_plan, begin_apply) (unused s w.sessions chat f h w.sessions refl)
  | inr (plan, e) ↦
      rw (e, apply_change_plan, begin_apply)
        (unused s w.sessions chat f h (settled services now plan (returned none) w).1.sessions
          (settled-free services now plan w))
]
apply-Used services now id (some k) w s chat f h = elim (Option-cases (w.plans id)) [
  | inl e ↦
      rw (e, apply_change_plan, begin_apply)
        (none_unused s w.sessions chat f h w.sessions
          (k == s && (is_auto_chat (w.sessions k) && false))
          (never (k == s) (is_auto_chat (w.sessions k))) refl)
  | inr (plan, e) ↦ elim (charge-cases k (w.sessions k)) [
    | inl (c, (g, (a, (l, q)))) ↦
        rw (e, apply_change_plan, begin_apply, q)
          (spent s w.sessions chat f h k c
            (is_returned (settled services now plan (returned (some (k, c))) w).0)
            (settled services now plan (returned (some (k, c))) w).1.sessions g l
            (ap is_auto_chat g ∙ a) (settled-sessions services now k plan c w g))
    | inr (inl (x, q)) ↦
        rw (e, apply_change_plan, begin_apply, q)
          (none_unused s w.sessions chat f h w.sessions
            (k == s && (is_auto_chat (w.sessions k) && false))
            (never (k == s) (is_auto_chat (w.sessions k))) refl)
    | inr (inr (a, q)) ↦
        rw (e, apply_change_plan, begin_apply, q)
          (none_unused s w.sessions chat f h
            (settled services now plan (returned none) w).1.sessions
            (k == s
              && (is_auto_chat (w.sessions k)
                  && is_returned (settled services now plan (returned none) w).0))
            (unowned (k == s) (is_auto_chat (w.sessions k))
              (is_returned (settled services now plan (returned none) w).0) a)
            (settled-free services now plan w))
  ]
]

with_mode-count :
    (now : ℕ) (mode : AssistantSessionMode) (risk_acknowledged b : Bool) (c : AssistantSession)
    → (is_auto mode && not risk_acknowledged) ≡ false
    → (b && (is_auto mode && risk_acknowledged)) ≡ false
    → b ≡ true
    → (with_mode now mode c).auto_apply_count ≡ c.auto_apply_count
unfolding with_mode
with_mode-count now confirm a b c n m e = refl
with_mode-count now auto a b c n m e = ground (arith, n, m, e)

set_mode-Used :
    (now id : ℕ) (mode : AssistantSessionMode) (risk_acknowledged : Bool) (w : World) (s : ℕ)
    (chat : AssistantSession)
    → w.sessions s ≡ some chat
    → chat.auto_apply_count ≤ max_auto_applies
    → renews s (switch_mode id mode risk_acknowledged) ≡ false
    → Used s (0 + chat.auto_apply_count) (set_mode now id mode risk_acknowledged w).1.sessions
unfolding set_mode
set_mode-Used now id mode a w s chat f h n = elim (Option-cases (w.sessions id)) [
  | inl e ↦ rw (e, set_mode) (unused s w.sessions chat f h w.sessions refl)
  | inr (c, e) ↦ elim (Bool-cases (is_auto mode && not a)) [
    | inl r ↦ rw (e, set_mode, r) (unused s w.sessions chat f h w.sessions refl)
    | inr r ↦
        rw (e, set_mode, r)
          (rewritten s w.sessions chat f h id c (with_mode now mode c) e
            (with_mode-count now mode a (id == s) c r n))
  ]
]

set_model-Used :
    (id : ℕ) (model : Text) (w : World) (s : ℕ) (chat : AssistantSession)
    → w.sessions s ≡ some chat
    → chat.auto_apply_count ≤ max_auto_applies
    → Used s (0 + chat.auto_apply_count) (set_model id model w).1.sessions
unfolding set_model
set_model-Used id model w s chat f h = elim (Option-cases (w.sessions id)) [
  | inl e ↦ rw (e, set_model) (unused s w.sessions chat f h w.sessions refl)
  | inr (c, e) ↦
      rw (e, set_model)
        (rewritten s w.sessions chat f h id c (record c { model_id = model }) e (λ _. refl))
]

-- Without a fresh acknowledgment, the count that is stored goes up by the applies that are accepted.
handle-Used :
    (services : Services) (now : ℕ) (r : Request) (w : World) (s : ℕ) (chat : AssistantSession)
    → w.sessions s ≡ some chat
    → chat.auto_apply_count ≤ max_auto_applies
    → renews s r ≡ false
    → Used s
        (one_if (auto_applied services now s r w) + chat.auto_apply_count)
        (handle services now r w).sessions
unfolding handle auto_applied
handle-Used services now (apply_plan id session) w s chat f h n =
    apply-Used services now id session w s chat f h
handle-Used services now (switch_mode id mode risk_acknowledged) w s chat f h n =
    set_mode-Used now id mode risk_acknowledged w s chat f h n
handle-Used services now (switch_model id model) w s chat f h n =
    set_model-Used id model w s chat f h

-- For requests that are answered one after the other: between two acknowledgments of its risk, Auto
-- mode of a conversation gets at most five applies accepted, less those that its count already holds,
-- whatever requests come, for this conversation or others, applied to any plans, however the queue
-- answers, and whatever models it is switched to. Requests that overlap are not covered.
pub auto_applies_bounded :
    (services : Services) (requests : List (ℕ × Request)) (w : World) (s : ℕ)
    (chat : AssistantSession)
    → w.sessions s ≡ some chat
    → chat.auto_apply_count ≤ 5
    → All (λ (r : ℕ × Request). renews s r.1 ≡ false) requests
    → auto_applies services s requests w + chat.auto_apply_count ≤ 5
unfolding auto_applies
auto_applies_bounded services [] w s chat f h n = omega arith
auto_applies_bounded services ((now, r) ∷ rs) w s chat f h n =
    let (c, (g, (l, e))) = handle-Used services now r w s chat f h n.0 in
    let rest = auto_applies_bounded services rs (handle services now r w) s c g l n.1 in
    omega (arith, e, rest)
