-- ===== src/Assistant/Allowance/Overlap.antt =====
-- Requests of api/changes.py `apply_change_plan` that overlap: each is past the commit that ends its lock
-- before the first of them counts its apply.
use terraformer.Base.{
  ℕ, suc, ◌≤◌, ◌≡◌, refl, sym, subst, ◌∙◌, ap, ◌⊎◌, inl, inr, true, not, Option, some, List, [],
  ◌∷◌, ==_iff, leb, arith, All, Bool-cases, Option-cases,
}
use terraformer.Models.{apply_change}
use terraformer.Pipeline.{ChangePlan, Outcome, returned, raised}
use terraformer.Pipeline.Apply.{is_draft}
use terraformer.Jobs.{Job, Database, has_active}
use terraformer.Jobs.Queue.{Services, enqueue_job}
use terraformer.Assistant.Allowance.{
  AssistantSession, Sessions, World, max_auto_applies, is_auto, put_session, charge, charged,
  record_auto_apply, Held, accepted, queue_apply, begin_apply, recorded_row, count_apply, settle,
}

-- The first parts of applies that Auto mode of a conversation fires: the time and the plan of each.
unfoldable pub begin_all : Services → ℕ → List (ℕ × ℕ) → World → List (Outcome Held) × World
unfolding begin_apply
begin_all services s [] w = ([], w)
begin_all services s ((now, id) ∷ plans) w =
    let (o, w') = begin_apply services now id (some s) w in
    let (outcomes, v) = begin_all services s plans w' in (o ∷ outcomes, v)

-- The second parts, in the same order.
unfoldable pub settle_all : List (Outcome Held) → World → World
unfolding settle
settle_all [] w = w
settle_all (o ∷ outcomes) w = settle_all outcomes (settle (o, w)).1

-- How many of them are accepted.
unfoldable pub accepted_count : List (Outcome Held) → ℕ
accepted_count [] = 0
accepted_count (returned h ∷ outcomes) = suc (accepted_count outcomes)
accepted_count (raised e ∷ outcomes) = accepted_count outcomes

accepted-sessions :
    (chat : Option (ℕ × AssistantSession)) (p : Outcome Job × Database) (w : World)
    → (accepted chat p w).1.sessions ≡ w.sessions
unfolding accepted
accepted-sessions chat (raised e, db) w = refl
accepted-sessions chat (returned job, db) w = refl

queue_apply-sessions :
    (services : Services) (now : ℕ) (plan : ChangePlan)
    (c : Outcome (Option (ℕ × AssistantSession))) (w : World)
    → (queue_apply services now plan c w).1.sessions ≡ w.sessions
unfolding queue_apply
queue_apply-sessions services now plan (raised e) w = refl
queue_apply-sessions services now plan (returned c) w =
    elim (Bool-cases (not (is_draft plan.status))) [
      | inl d ↦ rw (d) refl
      | inr d ↦ elim (Bool-cases (has_active apply_change (some plan.device_id) w.jobs.jobs)) [
        | inl l ↦ rw (d, l) refl
        | inr l ↦
            rw (d, l)
              (accepted-sessions c
                (enqueue_job services now apply_change (some plan.device_id) w.jobs) w)
      ]
    ]

begin_apply-sessions :
    (services : Services) (now id : ℕ) (session : Option ℕ) (w : World)
    → (begin_apply services now id session w).1.sessions ≡ w.sessions
unfolding begin_apply
begin_apply-sessions services now id session w = elim (Option-cases (w.plans id)) [
  | inl e ↦ rw (e, begin_apply) refl
  | inr (plan, e) ↦
      rw (e, begin_apply) (queue_apply-sessions services now plan (charged session w.sessions) w)
]

-- A request that is accepted holds the conversation as it was.
abbrev Holds : ℕ → AssistantSession → Outcome Held → Type 0
Holds s chat (raised e) = Unit
Holds s chat (returned (job, held)) = held ≡ some (s, chat)

abbrev Charges : ℕ → AssistantSession → Outcome (Option (ℕ × AssistantSession)) → Type 0
Charges s chat (raised e) = Unit
Charges s chat (returned held) = held ≡ some (s, chat)

accepted-Holds :
    (s : ℕ) (chat : AssistantSession) (held : Option (ℕ × AssistantSession))
    (p : Outcome Job × Database) (w : World)
    → held ≡ some (s, chat)
    → Holds s chat (accepted held p w).0
unfolding accepted
accepted-Holds s chat held (raised e, db) w h = tt
accepted-Holds s chat held (returned job, db) w h = h

queue_apply-Holds :
    (services : Services) (now s : ℕ) (chat : AssistantSession) (plan : ChangePlan)
    (c : Outcome (Option (ℕ × AssistantSession))) (w : World)
    → Charges s chat c
    → Holds s chat (queue_apply services now plan c w).0
unfolding queue_apply
queue_apply-Holds services now s chat plan (raised e) w h = tt
queue_apply-Holds services now s chat plan (returned c) w h =
    elim (Bool-cases (not (is_draft plan.status))) [
      | inl d ↦ rw (d) tt
      | inr d ↦ elim (Bool-cases (has_active apply_change (some plan.device_id) w.jobs.jobs)) [
        | inl l ↦ rw (d, l) tt
        | inr l ↦
            rw (d, l)
              (accepted-Holds s chat c
                (enqueue_job services now apply_change (some plan.device_id) w.jobs) w h)
      ]
    ]

charge-Charges :
    (s : ℕ) (chat : AssistantSession)
    → is_auto chat.mode ≡ true
    → Charges s chat (charge s (some chat))
unfolding charge
charge-Charges s chat a = elim (Bool-cases (leb max_auto_applies chat.auto_apply_count)) [
  | inl l ↦ rw (a, l) tt
  | inr l ↦ rw (a, l) refl
]

module _ (services : Services) (s : ℕ) (chat : AssistantSession)
    (a : is_auto chat.mode ≡ true) where
  begin_apply-Holds :
      (now id : ℕ) (w : World)
      → w.sessions s ≡ some chat
      → Holds s chat (begin_apply services now id (some s) w).0
  unfolding begin_apply charged
  begin_apply-Holds now id w f = elim (Option-cases (w.plans id)) [
    | inl e ↦ rw (e, begin_apply) tt
    | inr (plan, e) ↦
        rw (e, begin_apply, f)
          (queue_apply-Holds services now s chat plan (charge s (some chat)) w
            (charge-Charges s chat a))
  ]

  begin_all-Holds :
      (plans : List (ℕ × ℕ)) (w : World)
      → w.sessions s ≡ some chat
      → All (Holds s chat) (begin_all services s plans w).0
        × ((begin_all services s plans w).1.sessions s ≡ some chat)
  unfolding begin_all
  begin_all-Holds [] w f = (tt, f)
  begin_all-Holds ((now, id) ∷ plans) w f =
      let next = (begin_apply services now id (some s) w).1 in
      let g = ap (λ (k : Sessions). k s) (begin_apply-sessions services now id (some s) w) ∙ f in
      let (rest, last) = begin_all-Holds plans next g in
      ((begin_apply-Holds now id w f, rest), last)

-- What the second parts leave: one more than was read, if any of the applies was accepted.
Counted : ℕ → AssistantSession → ℕ → ℕ → World → Type 0
Counted s chat before n w =
    (row : AssistantSession) × ((w.sessions s ≡ some row)
      × ((row.auto_apply_count ≡ suc chat.auto_apply_count)
          ⊎ ((row.auto_apply_count ≡ before) × (n ≡ 0))))

put_session-same :
    (s : ℕ) (c : AssistantSession) (sessions : Sessions) → put_session s c sessions s ≡ some c
unfolding put_session
put_session-same s c sessions = rw ((==_iff s s).1 refl) refl

count_apply-written :
    (s : ℕ) (chat row : AssistantSession) (held : Option (ℕ × AssistantSession)) (w : World)
    → held ≡ some (s, chat)
    → w.sessions s ≡ some row
    → count_apply held w
      ≡ record w { sessions = put_session s (record_auto_apply chat row) w.sessions }
unfolding count_apply recorded_row
count_apply-written s chat row held w h f = rw (h, f) refl

settle_all-Counted :
    (s : ℕ) (chat : AssistantSession) (outcomes : List (Outcome Held)) (w : World)
    (row : AssistantSession)
    → All (Holds s chat) outcomes
    → w.sessions s ≡ some row
    → Counted s chat row.auto_apply_count (accepted_count outcomes) (settle_all outcomes w)
unfolding settle_all accepted_count settle count_apply recorded_row put_session Counted
settle_all-Counted s chat [] w row h f = (row, (f, inr (refl, refl)))
settle_all-Counted s chat (raised e ∷ outcomes) w row h f =
    settle_all-Counted s chat outcomes w row h.1 f
settle_all-Counted s chat (returned (job, held) ∷ outcomes) w row h f =
    let new = record_auto_apply chat row in
    let v : World = record w { sessions = put_session s new w.sessions } in
    let (last, (g, e)) =
      settle_all-Counted s chat outcomes v new h.1 (put_session-same s new w.sessions) in
    subst
      (λ (u : World).
        Counted s chat row.auto_apply_count (suc (accepted_count outcomes)) (settle_all outcomes u))
      (sym (count_apply-written s chat row held w h.0 f))
      (last, (g, elim e [ inl x ↦ inl x | inr x ↦ inl x.0 ]))

-- Applies of Auto mode that overlap are counted as one, however many of them are accepted: if a
-- conversation in Auto mode has the first parts of several requests run before the second part of the
-- first of them, and one or more are accepted, the count that is stored in the end is one more than the
-- count before.
pub overlap_counted_once :
    (services : Services) (plans : List (ℕ × ℕ)) (w : World) (s : ℕ) (chat : AssistantSession)
    → w.sessions s ≡ some chat
    → is_auto chat.mode ≡ true
    → 1 ≤ accepted_count (begin_all services s plans w).0
    → (row : AssistantSession) × (((settle_all
              (begin_all services s plans w).0
              (begin_all services s plans w).1).sessions
            s
          ≡ some row)
        × (row.auto_apply_count ≡ suc chat.auto_apply_count))
unfolding Counted
overlap_counted_once services plans w s chat f a n =
    let outcomes = (begin_all services s plans w).0 in
    let (holds, still) = begin_all-Holds services s chat a plans w f in
    let (row, (g, e)) =
      settle_all-Counted s chat outcomes (begin_all services s plans w).1 chat holds still in
    (row, (g, elim e [ inl x ↦ x | inr x ↦ none_accepted (accepted_count outcomes) n x.1 ]))
  where
    none_accepted : {A : Type 0} (k : ℕ) → 1 ≤ k → k ≡ 0 → A
    none_accepted k h e = absurd (ground (arith, h, e))
