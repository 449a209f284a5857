-- ===== src/Assistant/Allowance/Charges.antt =====
-- What an apply does to the conversations and their allowance (api/changes.py `apply_change_plan`).
use terraformer.Base.{
  ℕ, suc, ◌≤◌, ◌≡◌, refl, ◌⊎◌, inl, inr, Bool, true, false, not, Option, none, some, if◌then◌else◌,
  leb, arith, Bool-cases,
}
use terraformer.Errors.{auto_apply_limit_reached}
use terraformer.Models.{apply_change}
use terraformer.Pipeline.{app, ChangePlan, Exception, Outcome, returned, raised}
use terraformer.Pipeline.Apply.{is_draft}
use terraformer.Jobs.{Job, Database, has_active}
use terraformer.Jobs.Queue.{Services, enqueue_job}
use terraformer.Assistant.Allowance.{
  AssistantSession, World, max_auto_applies, is_auto, put_session, charge, record_auto_apply,
  accepted, queue_apply, count_apply, recorded_row, settle,
}

abbrev pub is_returned : Outcome Job → Bool
is_returned (returned job) = true
is_returned (raised e) = false

abbrev pub is_auto_chat : Option AssistantSession → Bool
is_auto_chat none = false
is_auto_chat (some chat) = is_auto chat.mode

pub charge-cases :
    (k : ℕ) (o : Option AssistantSession)
    → ((c : AssistantSession) × ((o ≡ some c)
          × ((is_auto c.mode ≡ true)
              × ((suc c.auto_apply_count ≤ max_auto_applies)
                  × (charge k o ≡ returned (some (k, c)))))))
      ⊎ (((e : Exception) × (charge k o ≡ raised e))
          ⊎ ((is_auto_chat o ≡ false) × (charge k o ≡ returned none)))
unfolding charge
charge-cases k none = inr (inl (_, refl))
charge-cases k (some c) = elim (Bool-cases (is_auto c.mode)) [
  | inl a ↦ elim (Bool-cases (leb max_auto_applies c.auto_apply_count)) [
    | inl l ↦ inr (inl (app auto_apply_limit_reached, rw (a, l) refl))
    | inr l ↦ inl (c, (refl, (a, (ground (arith, l), rw (a, l) refl))))
  ]
  | inr a ↦ inr (inr (a, rw (a) refl))
]

-- An apply from its charge on, with nothing between its two parts.
abbrev pub settled :
    Services
    → ℕ
    → ChangePlan
    → Outcome (Option (ℕ × AssistantSession))
    → World
    → Outcome Job × World
settled services now plan charge w = settle (queue_apply services now plan charge w)

settle-sessions :
    (k : ℕ) (c : AssistantSession) (p : Outcome Job × Database) (w : World)
    → w.sessions k ≡ some c
    → (settle (accepted (some (k, c)) p w)).1.sessions ≡ (
        if is_returned (settle (accepted (some (k, c)) p w)).0
        then put_session k (record_auto_apply c c) w.sessions
        else w.sessions)
unfolding settle accepted count_apply recorded_row
settle-sessions k c (raised e, db) w f = refl
settle-sessions k c (returned job, db) w f = rw (f) refl

settle-free :
    (p : Outcome Job × Database) (w : World) → (settle (accepted none p w)).1.sessions ≡ w.sessions
unfolding settle accepted count_apply
settle-free (raised e, db) w = refl
settle-free (returned job, db) w = refl

pub settled-sessions :
    (services : Services) (now k : ℕ) (plan : ChangePlan) (c : AssistantSession) (w : World)
    → w.sessions k ≡ some c
    → (settled services now plan (returned (some (k, c))) w).1.sessions ≡ (
        if is_returned (settled services now plan (returned (some (k, c))) w).0
        then put_session k (record_auto_apply c c) w.sessions
        else w.sessions)
unfolding queue_apply settle
settled-sessions services now k plan c w f = elim (Bool-cases (not (is_draft plan.status))) [
  | inl d ↦ rw (d) refl
  | inr d ↦ elim (Bool-cases (has_active apply_change (some plan.device_id) w.jobs.jobs)) [
    | inl l ↦ rw (d, l) refl
    | inr l ↦
        rw (d, l)
          (settle-sessions k c (enqueue_job services now apply_change (some plan.device_id) w.jobs)
            w f)
  ]
]

pub settled-free :
    (services : Services) (now : ℕ) (plan : ChangePlan) (w : World)
    → (settled services now plan (returned none) w).1.sessions ≡ w.sessions
unfolding queue_apply settle
settled-free services now plan w = elim (Bool-cases (not (is_draft plan.status))) [
  | inl d ↦ rw (d) refl
  | inr d ↦ elim (Bool-cases (has_active apply_change (some plan.device_id) w.jobs.jobs)) [
    | inl l ↦ rw (d, l) refl
    | inr l ↦
        rw (d, l)
          (settle-free (enqueue_job services now apply_change (some plan.device_id) w.jobs) w)
  ]
]
