-- ===== src/Assistant/Allowance.antt =====
-- How much Auto mode may change: api/changes.py `apply_change_plan` over the job queue, with
-- repositories/assistant.py and assistant/service.py for the mode and the allowance of a conversation.
pub mod Charges
pub mod Bounded
pub mod Overlap
use terraformer.Base.{
  ℕ, suc, Bool, true, false, not, Option, none, some, List, [], ◌∷◌, if◌then◌else◌, ◌==◌, ◌&&◌, leb,
}
use terraformer.Text.{Text}
use terraformer.Errors.{
  not_found, auto_mode_requires_acknowledgment, auto_apply_limit_reached, change_plan_not_draft,
  change_plan_device_locked,
}
use terraformer.Models.{apply_change}
use terraformer.Pipeline.{ChangePlan, app, Outcome, returned, raised}
use terraformer.Pipeline.Apply.{is_draft}
use terraformer.Jobs.{Job, Database, has_active}
use terraformer.Jobs.Queue.{Services, enqueue_job}

pub data AssistantSessionMode : Type 0 where
  confirm auto : AssistantSessionMode

pub record AssistantSession : Type 0 where
  pub mode : AssistantSessionMode
  pub model_id : Text
  pub auto_mode_acknowledged_at : Option ℕ
  pub auto_apply_count : ℕ

abbrev pub Sessions : Type 0
Sessions = ℕ → Option AssistantSession

-- The rows that a request reads and writes.
pub record World : Type 0 where
  pub plans : ℕ → Option ChangePlan
  pub sessions : Sessions
  pub jobs : Database

abbrev pub max_auto_applies : ℕ
max_auto_applies = 5

abbrev pub is_auto : AssistantSessionMode → Bool
is_auto confirm = false
is_auto auto = true

unfoldable pub put_session : ℕ → AssistantSession → Sessions → Sessions
put_session id chat sessions key = if key == id then some chat else sessions key

unfoldable pub charge : ℕ → Option AssistantSession → Outcome (Option (ℕ × AssistantSession))
charge id none = raised (app not_found)
charge id (some chat) =
    if is_auto chat.mode
    then if leb max_auto_applies chat.auto_apply_count
      then raised (app auto_apply_limit_reached)
      else returned (some (id, chat))
    else returned none

-- The conversation whose allowance the apply counts against: none unless Auto mode fired it.
unfoldable pub charged : Option ℕ → Sessions → Outcome (Option (ℕ × AssistantSession))
unfolding charge
charged none sessions = returned none
charged (some id) sessions = charge id (sessions id)

-- `AssistantSessionRepository.record_auto_apply`: only the count of the row is written, one more than
-- the count of the object in memory.
abbrev pub record_auto_apply : AssistantSession → AssistantSession → AssistantSession
record_auto_apply chat row = record row { auto_apply_count = suc chat.auto_apply_count }

-- What a request holds in memory once its job is queued: the conversation as it was read, if charged.
abbrev pub Held : Type 0
Held = Job × Option (ℕ × AssistantSession)

-- What the queue answered.
unfoldable pub accepted :
    Option (ℕ × AssistantSession) → Outcome Job × Database → World → Outcome Held × World
accepted chat (raised e, db) w = (raised e, record w { jobs = db })
accepted chat (returned job, db) w = (returned (job, chat), record w { jobs = db })

-- The checks of the plan and of its device, and the job.
unfoldable pub queue_apply :
    Services
    → ℕ
    → ChangePlan
    → Outcome (Option (ℕ × AssistantSession))
    → World
    → Outcome Held × World
unfolding accepted enqueue_job has_active
queue_apply services now plan (raised e) w = (raised e, w)
queue_apply services now plan (returned chat) w =
    if not (is_draft plan.status)
    then (raised (app change_plan_not_draft), w)
    else if has_active apply_change (some plan.device_id) w.jobs.jobs
    then (raised (app change_plan_device_locked), w)
    else accepted chat (enqueue_job services now apply_change (some plan.device_id) w.jobs) w

-- `apply_change_plan` up to the commit that stores the job, which also ends the lock on the row of the
-- conversation.
unfoldable pub begin_apply : Services → ℕ → ℕ → Option ℕ → World → Outcome Held × World
unfolding queue_apply charged
begin_apply services now id session w = elim (w.plans id) [
  | none ↦ (raised (app not_found), w)
  | some plan ↦ queue_apply services now plan (charged session w.sessions) w
]

recorded_row : ℕ → AssistantSession → Option AssistantSession → Sessions → Sessions
unfolding put_session
recorded_row id chat none sessions = sessions
recorded_row id chat (some row) sessions = put_session id (record_auto_apply chat row) sessions

-- The rest of it: an apply that is queued is counted, from the conversation in memory.
unfoldable pub count_apply : Option (ℕ × AssistantSession) → World → World
unfolding recorded_row
count_apply none w = w
count_apply (some (id, chat)) w = record w {
  sessions = recorded_row id chat (w.sessions id) w.sessions;
}

unfoldable pub settle : Outcome Held × World → Outcome Job × World
unfolding count_apply
settle (raised e, w) = (raised e, w)
settle (returned (job, chat), w) = (returned job, count_apply chat w)

-- `apply_change_plan`, when no other request comes between its two parts.
unfoldable pub apply_change_plan : Services → ℕ → ℕ → Option ℕ → World → Outcome Job × World
unfolding begin_apply settle
apply_change_plan services now id session w = settle (begin_apply services now id session w)

-- `AssistantSessionRepository.set_mode`: Auto mode starts with a fresh allowance.
unfoldable pub with_mode : ℕ → AssistantSessionMode → AssistantSession → AssistantSession
with_mode now confirm chat = record chat { mode = confirm }
with_mode now auto chat = record chat {
  mode = auto;
  auto_mode_acknowledged_at = some now;
  auto_apply_count = 0;
}

-- `AssistantChatService.set_mode`.
unfoldable pub set_mode :
    ℕ → ℕ → AssistantSessionMode → Bool → World → Outcome AssistantSession × World
unfolding with_mode put_session
set_mode now id mode risk_acknowledged w = elim (w.sessions id) [
  | none ↦ (raised (app not_found), w)
  | some chat ↦
      if is_auto mode && not risk_acknowledged
      then (raised (app auto_mode_requires_acknowledgment), w)
      else (
        returned (with_mode now mode chat),
        record w { sessions = put_session id (with_mode now mode chat) w.sessions },
      )
]

-- `AssistantSessionRepository.set_model`: the allowance is left alone.
unfoldable pub set_model : ℕ → Text → World → Outcome AssistantSession × World
unfolding put_session
set_model id model w = elim (w.sessions id) [
  | none ↦ (raised (app not_found), w)
  | some chat ↦
      let moved : AssistantSession = record chat { model_id = model } in
      (returned moved, record w { sessions = put_session id moved w.sessions })
]

-- The requests that a client makes, each answered before the next one starts.
pub data Request : Type 0 where
  apply_plan : ℕ → Option ℕ → Request
  switch_mode : ℕ → AssistantSessionMode → Bool → Request
  switch_model : ℕ → Text → Request

unfoldable pub handle : Services → ℕ → Request → World → World
unfolding apply_change_plan set_mode set_model
handle services now (apply_plan id session) w = (apply_change_plan services now id session w).1
handle services now (switch_mode id mode risk_acknowledged) w =
    (set_mode now id mode risk_acknowledged w).1
handle services now (switch_model id model) w = (set_model id model w).1
