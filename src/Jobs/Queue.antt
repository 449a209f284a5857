-- ===== src/Jobs/Queue.antt =====
-- services/jobs.py: `enqueue`, which stores a job and hands it to the queue. Its commits and the job
-- that it reads again between them are one step, so calls that overlap are not modelled.
pub mod Exclusive
use terraformer.Base.{
  ℕ, suc, Bool, true, false, ◌&&◌, Option, none, some, List, [], ◌∷◌, ◌++◌, if◌then◌else◌,
}
use terraformer.Text.{Text, codes}
use terraformer.Errors.{conflict, queue_unavailable, code}
use terraformer.Models.{JobType, discover_ssh, analyze_network}
use terraformer.Pipeline.{Exception, app, Outcome, returned, raised}
use terraformer.Jobs.{
  Job, Database, add, get, put, has_active, fail, recorded, saved, job_queued, job_failed,
}

-- The queue and the devices table: a job is accepted with the queue's own id, or not at all.
pub record Services : Type 0 where
  pub get_device : ℕ → Outcome (Unit {0})
  pub enqueue : Job → Option Text

-- The types that must not run concurrently with themselves.
abbrev pub is_exclusive : JobType → Bool
is_exclusive discover_ssh = true
is_exclusive analyze_network = true
is_exclusive _ = false

abbrev check_device : Services → Option ℕ → Outcome (Unit {0})
check_device services none = returned tt
check_device services (some id) = services.get_device id

-- The row and its event, committed.
unfoldable pub insert : JobType → Option ℕ → Database → Database
unfolding add
insert type device db =
    recorded job_queued db.next_id
      (record db { jobs = db.jobs ++ add type device db ∷ []; next_id = suc db.next_id })

-- The queue took the job, or the job is failed.
unfoldable pub queue_answered : ℕ → Option Text → Job → Database → Outcome Job × Database
unfolding fail put
queue_answered now (some rq) job db =
    let named = record job { rq_job_id = some rq } in (returned named, saved named db)
queue_answered now none job db = (
  raised (app queue_unavailable),
  recorded job_failed job.id (saved (fail now (codes (code queue_unavailable)) job) db),
)

insert_checked :
    Services → ℕ → JobType → Option ℕ → Outcome (Unit {0}) → Database → Outcome Job × Database
unfolding insert queue_answered add
insert_checked services now type device (raised e) db = (raised e, db)
insert_checked services now type device (returned u) db =
    let job = add type device db in
    queue_answered now (services.enqueue job) job (insert type device db)

-- `JobService.enqueue`.
unfoldable pub enqueue_job : Services → ℕ → JobType → Option ℕ → Database → Outcome Job × Database
unfolding insert_checked has_active
enqueue_job services now type device db =
    if is_exclusive type && has_active type none db.jobs
    then (raised (app conflict), db)
    else insert_checked services now type device (check_device services device) db
