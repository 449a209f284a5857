-- ===== src/Jobs/Execute.antt =====
-- jobs/tasks.py: `execute_job`, which a worker calls with the id of a queued job.
pub mod Ends
pub mod Consistent
use terraformer.Base.{ℕ, String, Bool, true, false, Option, none, some}
use terraformer.Text.{Text, codes}
use terraformer.Errors.{code}
use terraformer.Models.{
  JobType, refresh_device, capture_config, discover_ssh, run_diagnostic, analyze_network,
  apply_change,
}
use terraformer.Pipeline.{Exception, app, fault, Outcome, returned, raised}
use terraformer.Jobs.{
  Job, Database, get, put, start, succeed, fail, recorded, saved, job_succeeded, job_failed,
}

-- What the service that the type names does: it may raise, and it changes the database.
abbrev pub Work : Type 0
Work = Job → Database → Outcome (Unit {0}) × Database

-- A job is complete if it names a device exactly if its type works on one.
abbrev pub is_complete : JobType → Option ℕ → Bool
is_complete refresh_device (some id) = true
is_complete capture_config (some id) = true
is_complete discover_ssh none = true
is_complete run_diagnostic (some id) = true
is_complete analyze_network none = true
is_complete apply_change (some id) = true
is_complete _ _ = false

dispatch : Work → Job → Bool → Database → Outcome (Unit {0}) × Database
dispatch work job true db = work job db
dispatch work job false db = (raised fault, db)

abbrev pub error_code_of : Exception → Text
error_code_of (app e) = codes (code e)
error_code_of fault = codes "job_execution_failed"

-- The `except` clause: the job is failed, unless it is over, and the error is raised again.
unfoldable pub give_up : ℕ → ℕ → Exception → Database → Outcome (Unit {0}) × Database
unfolding get fail put
give_up now id e db = elim (get id db) [
  | raised other ↦ (raised other, db)
  | returned job ↦
      (raised e, recorded job_failed job.id (saved (fail now (error_code_of e) job) db))
]

finish_job : ℕ → ℕ → Outcome Job → Database → Outcome (Unit {0}) × Database
unfolding give_up put
finish_job now id (raised e) db = give_up now id e db
finish_job now id (returned job) db = (returned tt, recorded job_succeeded job.id (saved job db))

then_succeed : ℕ → Outcome Job → Outcome Job
unfolding succeed
then_succeed now (raised e) = raised e
then_succeed now (returned job) = succeed now job

-- What follows the work.
unfoldable pub conclude : ℕ → ℕ → Outcome (Unit {0}) × Database → Outcome (Unit {0}) × Database
unfolding give_up finish_job then_succeed get
conclude now id (raised e, db) = give_up now id e db
conclude now id (returned u, db) = finish_job now id (then_succeed now (get id db)) db

run_started : Work → ℕ → ℕ → Outcome Job → Database → Outcome (Unit {0}) × Database
unfolding conclude dispatch put
run_started work now id (raised e) db = (raised e, db)
run_started work now id (returned job) db =
    conclude now id (dispatch work job (is_complete job.job_type job.device_id) (saved job db))

then_start : ℕ → Outcome Job → Outcome Job
unfolding start
then_start now (raised e) = raised e
then_start now (returned job) = start now job

unfoldable pub execute_job : Work → ℕ → ℕ → Database → Outcome (Unit {0}) × Database
unfolding run_started then_start get
execute_job work now id db = run_started work now id (then_start now (get id db)) db
