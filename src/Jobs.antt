-- ===== src/Jobs.antt =====
-- repositories/jobs.py, services/jobs.py and jobs/tasks.py: the rows of the jobs table, their state
-- machine, how a job is queued and how a worker executes it. Sessions that commit are steps on the
-- database; row locks and the timestamps of the ORM are left out.
pub mod Rows
pub mod Execute
pub mod Queue
pub mod Tests
use terraformer.Base.{
  ℕ, suc, String, Bool, true, false, not, ◌&&◌, ◌||◌, Option, none, some, List, [], ◌∷◌, ◌++◌, ◌==◌,
  if◌then◌else◌, any, find, take,
}
use terraformer.Text.{Text, codes}
use terraformer.Errors.{AppError, conflict, not_found, code}
use terraformer.Models.{
  JobType, refresh_device, capture_config, discover_ssh, run_diagnostic, analyze_network,
  apply_change, JobState, queued, started, succeeded, failed, cancelled,
}
use terraformer.Pipeline.{Exception, app, fault, Outcome, returned, raised}

pub record Job : Type 0 where
  pub id : ℕ
  pub job_type : JobType
  pub state : JobState
  pub device_id : Option ℕ
  pub rq_job_id : Option Text
  pub error_code : Option Text
  pub started_at : Option ℕ
  pub finished_at : Option ℕ

pub data EventType : Type 0 where
  job_queued job_succeeded job_failed : EventType

-- The committed rows; the events are the oldest first, each with its job.
pub record Database : Type 0 where
  pub jobs : List Job
  pub events : List (EventType × ℕ)
  pub next_id : ℕ

unfoldable pub find_job : ℕ → List Job → Option Job
find_job id jobs = find (λ job. job.id == id) jobs

-- The row of this id is written back.
unfoldable pub put : Job → List Job → List Job
put new [] = []
put new (job ∷ jobs) = if job.id == new.id then new ∷ jobs else job ∷ put new jobs

-- `JobRepository.get`.
unfoldable pub get : ℕ → Database → Outcome Job
unfolding find_job
get id db = elim (find_job id db.jobs) [ none ↦ raised (app not_found) | some job ↦ returned job ]

-- `JobRepository.add`.
unfoldable pub add : JobType → Option ℕ → Database → Job
add type device db = record {
  id = db.next_id;
  job_type = type;
  state = queued;
  device_id = device;
  rq_job_id = none;
  error_code = none;
  started_at = none;
  finished_at = none;
}

abbrev pub is_terminal : JobState → Bool
is_terminal succeeded = true
is_terminal failed = true
is_terminal cancelled = true
is_terminal _ = false

abbrev pub is_active : JobState → Bool
is_active queued = true
is_active started = true
is_active _ = false

abbrev pub same_type : JobType → JobType → Bool
same_type refresh_device refresh_device = true
same_type capture_config capture_config = true
same_type discover_ssh discover_ssh = true
same_type run_diagnostic run_diagnostic = true
same_type analyze_network analyze_network = true
same_type apply_change apply_change = true
same_type _ _ = false

abbrev same_device : Option ℕ → ℕ → Bool
same_device none id = false
same_device (some d) id = d == id

-- A job counts for any device if none is asked for.
abbrev pub on_device : Option ℕ → Job → Bool
on_device none job = true
on_device (some id) job = same_device job.device_id id

-- `JobRepository.has_active`.
unfoldable pub has_active : JobType → Option ℕ → List Job → Bool
has_active type device jobs =
    any (λ job. same_type job.job_type type && is_active job.state && on_device device job) jobs

abbrev is_queued : JobState → Bool
is_queued queued = true
is_queued _ = false

-- `JobRepository.start`.
unfoldable pub start : ℕ → Job → Outcome Job
start now job =
    if not (is_queued job.state)
    then raised (app conflict)
    else returned (record job { state = started; started_at = some now })

-- `JobRepository.succeed`.
unfoldable pub succeed : ℕ → Job → Outcome Job
succeed now job =
    if is_terminal job.state
    then raised (app conflict)
    else returned (record job { state = succeeded; finished_at = some now })

-- `JobRepository.fail`.
unfoldable pub fail : ℕ → Text → Job → Job
fail now error job =
    if is_terminal job.state
    then job
    else record job { state = failed; error_code = some (take 100 error); finished_at = some now }

abbrev pub recorded : EventType → ℕ → Database → Database
recorded event id db = record db { events = db.events ++ (event, id) ∷ [] }

abbrev pub saved : Job → Database → Database
saved job db = record db { jobs = put job db.jobs }
