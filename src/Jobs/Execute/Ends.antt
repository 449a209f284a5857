-- ===== src/Jobs/Execute/Ends.antt =====
-- How the execution of a job ends, and what a second delivery of the same job does.
use terraformer.Base.{ℕ, ◌≡◌, ◌≢◌, refl, subst, sym, ◌∙◌, Bool, true, false, some, take}
use terraformer.Text.{Text}
use terraformer.Errors.{conflict}
use terraformer.Models.{JobState, queued, started, succeeded, failed, cancelled}
use terraformer.Pipeline.{Exception, app, Outcome, returned, raised}
use terraformer.Jobs.{Job, Database, find_job, get, put, start, succeed, fail, saved}
use terraformer.Jobs.Rows.{find_job-put, find_job-id}
use terraformer.Jobs.Execute.{
  Work, dispatch, error_code_of, give_up, finish_job, then_succeed, conclude, run_started,
  then_start, execute_job,
}

get-found :
    (id : ℕ) (db : Database) (job : Job) → find_job id db.jobs ≡ some job → get id db ≡ returned job
unfolding get
get-found id db job h = rw (h, get) refl

-- A row that is written back over one of the same id is found.
found_saved :
    (id : ℕ) (db : Database) (old new : Job)
    → find_job id db.jobs ≡ some old
    → new.id ≡ old.id
    → find_job id (put new db.jobs) ≡ some new
found_saved id db old new h e =
    let same = e ∙ find_job-id id db.jobs old h in
    subst (λ i. find_job i (put new db.jobs) ≡ some new) same
      (find_job-put new old db.jobs (subst (λ i. find_job i db.jobs ≡ some old) (sym same) h))

-- The job is stored as over, in the state that the result tells, with the code of the error.
abbrev pub JobEnds : ℕ → Outcome (Unit {0}) × Database → Type 0
JobEnds id (returned u, v) =
    (job : Job) × ((find_job id v.jobs ≡ some job) × (job.state ≡ succeeded))
JobEnds id (raised e, v) =
    (job : Job) × ((find_job id v.jobs ≡ some job)
      × ((job.state ≡ failed) × (job.error_code ≡ some (take 100 (error_code_of e)))))

failed_job : ℕ → Text → Job → Job
failed_job now error job = record job {
  state = failed;
  error_code = some (take 100 error);
  finished_at = some now;
}

fail-started :
    (now : ℕ) (error : Text) (job : Job)
    → job.state ≡ started
    → fail now error job ≡ failed_job now error job
unfolding fail failed_job
fail-started now error job h = rw h refl

give_up-JobEnds :
    (now id : ℕ) (e : Exception) (db : Database) (job : Job)
    → find_job id db.jobs ≡ some job
    → job.state ≡ started
    → JobEnds id (give_up now id e db)
unfolding give_up failed_job
give_up-JobEnds now id e db job h s =
    rw (get-found id db job h, give_up, fail-started now (error_code_of e) job s, JobEnds)
      (failed_job now (error_code_of e) job, (found_saved id db job _ h refl, (refl, refl)))

succeeded_job : ℕ → Job → Job
succeeded_job now job = record job { state = succeeded; finished_at = some now }

succeed-started :
    (now : ℕ) (job : Job) → job.state ≡ started → succeed now job ≡ returned (succeeded_job now job)
unfolding succeed succeeded_job
succeed-started now job h = rw h refl

conclude-JobEnds :
    (now id : ℕ) (r : Outcome (Unit {0})) (db : Database) (job : Job)
    → find_job id db.jobs ≡ some job
    → job.state ≡ started
    → JobEnds id (conclude now id (r, db))
unfolding conclude finish_job then_succeed succeeded_job
conclude-JobEnds now id (raised e) db job h s = give_up-JobEnds now id e db job h s
conclude-JobEnds now id (returned u) db job h s =
    rw (get-found id db job h, succeed-started now job s, JobEnds)
      (succeeded_job now job, (found_saved id db job _ h refl, refl))

-- The work leaves the row of the job that it runs as it is.
abbrev pub KeepsRow : Work → ℕ → Type 0
KeepsRow work id =
    (job : Job) (db : Database) → find_job id (work job db).1.jobs ≡ find_job id db.jobs

dispatch-row :
    (work : Work) (id : ℕ) (job : Job) (b : Bool) (db : Database)
    → KeepsRow work id
    → find_job id (dispatch work job b db).1.jobs ≡ find_job id db.jobs
unfolding dispatch
dispatch-row work id job true db k = k job db
dispatch-row work id job false db k = refl

started_job : ℕ → Job → Job
started_job now job = record job { state = started; started_at = some now }

start-queued :
    (now : ℕ) (job : Job) → job.state ≡ queued → start now job ≡ returned (started_job now job)
unfolding start started_job
start-queued now job h = rw h refl

start-refused : (now : ℕ) (job : Job) → job.state ≢ queued → start now job ≡ raised (app conflict)
unfolding start
start-refused now job h = go job.state h
  where
    go : (s : JobState) → s ≢ queued → start now (record job { state = s }) ≡ raised (app conflict)
    go queued q = absurd (q refl)
    go started q = refl
    go succeeded q = refl
    go failed q = refl
    go cancelled q = refl

-- A queued job that is executed ends as succeeded or as failed with the code of the error that is
-- raised, whatever the work does, provided that it leaves the row of its own job as it is.
pub execute_job-JobEnds :
    (work : Work) (now id : ℕ) (db : Database) (job : Job)
    → KeepsRow work id
    → find_job id db.jobs ≡ some job
    → job.state ≡ queued
    → JobEnds id (execute_job work now id db)
unfolding execute_job run_started then_start started_job
execute_job-JobEnds work now id db job k h q =
    rw (get-found id db job h, start-queued now job q)
      (conclude-JobEnds now id _ _ (started_job now job)
        (dispatch-row work id (started_job now job) _ (saved (started_job now job) db) k
          ∙ found_saved id db job (started_job now job) h refl)
        refl)

-- A job that is not queued is not executed: whatever the work would do, a worker that is handed it
-- raises a conflict and changes no row.
pub execute_not_queued :
    (work : Work) (now id : ℕ) (db : Database) (job : Job)
    → find_job id db.jobs ≡ some job
    → job.state ≢ queued
    → execute_job work now id db ≡ (raised (app conflict), db)
unfolding execute_job run_started then_start
execute_not_queued work now id db job h q = rw (get-found id db job h, start-refused now job q) refl

-- A job runs at most once: after a queued job was executed, a second delivery of it raises a conflict,
-- runs nothing and changes no row.
pub execute_once :
    (work other : Work) (now later id : ℕ) (db : Database) (job : Job)
    → KeepsRow work id
    → find_job id db.jobs ≡ some job
    → job.state ≡ queued
    → let v = (execute_job work now id db).1 in
      execute_job other later id v ≡ (raised (app conflict), v)
execute_once work other now later id db job k h q =
    refused (execute_job work now id db) (execute_job-JobEnds work now id db job k h q)
  where
    refused :
        (p : Outcome (Unit {0}) × Database)
        → JobEnds id p
        → execute_job other later id p.1 ≡ (raised (app conflict), p.1)
    refused (returned u, v) (over, (found, state)) =
        execute_not_queued other later id v over found (λ e. cc (e, state))
    refused (raised x, v) (over, (found, (state, error))) =
        execute_not_queued other later id v over found (λ e. cc (e, state))
