-- ===== src/Jobs/Execute/Consistent.antt =====
-- A worker keeps the jobs table consistent.
use terraformer.Base.{
  ℕ, ◌≤◌, ◌<◌, ◌≡◌, refl, subst, sym, ◌∙◌, ◌⊎◌, inl, inr, Bool, true, false, some, List, [], ◌∷◌,
  arith, All, take, Bool-cases, Option-cases, ◌==◌, if◌then◌else◌,
}
use terraformer.Text.{Text}
use terraformer.Models.{JobType, JobState, queued, started, succeeded, failed, cancelled}
use terraformer.Errors.{not_found}
use terraformer.Pipeline.{Exception, app, Outcome, returned, raised}
use terraformer.Jobs.{Job, Database, find_job, get, is_terminal, start, succeed, fail, saved}
use terraformer.Jobs.Rows.{counts, find_job-id, find_job-hit, find_job-miss}
use terraformer.Jobs.Queue.Exclusive.{IsConsistent, saved-IsConsistent, counts-over}
use terraformer.Jobs.Execute.{
  Work, dispatch, error_code_of, give_up, finish_job, then_succeed, conclude, run_started,
  then_start, execute_job,
}

found-All :
    (P : Job → Type 0) (id : ℕ) (jobs : List Job) (job : Job)
    → All P jobs
    → find_job id jobs ≡ some job
    → P job
unfolding find_job
found-All P id [] job h e = cc e
found-All P id (j ∷ jobs) job h e = elim (Bool-cases (j.id == id)) [
  | inl x ↦ subst P (some_inj (sym (find_job-hit id j jobs x) ∙ e)) h.0
  | inr x ↦ found-All P id jobs job h.1 (sym (find_job-miss id j jobs x) ∙ e)
]
  where
    some_inj : {a b : Job} → some a ≡ some b → a ≡ b
    some_inj x = cc x

-- A row that is written back over the one that was read, and is no more active.
saved_found :
    (id : ℕ) (db : Database) (old new : Job)
    → find_job id db.jobs ≡ some old
    → new.id ≡ old.id
    → ((type : JobType) → counts type new ≤ counts type old)
    → IsConsistent db
    → IsConsistent (saved new db)
saved_found id db old new h e k c =
    saved-IsConsistent new old db
      (subst (λ i. find_job i db.jobs ≡ some old) (sym (e ∙ find_job-id id db.jobs old h)) h)
      (subst (λ i. i < db.next_id) (sym e)
        (found-All (λ job. job.id < db.next_id) id db.jobs old c.fresh h))
      k c

get-cases :
    (id : ℕ) (db : Database)
    → ((e : Exception) × (get id db ≡ raised e))
      ⊎ ((job : Job) × ((find_job id db.jobs ≡ some job) × (get id db ≡ returned job)))
unfolding get
get-cases id db = elim (Option-cases (find_job id db.jobs)) [
  | inl e ↦ inl (app not_found, rw (get, e) refl)
  | inr (job, e) ↦ inr (job, (e, rw (get, e) refl))
]

counts-fail :
    (type : JobType) (now : ℕ) (error : Text) (job : Job)
    → counts type (fail now error job) ≤ counts type job
unfolding fail
counts-fail type now error job = go job.state
  where
    go :
        (s : JobState)
        → counts type (fail now error (record job { state = s }))
          ≤ counts type (record job { state = s })
    go queued =
        omega (arith, counts-over type (fail now error (record job { state = queued })) refl)
    go started =
        omega (arith, counts-over type (fail now error (record job { state = started })) refl)
    go succeeded = omega arith
    go failed = omega arith
    go cancelled = omega arith

fail-id : (now : ℕ) (error : Text) (job : Job) → (fail now error job).id ≡ job.id
unfolding fail
fail-id now error job = go (is_terminal job.state)
  where
    go :
        (b : Bool)
        → (if b then job else record job {
          state = failed;
          error_code = some (take 100 error);
          finished_at = some now;
        }).id
          ≡ job.id
    go true = refl
    go false = refl

give_up-IsConsistent :
    (now id : ℕ) (e : Exception) (db : Database)
    → IsConsistent db
    → IsConsistent (give_up now id e db).1
unfolding give_up fail
give_up-IsConsistent now id e db c = elim (get-cases id db) [
  | inl (x, h) ↦ rw (give_up, h) c
  | inr (job, (found, h)) ↦
      let s =
        saved_found id db job (fail now (error_code_of e) job) found
          (fail-id now (error_code_of e) job) (λ t. counts-fail t now (error_code_of e) job) c in
      rw (give_up, h)
        (record { fresh = s.fresh; discoveries = s.discoveries; analyses = s.analyses })
]

-- What `start` and `succeed` return keeps the id, and is no more active.
abbrev Advances : Job → Outcome Job → Type 0
Advances job (raised e) = Unit
Advances job (returned new) =
    (new.id ≡ job.id) × ((type : JobType) → counts type new ≤ counts type job)

succeed-Advances : (now : ℕ) (job : Job) → Advances job (succeed now job)
unfolding succeed
succeed-Advances now job = go job.state
  where
    go :
        (s : JobState)
        → Advances (record job { state = s }) (succeed now (record job { state = s }))
    go queued = (
      refl,
      λ t.
          omega
            (arith, counts-over t (record job { state = succeeded; finished_at = some now }) refl),
    )
    go started = (
      refl,
      λ t.
          omega
            (arith, counts-over t (record job { state = succeeded; finished_at = some now }) refl),
    )
    go succeeded = tt
    go failed = tt
    go cancelled = tt

start-Advances : (now : ℕ) (job : Job) → Advances job (start now job)
unfolding start
start-Advances now job = go job.state
  where
    go : (s : JobState) → Advances (record job { state = s }) (start now (record job { state = s }))
    go queued = (refl, λ t. omega arith)
    go started = tt
    go succeeded = tt
    go failed = tt
    go cancelled = tt

finish_job-IsConsistent :
    (now id : ℕ) (db : Database) (job : Job) (o : Outcome Job)
    → find_job id db.jobs ≡ some job
    → Advances job o
    → IsConsistent db
    → IsConsistent (finish_job now id o db).1
unfolding finish_job
finish_job-IsConsistent now id db job (raised e) found a c = give_up-IsConsistent now id e db c
finish_job-IsConsistent now id db job (returned new) found a c =
    let s = saved_found id db job new found a.0 a.1 c in
    record { fresh = s.fresh; discoveries = s.discoveries; analyses = s.analyses }

conclude-IsConsistent :
    (now id : ℕ) (r : Outcome (Unit {0})) (db : Database)
    → IsConsistent db
    → IsConsistent (conclude now id (r, db)).1
unfolding conclude then_succeed finish_job
conclude-IsConsistent now id (raised e) db c = give_up-IsConsistent now id e db c
conclude-IsConsistent now id (returned u) db c = elim (get-cases id db) [
  | inl (x, h) ↦ rw h (give_up-IsConsistent now id x db c)
  | inr (job, (found, h)) ↦
      rw h
        (finish_job-IsConsistent now id db job (succeed now job) found (succeed-Advances now job) c)
]

-- The work keeps the table consistent.
abbrev pub KeepsConsistent : Work → Type 0
KeepsConsistent work = (job : Job) (db : Database) → IsConsistent db → IsConsistent (work job db).1

dispatch-IsConsistent :
    (work : Work) (job : Job) (b : Bool) (db : Database)
    → KeepsConsistent work
    → IsConsistent db
    → IsConsistent (dispatch work job b db).1
unfolding dispatch
dispatch-IsConsistent work job true db k c = k job db c
dispatch-IsConsistent work job false db k c = c

run_started-IsConsistent :
    (work : Work) (now id : ℕ) (db : Database) (job : Job) (o : Outcome Job)
    → KeepsConsistent work
    → find_job id db.jobs ≡ some job
    → Advances job o
    → IsConsistent db
    → IsConsistent (run_started work now id o db).1
unfolding run_started
run_started-IsConsistent work now id db job (raised e) k found a c = c
run_started-IsConsistent work now id db job (returned new) k found a c =
    conclude-IsConsistent now id _ _ (
      dispatch-IsConsistent work new _ (saved new db) k (saved_found id db job new found a.0 a.1 c))

-- Executing a job keeps the table consistent if its work does: no job becomes active that was not, so
-- that no exclusive type comes to have two active jobs.
pub execute_job-IsConsistent :
    (work : Work) (now id : ℕ) (db : Database)
    → KeepsConsistent work
    → IsConsistent db
    → IsConsistent (execute_job work now id db).1
unfolding execute_job run_started then_start
execute_job-IsConsistent work now id db k c = elim (get-cases id db) [
  | inl (x, h) ↦ rw h c
  | inr (job, (found, h)) ↦ rw h (
      run_started-IsConsistent work now id db job (start now job) k found (start-Advances now job)
        c)
]
