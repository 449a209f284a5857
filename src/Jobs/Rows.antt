-- ===== src/Jobs/Rows.antt =====
-- Rows of the jobs table that are found, written back and counted.
use terraformer.Base.{
  ℕ, ◌+◌, ◌≤◌, ◌≡◌, refl, ap, sym, ◌∙◌, Bool, true, false, ◌&&◌, Option, none, some, List, [], ◌∷◌,
  ◌++◌, arith, ◌==◌, ==_iff, Bool-cases, inl, inr,
}
use terraformer.Models.{JobType}
use terraformer.Jobs.{Job, find_job, put, has_active, is_active, same_type}

pub find_job-hit :
    (id : ℕ) (job : Job) (jobs : List Job)
    → (job.id == id) ≡ true
    → find_job id (job ∷ jobs) ≡ some job
unfolding find_job
find_job-hit id job jobs e = rw e refl

pub find_job-miss :
    (id : ℕ) (job : Job) (jobs : List Job)
    → (job.id == id) ≡ false
    → find_job id (job ∷ jobs) ≡ find_job id jobs
unfolding find_job
find_job-miss id job jobs e = rw e refl

pub put-hit :
    (new job : Job) (jobs : List Job)
    → (job.id == new.id) ≡ true
    → put new (job ∷ jobs) ≡ new ∷ jobs
unfolding put
put-hit new job jobs e = rw e refl

pub put-miss :
    (new job : Job) (jobs : List Job)
    → (job.id == new.id) ≡ false
    → put new (job ∷ jobs) ≡ job ∷ put new jobs
unfolding put
put-miss new job jobs e = rw e refl

-- The row that is found has the id that was looked for.
pub find_job-id : (id : ℕ) (jobs : List Job) (job : Job) → find_job id jobs ≡ some job → job.id ≡ id
unfolding find_job
find_job-id id [] job h = cc h
find_job-id id (j ∷ jobs) job h = elim (Bool-cases (j.id == id)) [
  | inl e ↦
      ap (λ (o : Option Job). elim o [ none ↦ id | some i ↦ i.id ])
        (sym h ∙ find_job-hit id j jobs e)
      ∙ (==_iff j.id id).0 e
  | inr e ↦ find_job-id id jobs job (sym (find_job-miss id j jobs e) ∙ h)
]

-- A row that is written back is the one that is found.
pub find_job-put :
    (new old : Job) (jobs : List Job)
    → find_job new.id jobs ≡ some old
    → find_job new.id (put new jobs) ≡ some new
unfolding find_job
find_job-put new old [] h = cc h
find_job-put new old (job ∷ jobs) h = elim (Bool-cases (job.id == new.id)) [
  | inl e ↦
      ap (find_job new.id) (put-hit new job jobs e)
      ∙ find_job-hit new.id new jobs ((==_iff new.id new.id).1 refl)
  | inr e ↦
      ap (find_job new.id) (put-miss new job jobs e)
      ∙ find_job-miss new.id job (put new jobs) e
      ∙ find_job-put new old jobs (sym (find_job-miss new.id job jobs e) ∙ h)
]

abbrev pub one_if : Bool → ℕ
one_if true = 1
one_if false = 0

abbrev pub counts : JobType → Job → ℕ
counts type job = one_if (same_type job.job_type type && is_active job.state)

-- How many jobs of a type are queued or started.
abbrev pub active_count : JobType → List Job → ℕ
active_count type [] = 0
active_count type (job ∷ jobs) = counts type job + active_count type jobs

pub active_count-append :
    (type : JobType) (jobs : List Job) (job : Job)
    → active_count type (jobs ++ job ∷ []) ≡ active_count type jobs + counts type job
active_count-append type [] job = omega arith
active_count-append type (j ∷ jobs) job = omega (arith, active_count-append type jobs job)

-- No job is active exactly if the count is none.
pub has_active-count :
    (type : JobType) (jobs : List Job)
    → has_active type none jobs ≡ false
    → active_count type jobs ≡ 0
unfolding has_active
has_active-count type [] h = refl
has_active-count type (job ∷ jobs) h = ground (arith, has_active-count type jobs)

-- A row that is no more active than the one that it replaces does not raise the count.
pub active_count-put :
    (type : JobType) (new old : Job) (jobs : List Job)
    → find_job new.id jobs ≡ some old
    → counts type new ≤ counts type old
    → active_count type (put new jobs) ≤ active_count type jobs
unfolding find_job
active_count-put type new old [] h l = cc h
active_count-put type new old (job ∷ jobs) h l = elim (Bool-cases (job.id == new.id)) [
  | inl e ↦
      let same =
        ap {B = ℕ} (λ (o : Option Job). elim o [ none ↦ 0 | some i ↦ counts type i ])
          (sym h ∙ find_job-hit new.id job jobs e) in
      omega (arith, l, same, ap (active_count type) (put-hit new job jobs e))
  | inr e ↦ omega (
    arith,
    active_count-put type new old jobs (sym (find_job-miss new.id job jobs e) ∙ h) l,
    ap (active_count type) (put-miss new job jobs e),
  )
]
