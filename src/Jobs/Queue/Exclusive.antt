-- ===== src/Jobs/Queue/Exclusive.antt =====
-- Types that must not run concurrently with themselves: at most one job of such a type is active.
use terraformer.Base.{
  ℕ, suc, ◌≤◌, ◌<◌, ◌≡◌, refl, subst, sym, ◌∙◌, Bool, true, false, ◌&&◌, Option, none, some, List,
  [], ◌∷◌, ◌++◌, arith, ◌==◌, ==_iff, Bool-cases, inl, inr, All, All-imp, All-append,
}
use terraformer.Text.{Text, codes}
use terraformer.Errors.{queue_unavailable, code}
use terraformer.Models.{
  JobType, refresh_device, capture_config, discover_ssh, run_diagnostic, analyze_network,
  apply_change,
}
use terraformer.Pipeline.{Outcome, returned, raised}
use terraformer.Jobs.{
  Job, Database, find_job, put, add, fail, has_active, same_type, is_active, saved,
}
use terraformer.Jobs.Rows.{
  active_count, counts, one_if, active_count-append, active_count-put, has_active-count,
  find_job-hit, find_job-miss, put-hit, put-miss,
}
use terraformer.Jobs.Queue.{
  Services, is_exclusive, insert, queue_answered, insert_checked, enqueue_job,
}

-- Ids are handed out in order, and there are no two active discoveries and no two active analyses.
pub record IsConsistent (db : Database) : Type 0 where
  pub fresh : All (λ job. job.id < db.next_id) db.jobs
  pub discoveries : active_count discover_ssh db.jobs ≤ 1
  pub analyses : active_count analyze_network db.jobs ≤ 1

-- The same, for each exclusive type.
exclusive_of :
    (db : Database)
    → IsConsistent db
    → (type : JobType) → is_exclusive type ≡ true
    → active_count type db.jobs ≤ 1
exclusive_of db c discover_ssh e = c.discoveries
exclusive_of db c analyze_network e = c.analyses
exclusive_of db c refresh_device e = cc e
exclusive_of db c capture_config e = cc e
exclusive_of db c run_diagnostic e = cc e
exclusive_of db c apply_change e = cc e

consistent :
    (db : Database)
    → All (λ job. job.id < db.next_id) db.jobs
    → ((type : JobType) → is_exclusive type ≡ true → active_count type db.jobs ≤ 1)
    → IsConsistent db
consistent db f e = record {
  fresh = f;
  discoveries = e discover_ssh refl;
  analyses = e analyze_network refl;
}

find_job-last :
    (n : ℕ) (jobs : List Job) (job : Job)
    → All (λ j. j.id < n) jobs
    → job.id ≡ n
    → find_job n (jobs ++ job ∷ []) ≡ some job
find_job-last n [] job h e = find_job-hit n job [] ((==_iff job.id n).1 e)
find_job-last n (j ∷ jobs) job h e =
    find_job-miss n j (jobs ++ job ∷ []) (differ j.id n h.0) ∙ find_job-last n jobs job h.1 e
  where
    differ : (a b : ℕ) → a < b → (a == b) ≡ false
    differ a b l = ground arith

put-fresh :
    (n : ℕ) (new : Job) (jobs : List Job)
    → new.id < n
    → All (λ j. j.id < n) jobs
    → All (λ j. j.id < n) (put new jobs)
unfolding put
put-fresh n new [] l h = tt
put-fresh n new (job ∷ jobs) l h = elim (Bool-cases (job.id == new.id)) [
  | inl e ↦ rw (put-hit new job jobs e) (l, h.1)
  | inr e ↦ rw (put-miss new job jobs e) (h.0, put-fresh n new jobs l h.1)
]

-- A row that replaces another of its id, and is no more active, keeps the database consistent.
pub saved-IsConsistent :
    (new old : Job) (db : Database)
    → find_job new.id db.jobs ≡ some old
    → new.id < db.next_id
    → ((type : JobType) → counts type new ≤ counts type old)
    → IsConsistent db
    → IsConsistent (saved new db)
saved-IsConsistent new old db h l k c = record {
  fresh = put-fresh db.next_id new db.jobs l c.fresh;
  discoveries =
      omega
        (arith, active_count-put discover_ssh new old db.jobs h (k discover_ssh), c.discoveries);
  analyses =
      omega
        (arith, active_count-put analyze_network new old db.jobs h (k analyze_network), c.analyses);
}

same_type→eq : (a b : JobType) → same_type a b ≡ true → a ≡ b
same_type→eq a b h = ground arith

counts-one : (type : JobType) (job : Job) → counts type job ≤ 1
counts-one type job = go (same_type job.job_type type && is_active job.state)
  where
    go : (b : Bool) → one_if b ≤ 1
    go true = omega arith
    go false = omega arith

counts-other :
    (type : JobType) (job : Job) → same_type job.job_type type ≡ false → counts type job ≡ 0
counts-other type job h = rw h refl

insert-IsConsistent :
    (type : JobType) (device : Option ℕ) (db : Database)
    → (is_exclusive type && has_active type none db.jobs) ≡ false
    → IsConsistent db
    → IsConsistent (insert type device db)
unfolding insert add
insert-IsConsistent type device db h c =
    consistent (insert type device db)
      (All-append (λ job. job.id < suc db.next_id) db.jobs _
        (All-imp (λ job. job.id < db.next_id) _ (λ job l. omega (arith, l)) db.jobs c.fresh)
        (omega arith, tt))
      λ t e. bounded t e (same_type type t) refl
  where
    second : is_exclusive type ≡ true → has_active type none db.jobs ≡ false
    second e = ground (arith, h)

    inactive : (t : JobType) → is_exclusive t ≡ true → type ≡ t → has_active t none db.jobs ≡ false
    inactive t e x =
        subst (λ u. has_active u none db.jobs ≡ false) x
          (second (subst (λ u. is_exclusive u ≡ true) (sym x) e))

    bounded :
        (t : JobType)
        → is_exclusive t ≡ true
        → (b : Bool) → same_type type t ≡ b
        → active_count t (db.jobs ++ add type device db ∷ []) ≤ 1
    bounded t e true x = omega (
      arith,
      active_count-append t db.jobs (add type device db),
      counts-one t (add type device db),
      has_active-count t db.jobs (inactive t e (same_type→eq type t x)),
    )
    bounded t e false x = omega (
      arith,
      active_count-append t db.jobs (add type device db),
      counts-other t (add type device db) x,
      exclusive_of db c t e,
    )

pub counts-over : (type : JobType) (job : Job) → is_active job.state ≡ false → counts type job ≡ 0
counts-over type job h = go (same_type job.job_type type)
  where
    go : (b : Bool) → one_if (b && is_active job.state) ≡ 0
    go true = rw h refl
    go false = refl

answered-IsConsistent :
    (now : ℕ) (answer : Option Text) (type : JobType) (device : Option ℕ) (db : Database)
    → All (λ job. job.id < db.next_id) db.jobs
    → IsConsistent (insert type device db)
    → IsConsistent (queue_answered now answer (add type device db) (insert type device db)).1
unfolding queue_answered insert add fail
answered-IsConsistent now (some rq) type device db f c =
    saved-IsConsistent _ (add type device db) (insert type device db)
      (find_job-last db.next_id db.jobs (add type device db) f refl) (omega arith)
      (λ t. omega arith) c
answered-IsConsistent now none type device db f c =
    let s =
      saved-IsConsistent (fail now (codes (code queue_unavailable)) (add type device db))
        (add type device db) (insert type device db)
        (find_job-last db.next_id db.jobs (add type device db) f refl) (omega arith)
        (λ t. omega (
          arith,
          counts-over t (fail now (codes (code queue_unavailable)) (add type device db)) refl,
        ))
        c in
    record { fresh = s.fresh; discoveries = s.discoveries; analyses = s.analyses }

checked-IsConsistent :
    (services : Services) (now : ℕ) (type : JobType) (device : Option ℕ) (r : Outcome (Unit {0}))
    (db : Database)
    → (is_exclusive type && has_active type none db.jobs) ≡ false
    → IsConsistent db
    → IsConsistent (insert_checked services now type device r db).1
unfolding insert_checked
checked-IsConsistent services now type device (raised e) db h c = c
checked-IsConsistent services now type device (returned u) db h c =
    answered-IsConsistent now _ type device db c.fresh (insert-IsConsistent type device db h c)

-- Queueing a job keeps the table consistent, whatever the queue answers: no exclusive type comes to
-- have two jobs that are queued or started, through calls that do not overlap.
pub enqueue_job-IsConsistent :
    (services : Services) (now : ℕ) (type : JobType) (device : Option ℕ) (db : Database)
    → IsConsistent db
    → IsConsistent (enqueue_job services now type device db).1
unfolding enqueue_job
enqueue_job-IsConsistent services now type device db c =
    elim (Bool-cases (is_exclusive type && has_active type none db.jobs)) [
      | inl e ↦ rw e c
      | inr e ↦ rw e (checked-IsConsistent services now type device _ db e c)
    ]
