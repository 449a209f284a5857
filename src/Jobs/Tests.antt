-- ===== src/Jobs/Tests.antt =====
-- Examples of jobs: a capture that is queued, executed and delivered again, and two discoveries.
use terraformer.Base.{◌≡◌, refl, arith, none, some, [], ◌∷◌}
use terraformer.Text.{codes}
use terraformer.Errors.{conflict, driver_timeout}
use terraformer.Models.{capture_config, discover_ssh, queued}
use terraformer.Pipeline.{returned, raised, app}
use terraformer.Jobs.{Job, Database, find_job}
use terraformer.Jobs.Execute.{Work, execute_job}
use terraformer.Jobs.Execute.Ends.{KeepsRow, JobEnds, execute_job-JobEnds, execute_once}
use terraformer.Jobs.Execute.Consistent.{KeepsConsistent, execute_job-IsConsistent}
use terraformer.Jobs.Queue.{Services, enqueue_job}
use terraformer.Jobs.Queue.Exclusive.{IsConsistent, enqueue_job-IsConsistent}

abbrev capturing : Job
capturing = record {
  id = 0;
  job_type = capture_config;
  state = queued;
  device_id = some 7;
  rq_job_id = none;
  error_code = none;
  started_at = none;
  finished_at = none;
}

abbrev one_queued : Database
one_queued = record { jobs = capturing ∷ []; events = []; next_id = 1 }

-- The device does not answer in time.
abbrev timing_out : Work
timing_out job db = (raised (app driver_timeout), db)

timing_out-KeepsRow : KeepsRow timing_out 0
timing_out-KeepsRow job db = refl

found_lem : find_job 0 one_queued.jobs ≡ some capturing
unfolding find_job
found_lem = refl

execute_job-JobEnds_example : JobEnds 0 (execute_job timing_out 5 0 one_queued)
execute_job-JobEnds_example =
    execute_job-JobEnds timing_out 5 0 one_queued capturing timing_out-KeepsRow found_lem refl

execute_once_example :
    execute_job timing_out 9 0 (execute_job timing_out 5 0 one_queued).1
    ≡ (raised (app conflict), (execute_job timing_out 5 0 one_queued).1)
execute_once_example =
    execute_once timing_out timing_out 5 9 0 one_queued capturing timing_out-KeepsRow found_lem refl

abbrev taking : Services
taking = record { get_device = λ id. returned tt; enqueue = λ job. some (codes "rq-1") }

one_queued-IsConsistent : IsConsistent one_queued
one_queued-IsConsistent = record {
  fresh = (omega arith, tt);
  discoveries = omega arith;
  analyses = omega arith;
}

enqueue_job-IsConsistent_example :
    IsConsistent (enqueue_job taking 5 discover_ssh none one_queued).1
enqueue_job-IsConsistent_example =
    enqueue_job-IsConsistent taking 5 discover_ssh none one_queued one_queued-IsConsistent

timing_out-KeepsConsistent : KeepsConsistent timing_out
timing_out-KeepsConsistent job db c = c

execute_job-IsConsistent_example : IsConsistent (execute_job timing_out 5 0 one_queued).1
execute_job-IsConsistent_example =
    execute_job-IsConsistent timing_out 5 0 one_queued timing_out-KeepsConsistent
      one_queued-IsConsistent
