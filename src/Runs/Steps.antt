-- ===== src/Runs/Steps.antt =====
-- The operations of logo-admin/categories_runs.py as steps of the shared tables. People, workers and
-- the startup recovery take them in any order; each is one step.
use arb_data_warehouse.Prelude.{
  Bool, List, Option, Text, [], arith, count_if, false, keep_if, refl, true, ℕ, ◌==◌, ◌∷◌, ◌≡◌, ◌≤◌,
  nat_eq, text_eq, pair_eq,
}
use arb_data_warehouse.Planner.Plan.{Plan}
use arb_data_warehouse.Runs.Types.{
  Job, JobResult, JobStatus, Restore, Run, Store, is_job_status, is_run_status, ok,
}
use arb_data_warehouse.Runs.Readiness.{WpStatus}
use arb_data_warehouse.Runs.Store.{is_active, update_jobs, update_run}
use arb_data_warehouse.Runs.Controls.{
  cancel, create_run, is_running_job_of, reclaim_stale_jobs, request_pause, resume, retry_job,
  skip_job, start,
}
use arb_data_warehouse.Runs.Engine.{
  claim_next_job, fail_run, finish_job, has_running_restore, heartbeat, is_woken, orphan_restore,
  orphan_restores, recover_each, recover_run, recover_runs,
}
use arb_data_warehouse.Runs.Exclusive.{is_active_in}
use arb_data_warehouse.Runs.Ensures.{Ensures-ok}
use arb_data_warehouse.Runs.Operations.{
  Excl, cancel-Excl, claim_next_job-Excl, create_run-Excl, fail_run-Excl, finish_job-Excl,
  request_pause-Excl, resume-Excl, retry_job-Excl, set_run-Excl, skip_job-Excl, start-Excl,
}
use arb_data_warehouse.Runs.Jobs.{IsSingle-same}
use arb_data_warehouse.Runs.Single.{
  Single, cancel-Single, claim_next_job-Single, create_run-Single, fail_run-Single,
  finish_job-Single, reclaim-Single, request_pause-Single, resume-Single, retry_job-Single,
  skip_job-Single, start-Single,
}

abbrev pub empty_store : Store
empty_store = record { runs = []; jobs = []; audit = []; next_run_id = 1; next_job_id = 1 }

-- What a worker reports of a job that it has executed.
abbrev pub ending : Bool → JobStatus
ending true = JobStatus.done
ending false = JobStatus.failed

pub data Step (s : Store) : Store → Type 0 where
  created :
      (now : ℕ) (wp : Option WpStatus) (env : Text) (blog_ids : Option (List ℕ)) (preview_ok : Bool)
      (plans : List Plan) (stop : Bool) (t : Store)
      → create_run now wp s env blog_ids preview_ok plans stop ≡ ok t
      → Step s t
  pause_requested : (id : ℕ) (t : Store) → request_pause s id ≡ ok t → Step s t
  resumed :
      (now : ℕ) (wp : Option WpStatus) (id : ℕ) (t : Store) → resume now wp s id ≡ ok t → Step s t
  started :
      (now : ℕ) (wp : Option WpStatus) (id : ℕ) (t : Store) → start now wp s id ≡ ok t → Step s t
  withdrawn : (now id : ℕ) (t : Store) → cancel now s id ≡ ok t → Step s t
  retried :
      (now : ℕ) (wp : Option WpStatus) (id job_id : ℕ) (t : Store)
      → retry_job now wp s id job_id ≡ ok t
      → Step s t
  passed_over : (now id job_id : ℕ) (t : Store) → skip_job now s id job_id ≡ ok t → Step s t
  claimed : (now : ℕ) (token : Text) (id : ℕ) → Step s (claim_next_job now token s id).0
  finished :
      (now job_id id : ℕ) (good : Bool) (result : JobResult) (token : Text) (t : Store)
      → finish_job now s job_id id (ending good) result token ≡ ok t
      → Step s t
  run_failed : (now id : ℕ) → Step s (fail_run now s id)
  beat : (now id : ℕ) → Step s (update_run id (heartbeat now) s)
  restore_noted :
      (job_id : ℕ) (r : Option Restore)
      → Step s (update_jobs (λ (j : Job). j.job_id == job_id) (λ j. record j { restore = r }) s)
  recovered : (now : ℕ) → Step s (recover_runs now s)

-- The states that the steps lead to from empty tables.
pub data Reach : Store → Type 0 where
  fresh : Reach empty_store
  after : (s t : Store) → Reach s → Step s t → Reach t

recover_run-Excl : (now : ℕ) (s : Store) (id : ℕ) → Excl s → Excl (recover_run now s id)
unfolding recover_run reclaim_stale_jobs is_run_status is_active
recover_run-Excl now s id inv =
    set_run-Excl (reclaim_stale_jobs s id) inv id _
      (record { id = λ r. ground arith; env = λ r. ground arith }) (λ run found a. ground arith)

recover_each-Excl :
    (now : ℕ) (s : Store) (runs : List Run) → Excl s → Excl (recover_each now s runs)
unfolding recover_each
recover_each-Excl now s [] inv = inv
recover_each-Excl now s (r ∷ rs) inv =
    recover_each-Excl now (recover_run now s r.run_id) rs (recover_run-Excl now s r.run_id inv)

recover_each-Single :
    (now : ℕ) (s : Store) (runs : List Run) → Single s → Single (recover_each now s runs)
unfolding recover_each recover_run
recover_each-Single now s [] inv = inv
recover_each-Single now s (r ∷ rs) inv =
    recover_each-Single now (recover_run now s r.run_id) rs (reclaim-Single s r.run_id inv)

ending-stops : (good : Bool) → is_job_status (ending good) JobStatus.running ≡ false
unfolding is_job_status
ending-stops true = refl
ending-stops false = refl

orphan_restores-Single : (s : Store) → Single s → Single (orphan_restores s)
unfolding orphan_restores
orphan_restores-Single s inv =
    IsSingle-same has_running_restore orphan_restore s.jobs s.next_job_id (λ j. refl) (λ id j. refl)
      inv

Step-Excl : (s t : Store) → Step s t → Excl s → Excl t
unfolding recover_runs orphan_restores
Step-Excl s t (created now wp env ids b ps stop t' e) inv =
    Ensures-ok Excl _ t e (create_run-Excl s now wp env ids b ps stop inv)
Step-Excl s t (pause_requested id t' e) inv = Ensures-ok Excl _ t e (request_pause-Excl s inv id)
Step-Excl s t (resumed now wp id t' e) inv = Ensures-ok Excl _ t e (resume-Excl s inv now wp id)
Step-Excl s t (started now wp id t' e) inv = Ensures-ok Excl _ t e (start-Excl s inv now wp id)
Step-Excl s t (withdrawn now id t' e) inv = Ensures-ok Excl _ t e (cancel-Excl s inv now id)
Step-Excl s t (retried now wp id k t' e) inv =
    Ensures-ok Excl _ t e (retry_job-Excl s inv now wp id k)
Step-Excl s t (passed_over now id k t' e) inv = Ensures-ok Excl _ t e (skip_job-Excl s inv now id k)
Step-Excl s t (claimed now token id) inv = claim_next_job-Excl s inv now token id
Step-Excl s t (finished now k id good r token t' e) inv =
    Ensures-ok Excl _ t e (finish_job-Excl s inv now k id (ending good) r token)
Step-Excl s t (run_failed now id) inv = fail_run-Excl s inv now id
Step-Excl s t (beat now id) inv =
    set_run-Excl s inv id (heartbeat now) (record { id = λ r. refl; env = λ r. refl })
      (λ run f a. a)
Step-Excl s t (restore_noted k r) inv = inv
Step-Excl s t (recovered now) inv = recover_each-Excl now s (keep_if is_woken s.runs) inv

Step-Single : (s t : Store) → Step s t → Single s → Single t
unfolding recover_runs
Step-Single s t (created now wp env ids b ps stop t' e) inv =
    Ensures-ok Single _ t e (create_run-Single s inv now wp env ids b ps stop)
Step-Single s t (pause_requested id t' e) inv =
    Ensures-ok Single _ t e (request_pause-Single s inv id)
Step-Single s t (resumed now wp id t' e) inv =
    Ensures-ok Single _ t e (resume-Single s inv now wp id)
Step-Single s t (started now wp id t' e) inv =
    Ensures-ok Single _ t e (start-Single s inv now wp id)
Step-Single s t (withdrawn now id t' e) inv = Ensures-ok Single _ t e (cancel-Single s inv now id)
Step-Single s t (retried now wp id k t' e) inv =
    Ensures-ok Single _ t e (retry_job-Single s inv now wp id k)
Step-Single s t (passed_over now id k t' e) inv =
    Ensures-ok Single _ t e (skip_job-Single s inv now id k)
Step-Single s t (claimed now token id) inv = claim_next_job-Single s now token id inv
Step-Single s t (finished now k id good r token t' e) inv =
    Ensures-ok Single _ t e
      (finish_job-Single s inv now k id (ending good) r token (ending-stops good))
Step-Single s t (run_failed now id) inv = fail_run-Single s inv now id
Step-Single s t (beat now id) inv = inv
Step-Single s t (restore_noted k r) inv =
    IsSingle-same (λ (j : Job). j.job_id == k) (λ j. record j { restore = r }) s.jobs s.next_job_id
      (λ j. refl) (λ id j. refl) inv
Step-Single s t (recovered now) inv =
    orphan_restores-Single (recover_each now s (keep_if is_woken s.runs))
      (recover_each-Single now s (keep_if is_woken s.runs) inv)

Reach-Excl : (s : Store) → Reach s → Excl s
unfolding count_if
Reach-Excl s fresh = record { ids = tt; below = tt; one_active = λ env. omega arith }
Reach-Excl s (after s' t r step) = Step-Excl s' s step (Reach-Excl s' r)

Reach-Single : (s : Store) → Reach s → Single s
unfolding count_if
Reach-Single s fresh = record { ids = tt; below = tt; one_running = λ id. omega arith }
Reach-Single s (after s' t r step) = Step-Single s' s step (Reach-Single s' r)

-- Whatever people, workers and the recovery do and in whatever order, at most one run of an
-- environment is queued, running or paused.
pub one_active_run : (s : Store) (env : Text) → Reach s → count_if (is_active_in env) s.runs ≤ 1
one_active_run s env r = (Reach-Excl s r).one_active env

-- Whatever people, workers and the recovery do and in whatever order, at most one job of a run is
-- running.
pub one_running_job : (s : Store) (id : ℕ) → Reach s → count_if (is_running_job_of id) s.jobs ≤ 1
one_running_job s id r = (Reach-Single s r).one_running id
