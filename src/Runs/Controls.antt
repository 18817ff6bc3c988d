-- ===== src/Runs/Controls.antt =====
-- The operations by which people control runs (logo-admin/categories_runs.py). `now` is the
-- clock, and `wp` the status that WordPress reports when the operation asks for it.
use arb_data_warehouse.Prelude.{
  Bool, List, Option, Text, [], any_of, false, if◌then◌else◌, is_empty, keep_if, leb, length, map,
  none, not, some, sort_by, suc, true, ℕ, ◌&&◌, ◌++◌, ◌+◌, ◌==◌, ◌||◌, ◌∷◌, nat_eq, text_eq,
  pair_eq,
}
use arb_data_warehouse.Planner.Plan.{Plan}
use arb_data_warehouse.Runs.Types.{
  Audit, Job, JobStatus, Result, Run, RunStatus, Store, err, guard, is_job_status, is_run_status,
  job_reclaimed, job_retried, job_skipped, no_blogs, not_retryable, not_skippable, ok, plan_blocked,
  run_cancelled, run_created, run_pause_requested, run_resumed, run_started, still_working,
  wrong_status, ◌>>=◌, ◌>>◌,
}
use arb_data_warehouse.Runs.Readiness.{WpStatus, require_ready}
use arb_data_warehouse.Runs.Store.{
  assert_env_exclusive, coalesce, get_run, record_audit, set_jobs, stale, update_jobs, update_run,
}

-- A blog that runs before another: blog 1 first, then by id.
unfoldable pub blog_le : Plan → Plan → Bool
blog_le a b =
    (a.blog_id == 1 && not (b.blog_id == 1))
    || ((a.blog_id == 1 || not (b.blog_id == 1)) && leb a.blog_id b.blog_id)

abbrev pub new_job : ℕ → ℕ → ℕ → Plan → Job
new_job job_id run_id seq plan = record {
  job_id = job_id;
  run_id = run_id;
  blog_id = plan.blog_id;
  seq = seq;
  status = JobStatus.pending;
  attempt = 0;
  request_id = [];
  worker_token = [];
  started_at = none;
  finished_at = none;
  result = none;
  restore = none;
}

-- One pending job for each plan, numbered from `seq`.
unfoldable pub new_jobs : ℕ → ℕ → ℕ → List Plan → List Job
new_jobs job_id run_id seq [] = []
new_jobs job_id run_id seq (p ∷ ps) =
    new_job job_id run_id seq p ∷ new_jobs (suc job_id) run_id (suc seq) ps

abbrev pub new_run : ℕ → Text → List ℕ → Bool → Run
new_run id env blogs stop = record {
  run_id = id;
  env = env;
  target_blogs = blogs;
  status = RunStatus.queued;
  stop_on_failure = stop;
  cancel_requested = false;
  started_at = none;
  finished_at = none;
  worker_heartbeat_at = none;
}

unfoldable pub insert_run : Store → Text → List Plan → Bool → Store
insert_run s env ordered stop =
    let id = s.next_run_id in
    record s {
      runs = s.runs ++ new_run id env (map (λ (p : Plan). p.blog_id) ordered) stop ∷ [];
      jobs = s.jobs ++ new_jobs s.next_job_id id 1 ordered;
      next_run_id = suc id;
      next_job_id = s.next_job_id + length ordered;
    }

-- `preview_ok` and `plans` are what the plan check returned for the blogs.
unfoldable pub create_run :
    ℕ → Option WpStatus → Store → Text → Option (List ℕ) → Bool → List Plan → Bool → Result Store
create_run now wp s env blog_ids preview_ok plans stop = do
  require_ready env wp blog_ids
  assert_env_exclusive now s env none
  guard preview_ok plan_blocked
  guard (not (is_empty plans)) no_blogs
  ok (record_audit run_created s.next_run_id (insert_run s env (sort_by blog_le plans) stop))

abbrev pub may_pause : RunStatus → Bool
may_pause RunStatus.queued = true
may_pause RunStatus.running = true
may_pause _ = false

unfoldable pub request_pause : Store → ℕ → Result Store
request_pause s id = do
  run ← get_run s id
  guard (may_pause run.status) (wrong_status run.status)
  ok (
      record_audit run_pause_requested id
        (update_run id (λ r. record r { cancel_requested = true }) s))

abbrev pub is_running_job_of : ℕ → Job → Bool
is_running_job_of id j = j.run_id == id && is_job_status j.status JobStatus.running

-- The audit rows of _reclaim_stale_jobs, one for each job that it returns to pending.
abbrev pub reclaim_audit : List Job → List Audit
reclaim_audit = map (λ (j : Job). record { action = job_reclaimed; entity_key = j.job_id })

unfoldable pub reclaim_stale_jobs : Store → ℕ → Store
reclaim_stale_jobs s id = record s {
  jobs = set_jobs (is_running_job_of id) (λ j. record j { status = JobStatus.pending }) s.jobs;
  audit = s.audit ++ reclaim_audit (keep_if (is_running_job_of id) s.jobs);
}

-- What resume does with the status that it finds: a running run must have lost its worker.
unfoldable pub admit_resume : ℕ → Store → ℕ → Run → Result Store
admit_resume now s id run = elim run.status [
  | RunStatus.running ↦
      if stale now run.worker_heartbeat_at then ok (reclaim_stale_jobs s id) else err still_working
  | RunStatus.paused ↦ ok s
  | RunStatus.failed ↦ ok s
  | RunStatus.queued ↦ ok s
  | other ↦ err (wrong_status other)
]

abbrev pub requeue : ℕ → Run → Run
requeue now r = record r {
  cancel_requested = false;
  status = RunStatus.queued;
  started_at = coalesce r.started_at now;
  finished_at = none;
}

unfoldable pub resume : ℕ → Option WpStatus → Store → ℕ → Result Store
resume now wp s id = do
  run ← get_run s id
  s' ← admit_resume now s id run
  assert_env_exclusive now s' run.env (some id)
  require_ready run.env wp (some run.target_blogs)
  ok (record_audit run_resumed id (update_run id (requeue now) s'))

unfoldable pub start : ℕ → Option WpStatus → Store → ℕ → Result Store
start now wp s id = do
  run ← get_run s id
  guard (is_run_status run.status RunStatus.queued) (wrong_status run.status)
  assert_env_exclusive now s run.env (some id)
  require_ready run.env wp (some run.target_blogs)
  ok (
      record_audit run_started id
        (update_run id (λ r. record r { started_at = coalesce r.started_at now }) s))

abbrev pub is_pending_job_of : ℕ → Job → Bool
is_pending_job_of id j = j.run_id == id && is_job_status j.status JobStatus.pending

abbrev pub may_cancel : RunStatus → Result (Unit {0})
may_cancel RunStatus.completed = err (wrong_status RunStatus.completed)
may_cancel RunStatus.cancelled = err (wrong_status RunStatus.cancelled)
may_cancel RunStatus.running = err still_working
may_cancel _ = ok tt

unfoldable pub cancel : ℕ → Store → ℕ → Result Store
cancel now s id = do
  run ← get_run s id
  may_cancel run.status
  ok (
      record_audit run_cancelled id (
        update_jobs (is_pending_job_of id) (λ j. record j { status = JobStatus.cancelled })
          (update_run id (λ r. record r { status = RunStatus.cancelled; finished_at = some now })
            s)))

abbrev pub may_retry : JobStatus → Bool
may_retry JobStatus.failed = true
may_retry JobStatus.skipped = true
may_retry _ = false

abbrev pub is_retryable_job : ℕ → ℕ → Job → Bool
is_retryable_job id job_id j = j.run_id == id && (j.job_id == job_id && may_retry j.status)

abbrev pub retry_update : Job → Job
retry_update j = record j { status = JobStatus.pending; attempt = j.attempt + 1 }

unfoldable pub retry_job : ℕ → Option WpStatus → Store → ℕ → ℕ → Result Store
retry_job now wp s id job_id = do
  run ← get_run s id
  guard (not (is_run_status run.status RunStatus.running) || stale now run.worker_heartbeat_at)
      still_working
  assert_env_exclusive now s run.env (some id)
  require_ready run.env wp (some run.target_blogs)
  guard (any_of (is_retryable_job id job_id) s.jobs) not_retryable
  ok (
      record_audit job_retried job_id
        (update_run id (requeue now) (update_jobs (is_retryable_job id job_id) retry_update s)))

abbrev pub is_skippable_job : ℕ → ℕ → Job → Bool
is_skippable_job id job_id j =
    j.run_id == id && (j.job_id == job_id && is_job_status j.status JobStatus.failed)

abbrev pub is_open_job_of : ℕ → Job → Bool
is_open_job_of id j = is_pending_job_of id j || is_running_job_of id j

-- `(j["result"] or {}).get("restored")`
abbrev pub was_restored : Job → Bool
was_restored j = elim j.result [ none ↦ false | some r ↦ r.restored ]

-- `(j["result"] or {}).get("verified") is False`
abbrev pub was_unverified : Job → Bool
was_unverified j = elim j.result [
  | none ↦ false
  | some r ↦ elim r.verified [ some false ↦ true | _ ↦ false ]
]

abbrev pub job_of : ℕ → Job → Bool
job_of id j = j.run_id == id

-- The terminal status that _finish_run gives to a run with these jobs.
unfoldable pub terminal_status : List Job → RunStatus
terminal_status jobs =
    if any_of (λ (j : Job). is_job_status j.status JobStatus.failed) jobs
    then RunStatus.failed
    else if any_of (λ (j : Job). is_job_status j.status JobStatus.skipped) jobs
    then RunStatus.completed_with_skips
    else if any_of was_restored jobs
    then RunStatus.completed_with_skips
    else if any_of (λ (j : Job). is_job_status j.status JobStatus.done && was_unverified j) jobs
    then RunStatus.completed_unverified
    else RunStatus.completed

unfoldable pub finish_run : ℕ → Store → ℕ → Store
finish_run now s id =
    let status = terminal_status (keep_if (job_of id) s.jobs) in
    update_run id (λ r. record r { status = status; finished_at = some now }) s

unfoldable pub after_skip : ℕ → Store → ℕ → Result Store
after_skip now s id =
    if any_of (is_open_job_of id) s.jobs
    then (do
      run ← get_run s id
      assert_env_exclusive now s run.env (some id)
      ok (update_run id (requeue now) s))
    else ok (finish_run now s id)

unfoldable pub skip_job : ℕ → Store → ℕ → ℕ → Result Store
skip_job now s id job_id = do
  run ← get_run s id
  guard (any_of (is_skippable_job id job_id) s.jobs) not_skippable
  after_skip now
      (record_audit job_skipped job_id (
        update_jobs (is_skippable_job id job_id)
          (λ j. record j { status = JobStatus.skipped; finished_at = some now }) s))
      id
