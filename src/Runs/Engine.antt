-- ===== src/Runs/Engine.antt =====
-- The job worker (logo-admin/categories_runs.py): claiming the next job of a run, finishing a job,
-- the loop over the jobs, and the recovery at startup. A worker token stands for token_hex.
use arb_data_warehouse.Prelude.{
  Bool, List, Option, Text, [], any_of, false, if◌then◌else◌, keep_if, leb, map, none, some, text,
  true, ℕ, ◌&&◌, ◌++◌, ◌==◌, ◌||◌, ◌∷◌, nat_eq, text_eq, pair_eq,
}
use arb_data_warehouse.Planner.Names.{decimal}
use arb_data_warehouse.Runs.Types.{
  Audit, Job, JobResult, JobStatus, Result, Run, RunStatus, Store, err, guard, is_run_status, ok,
  restore_failed, superseded, ◌>>◌,
}
use arb_data_warehouse.Runs.Store.{coalesce, find_run, set_jobs, stale, update_jobs, update_run}
use arb_data_warehouse.Runs.Controls.{
  finish_run, is_pending_job_of, is_running_job_of, may_pause, reclaim_stale_jobs,
}

-- `ORDER BY seq LIMIT 1` over the jobs that pass a test.
unfoldable pub first_by_seq : List Job → Option Job
first_by_seq [] = none
first_by_seq (j ∷ js) = elim (first_by_seq js) [
  | none ↦ some j
  | some k ↦ if leb j.seq k.seq then some j else some k
]

unfoldable pub next_pending : ℕ → List Job → Option Job
next_pending id jobs = first_by_seq (keep_if (is_pending_job_of id) jobs)

-- The attempt only moves on a retry; a first claim makes it 1.
abbrev pub claimed_attempt : Job → ℕ
claimed_attempt j = if j.attempt == 0 then 1 else j.attempt

abbrev pub request_id_of : Job → Text
request_id_of j = text "j" ++ (decimal j.job_id ++ (text "a" ++ decimal (claimed_attempt j)))

-- The job row as the claim leaves it.
unfoldable pub claim_update : ℕ → Text → Job → Job
claim_update now token j = record j {
  status = JobStatus.running;
  attempt = claimed_attempt j;
  started_at = coalesce j.started_at now;
  request_id = request_id_of j;
  worker_token = token;
}

abbrev pub heartbeat : ℕ → Run → Run
heartbeat now r = record r { worker_heartbeat_at = some now }

unfoldable pub claim_job : ℕ → Text → Store → ℕ → Job → Store
claim_job now token s id j =
    update_run id
      (λ r. record r {
        status = RunStatus.running;
        started_at = coalesce r.started_at now;
        worker_heartbeat_at = some now;
      })
      (update_jobs (λ (k : Job). k.job_id == j.job_id) (claim_update now token) s)

-- The claim on a run without a running job: the next pending job, or the end of the run.
unfoldable pub claim_pending : ℕ → Text → Store → ℕ → Option Job → Store × Option Job
claim_pending now token s id none = (finish_run now s id, none)
claim_pending now token s id (some j) =
    (claim_job now token s id j, some (claim_update now token j))

unfoldable pub claim_free : ℕ → Text → Store → ℕ → Store × Option Job
claim_free now token s id =
    if any_of (is_running_job_of id) s.jobs
    then (s, none)
    else claim_pending now token s id (next_pending id s.jobs)

-- The claim on a run that may hand out work, after the stale jobs are back.
unfoldable pub claim_admitted : ℕ → Text → Store → ℕ → Run → Store × Option Job
claim_admitted now token s id run =
    if run.cancel_requested
    then (
      update_run id (λ r. record r { status = RunStatus.paused; cancel_requested = false }) s,
      none,
    )
    else claim_free now token s id

unfoldable pub claim_found : ℕ → Text → Store → ℕ → Option Run → Store × Option Job
claim_found now token s id none = (s, none)
claim_found now token s id (some run) =
    if may_pause run.status
    then claim_admitted now token
        (if stale now run.worker_heartbeat_at then reclaim_stale_jobs s id else s) id run
    else (s, none)

-- _claim_next_job
unfoldable pub claim_next_job : ℕ → Text → Store → ℕ → Store × Option Job
claim_next_job now token s id = claim_found now token s id (find_run id s.runs)

-- The row that a worker may still write: _guarded_update.
abbrev pub holds_claim : ℕ → Text → Job → Bool
holds_claim job_id token j = j.job_id == job_id && j.worker_token == token

-- _finish_job with a worker's token.
unfoldable pub finish_job : ℕ → Store → ℕ → ℕ → JobStatus → JobResult → Text → Result Store
finish_job now s job_id id status result token = do
  guard (any_of (holds_claim job_id token) s.jobs) superseded
  ok (
      update_run id (heartbeat now) (
        update_jobs (holds_claim job_id token)
          (λ j. record j { status = status; result = some result; finished_at = some now }) s))

-- What executing a job came to: its result, a failure, or the loss of the claim.
pub data Outcome : Type 0 where
  applied : JobResult → Outcome
  broken : JobResult → Outcome
  lost : Outcome

-- `_set_run_status(..., "failed", finished=True)`
unfoldable pub fail_run : ℕ → Store → ℕ → Store
fail_run now s id =
    update_run id (λ r. record r { status = RunStatus.failed; finished_at = some now }) s

-- One round of the loop of process_run after a claim; true means that the loop goes on.
unfoldable pub settle_job : ℕ → Store → ℕ → Bool → Job → Outcome → Store × Bool
settle_job now s id stop j (applied r) =
    elim (finish_job now s j.job_id id JobStatus.done r j.worker_token) [
      | ok s' ↦ (s', true)
      | err e ↦ (s, false)
    ]
settle_job now s id stop j (broken r) =
    elim (finish_job now s j.job_id id JobStatus.failed r j.worker_token) [
      | ok s' ↦ if stop then (fail_run now s' id, false) else (s', true)
      | err e ↦ (s, false)
    ]
settle_job now s id stop j lost = (s, false)

-- process_run, on a schedule: the clock, the token and the outcome of each round.
unfoldable pub process_run : Store → ℕ → Bool → List (ℕ × Text × Outcome) → Store
process_run s id stop [] = s
process_run s id stop ((now, token, outcome) ∷ rounds) =
    let claimed = claim_next_job now token s id in
    elim claimed.1 [
      | none ↦ claimed.0
      | some j ↦
          let settled = settle_job now claimed.0 id stop j outcome in
          elim settled.1 [ true ↦ process_run settled.0 id stop rounds | false ↦ settled.0 ]
    ]

-- The runs that recover_runs wakes: running ones, and queued ones that a person started.
unfoldable pub is_woken : Run → Bool
is_woken r =
    is_run_status r.status RunStatus.running
    || (is_run_status r.status RunStatus.queued
        && elim r.started_at [ none ↦ false | some t ↦ true ])

unfoldable pub recover_run : ℕ → Store → ℕ → Store
recover_run now s id =
    update_run id
      (λ r.
        if is_run_status r.status RunStatus.running
        then record r { status = RunStatus.queued; worker_heartbeat_at = some now }
        else r)
      (reclaim_stale_jobs s id)

unfoldable pub recover_each : ℕ → Store → List Run → Store
recover_each now s [] = s
recover_each now s (r ∷ rs) = recover_each now (recover_run now s r.run_id) rs

-- A restore in progress, whose worker died with its process, is marked as failed.
abbrev pub has_running_restore : Job → Bool
has_running_restore j = elim j.restore [ none ↦ false | some r ↦ r.is_running ]

abbrev pub orphan_restore : Job → Job
orphan_restore j = record j {
  restore = elim j.restore [ none ↦ none | some r ↦ some (record r { is_running = false }) ];
}

abbrev pub orphan_audit : List Job → List Audit
orphan_audit = map (λ (j : Job). record { action = restore_failed; entity_key = j.job_id })

unfoldable pub orphan_restores : Store → Store
orphan_restores s = record s {
  jobs = set_jobs has_running_restore orphan_restore s.jobs;
  audit = s.audit ++ orphan_audit (keep_if has_running_restore s.jobs);
}

-- recover_runs, up to waking the workers.
unfoldable pub recover_runs : ℕ → Store → Store
recover_runs now s = orphan_restores (recover_each now s (keep_if is_woken s.runs))
