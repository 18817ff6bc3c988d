-- ===== src/Runs/Types.antt =====
-- Runs and jobs as the worker's tables hold them (logo-admin/categories_runs.py).
use arb_data_warehouse.Prelude.{Bool, List, Option, Text, false, true, ℕ, nat_eq, text_eq, pair_eq}

pub data RunStatus : Type 0 where
  queued : RunStatus
  running : RunStatus
  paused : RunStatus
  completed : RunStatus
  completed_with_skips : RunStatus
  completed_unverified : RunStatus
  failed : RunStatus
  cancelled : RunStatus

pub data JobStatus : Type 0 where
  pending : JobStatus
  running : JobStatus
  done : JobStatus
  failed : JobStatus
  skipped : JobStatus
  cancelled : JobStatus

-- A row of catmgr.run. Times are seconds; NULL is none.
pub record Run : Type 0 where
  pub run_id : ℕ
  pub env : Text
  pub target_blogs : List ℕ
  pub status : RunStatus
  pub stop_on_failure : Bool
  pub cancel_requested : Bool
  pub started_at : Option ℕ
  pub finished_at : Option ℕ
  pub worker_heartbeat_at : Option ℕ

-- What is read of a job's `result`: whether a restore undid it, and what the check after the
-- apply said, if it ran.
pub record JobResult : Type 0 where
  pub restored : Bool
  pub verified : Option Bool

-- A restore in a job's progress; an absent or unreadable heartbeat is none.
pub record Restore : Type 0 where
  pub is_running : Bool
  pub heartbeat_at : Option ℕ

-- A row of catmgr.run_job.
pub record Job : Type 0 where
  pub job_id : ℕ
  pub run_id : ℕ
  pub blog_id : ℕ
  pub seq : ℕ
  pub status : JobStatus
  pub attempt : ℕ
  pub request_id : Text
  pub worker_token : Text
  pub started_at : Option ℕ
  pub finished_at : Option ℕ
  pub result : Option JobResult
  pub restore : Option Restore

pub data AuditAction : Type 0 where
  run_created : AuditAction
  run_pause_requested : AuditAction
  run_resumed : AuditAction
  run_started : AuditAction
  run_cancelled : AuditAction
  job_reclaimed : AuditAction
  job_retried : AuditAction
  job_skipped : AuditAction
  restore_failed : AuditAction

pub record Audit : Type 0 where
  pub action : AuditAction
  pub entity_key : ℕ

pub record Store : Type 0 where
  pub runs : List Run
  pub jobs : List Job
  pub audit : List Audit
  pub next_run_id : ℕ
  pub next_job_id : ℕ

-- What an operation may be refused for. A refused operation leaves the store alone, since its
-- transaction is rolled back.
pub data Refusal : Type 0 where
  unknown_run : Refusal
  wrong_status : RunStatus → Refusal
  still_working : Refusal
  other_run : Refusal
  restoring : Refusal
  not_ready : Refusal
  not_retryable : Refusal
  not_skippable : Refusal
  plan_blocked : Refusal
  no_blogs : Refusal
  superseded : Refusal

pub data Result {ℓ} (A : Type ℓ) : Type ℓ where
  err : Refusal → Result A
  ok : A → Result A

infixl 5 ◌>>=◌ ◌>>◌
-- The program raises an exception, which ends the operation.
abbrev pub ◌>>=◌ {κ ℓ} : {A : Type κ} {B : Type ℓ} → Result A → (A → Result B) → Result B
err why >>= next = err why
ok value >>= next = next value

abbrev pub guard : Bool → Refusal → Result (Unit {0})
guard false why = err why
guard true why = ok tt

abbrev pub ◌>>◌ {κ} : {A : Type κ} → Result (Unit {0}) → Result A → Result A
check >> next = check >>= λ _. next

-- Equality of statuses, as the program's `==` on their names.
unfoldable pub is_run_status : RunStatus → RunStatus → Bool
is_run_status RunStatus.queued RunStatus.queued = true
is_run_status RunStatus.running RunStatus.running = true
is_run_status RunStatus.paused RunStatus.paused = true
is_run_status RunStatus.completed RunStatus.completed = true
is_run_status RunStatus.completed_with_skips RunStatus.completed_with_skips = true
is_run_status RunStatus.completed_unverified RunStatus.completed_unverified = true
is_run_status RunStatus.failed RunStatus.failed = true
is_run_status RunStatus.cancelled RunStatus.cancelled = true
is_run_status _ _ = false

unfoldable pub is_job_status : JobStatus → JobStatus → Bool
is_job_status JobStatus.pending JobStatus.pending = true
is_job_status JobStatus.running JobStatus.running = true
is_job_status JobStatus.done JobStatus.done = true
is_job_status JobStatus.failed JobStatus.failed = true
is_job_status JobStatus.skipped JobStatus.skipped = true
is_job_status JobStatus.cancelled JobStatus.cancelled = true
is_job_status _ _ = false
