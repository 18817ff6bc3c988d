-- ===== src/Runs/Store.antt =====
-- Reads and writes of the run tables, and the admission check that the operations share
-- (logo-admin/categories_runs.py).
use arb_data_warehouse.Prelude.{
  Bool, List, Option, Text, [], any_of, false, if◌then◌else◌, ltb, none, not, some, true, ℕ, ◌&&◌,
  ◌++◌, ◌+◌, ◌==◌, ◌∷◌, nat_eq, text_eq, pair_eq,
}
use arb_data_warehouse.Runs.Types.{
  AuditAction, Job, Result, Run, RunStatus, Store, err, guard, ok, other_run, restoring,
  unknown_run, ◌>>◌,
}

-- STALE_JOB_MINUTES and RESTORE_STALE_MINUTES, in seconds.
abbrev pub stale_seconds : ℕ
stale_seconds = 900

abbrev pub coalesce : Option ℕ → ℕ → Option ℕ
coalesce none t = some t
coalesce (some s) t = some s

-- ACTIVE_STATUSES
unfoldable pub is_active : RunStatus → Bool
is_active RunStatus.queued = true
is_active RunStatus.running = true
is_active RunStatus.paused = true
is_active _ = false

-- A running run whose worker has not given a heartbeat for long enough.
unfoldable pub stale : ℕ → Option ℕ → Bool
stale now none = true
stale now (some beat) = ltb (beat + stale_seconds) now

unfoldable pub find_run : ℕ → List Run → Option Run
find_run id [] = none
find_run id (r ∷ rs) = if r.run_id == id then some r else find_run id rs

unfoldable pub get_run : Store → ℕ → Result Run
get_run s id = elim (find_run id s.runs) [ none ↦ err unknown_run | some r ↦ ok r ]

-- `UPDATE catmgr.run SET ... WHERE run_id = id`
unfoldable pub set_run : ℕ → (Run → Run) → List Run → List Run
set_run id f [] = []
set_run id f (r ∷ rs) = (if r.run_id == id then f r else r) ∷ set_run id f rs

-- `UPDATE catmgr.run_job SET ... WHERE ...`
unfoldable pub set_jobs : (Job → Bool) → (Job → Job) → List Job → List Job
set_jobs p f [] = []
set_jobs p f (j ∷ js) = (if p j then f j else j) ∷ set_jobs p f js

abbrev pub update_run : ℕ → (Run → Run) → Store → Store
update_run id f s = record s { runs = set_run id f s.runs }

abbrev pub update_jobs : (Job → Bool) → (Job → Job) → Store → Store
update_jobs p f s = record s { jobs = set_jobs p f s.jobs }

abbrev pub record_audit : AuditAction → ℕ → Store → Store
record_audit a key s = record s { audit = s.audit ++ record { action = a; entity_key = key } ∷ [] }

-- An active run of the environment other than the given one: `IS DISTINCT FROM`.
abbrev pub is_other_active : Text → Option ℕ → Run → Bool
is_other_active env none r = r.env == env && is_active r.status
is_other_active env (some id) r = r.env == env && (is_active r.status && not (r.run_id == id))

-- The job's restore is in progress and its worker alive.
unfoldable pub is_restoring : ℕ → Job → Bool
is_restoring now j = elim j.restore [
  | none ↦ false
  | some r ↦ r.is_running && not (stale now r.heartbeat_at)
]

-- _running_restores is not empty.
unfoldable pub has_restores : ℕ → Store → Text → Bool
has_restores now s env =
    any_of
      (λ (j : Job).
        is_restoring now j && any_of (λ (r : Run). r.run_id == j.run_id && r.env == env) s.runs)
      s.jobs

-- _assert_env_exclusive: one active run per environment, and no restore in progress.
unfoldable pub assert_env_exclusive : ℕ → Store → Text → Option ℕ → Result (Unit {0})
assert_env_exclusive now s env id = do
  guard (not (any_of (is_other_active env id) s.runs)) other_run
  guard (not (has_restores now s env)) restoring
