-- ===== src/Runs/Ends.antt =====
-- A run whose worker goes on (logo-admin/categories_runs.py: process_run).
use arb_data_warehouse.Prelude.{
  Among, Among-keep_if, Bool, Bool-cases, List, Text, [], any_of, ap, arith, beq_refl, count_if,
  false, inl, inr, keep_if, nat_beq_iff, refl, some, sym, true, ℕ, ◌<◌, ◌==◌, ◌∙◌, ◌∷◌, ◌≡◌, ◌≤◌,
  nat_eq, text_eq, pair_eq,
}
use arb_data_warehouse.Runs.Types.{
  Job, JobResult, JobStatus, Run, RunStatus, Store, is_job_status, ok,
}
use arb_data_warehouse.Runs.Store.{
  coalesce, find_run, is_active, set_jobs, stale, update_jobs, update_run,
}
use arb_data_warehouse.Runs.Controls.{
  finish_run, is_pending_job_of, is_running_job_of, may_pause, reclaim_stale_jobs, terminal_status,
}
use arb_data_warehouse.Runs.Engine.{
  Outcome, claim_admitted, claim_found, claim_free, claim_job, claim_next_job, claim_pending,
  claim_update, fail_run, finish_job, heartbeat, holds_claim, lost, next_pending,
}
use arb_data_warehouse.Runs.Single.{first_by_seq-Among}
use arb_data_warehouse.Runs.Worker.{claimable, find_run-set_run}

-- The worker keeps its claim to the end of the job.
abbrev pub is_kept : ℕ × Text × Outcome → Bool
is_kept (now, token, lost) = false
is_kept (now, token, o) = true

-- The jobs after one has been claimed and finished.
abbrev pub settled : ℕ → Text → ℕ → JobStatus → JobResult → List Job → List Job
settled now token k st r jobs =
    set_jobs (holds_claim k token)
      (λ j. record j { status = st; result = some r; finished_at = some now })
      (set_jobs (λ (j : Job). j.job_id == k) (claim_update now token) jobs)

module _ (now : ℕ) (token : Text) (k : ℕ) (st : JobStatus) (r : JobResult) (id : ℕ) where
  settled-idle :
      (jobs : List Job)
      → is_job_status st JobStatus.running ≡ false
      → any_of (is_running_job_of id) jobs ≡ false
      → any_of (is_running_job_of id) (settled now token k st r jobs) ≡ false
  unfolding any_of set_jobs claim_update
  settled-idle [] e h = refl
  settled-idle (j ∷ js) e h = ground (arith, settled-idle js e, beq_refl token)

  settled-fewer :
      (jobs : List Job)
      → is_job_status st JobStatus.pending ≡ false
      → count_if (is_pending_job_of id) (settled now token k st r jobs)
        ≤ count_if (is_pending_job_of id) jobs
  unfolding count_if set_jobs claim_update
  settled-fewer [] e = omega arith
  settled-fewer (j ∷ js) e = ground (arith, settled-fewer js e, beq_refl token)

  settled-drops :
      (i : Job) (jobs : List Job)
      → is_job_status st JobStatus.pending ≡ false
      → Among i jobs
      → i.job_id ≡ k
      → is_pending_job_of id i ≡ true
      → count_if (is_pending_job_of id) (settled now token k st r jobs)
        < count_if (is_pending_job_of id) jobs
  unfolding count_if set_jobs claim_update
  settled-drops i [] e m q p = absurd m
  settled-drops i (j ∷ js) e (inl s) q p =
      let same : (j.job_id == k) ≡ true =
        (nat_beq_iff j.job_id k).1 (sym (ap (λ (v : Job). v.job_id) s) ∙ q) in
      let waits : is_pending_job_of id j ≡ true = sym (ap (is_pending_job_of id) s) ∙ p in
      ground (arith, settled-fewer js e, beq_refl token, same, waits)
  settled-drops i (j ∷ js) e (inr m) q p =
      ground (arith, settled-drops i js e m q p, beq_refl token)

holds-claimed :
    (now : ℕ) (token : Text) (i : Job) (jobs : List Job)
    → Among i jobs
    → any_of
        (holds_claim i.job_id token)
        (set_jobs (λ (j : Job). j.job_id == i.job_id) (claim_update now token) jobs)
      ≡ true
unfolding any_of set_jobs claim_update
holds-claimed now token i [] m = absurd m
holds-claimed now token i (j ∷ js) (inl s) =
    let same : (j.job_id == i.job_id) ≡ true =
      (nat_beq_iff j.job_id i.job_id).1 (sym (ap (λ (v : Job). v.job_id) s)) in
    ground (arith, same, beq_refl token)
holds-claimed now token i (j ∷ js) (inr m) = ground (arith, holds-claimed now token i js m)

set_jobs-none :
    (p : Job → Bool) (f : Job → Job) (jobs : List Job)
    → any_of p jobs ≡ false
    → set_jobs p f jobs ≡ jobs
unfolding set_jobs any_of
set_jobs-none p f [] h = refl
set_jobs-none p f (j ∷ js) h = ground (arith, set_jobs-none p f js)

pub claimable-jobs :
    (now : ℕ) (s : Store) (id : ℕ) (run : Run)
    → any_of (is_running_job_of id) s.jobs ≡ false
    → (claimable now s id run).jobs ≡ s.jobs
unfolding reclaim_stale_jobs
claimable-jobs now s id run h = elim (Bool-cases (stale now run.worker_heartbeat_at)) [
  | inl e ↦ rw e (set_jobs-none (is_running_job_of id) _ s.jobs h)
  | inr e ↦ rw e
]

-- A run whose worker may go on: nobody asked to pause it, and none of its jobs is running.
pub record Going (s : Store) (id : ℕ) (run : Run) : Type 0 where
  pub found : find_run id s.runs ≡ some run
  pub active : may_pause run.status ≡ true
  pub wanted : run.cancel_requested ≡ false
  pub idle : any_of (is_running_job_of id) s.jobs ≡ false

pub claim-claimable :
    (now : ℕ) (token : Text) (s : Store) (id : ℕ) (run : Run)
    → Going s id run
    → claim_next_job now token s id
      ≡ claim_pending now token
          (claimable now s id run)
          id
          (next_pending id (claimable now s id run).jobs)
unfolding claim_next_job claim_found claim_admitted claim_free
claim-claimable now token s id run g =
    let idle : any_of (is_running_job_of id) (claimable now s id run).jobs ≡ false =
      ap (any_of (is_running_job_of id)) (claimable-jobs now s id run g.idle) ∙ g.idle in
    rw (g.found, g.active, g.wanted, idle)

abbrev pub Ended : ℕ → Store → Type 0
Ended id s = (after : Run) × (find_run id s.runs ≡ some after) × (is_active after.status ≡ false)

pub finish_run-Ended :
    (now : ℕ) (s : Store) (id : ℕ) (run : Run)
    → find_run id s.runs ≡ some run
    → Ended id (finish_run now s id)
unfolding finish_run terminal_status is_active
finish_run-Ended now s id run h = (
  _,
  find_run-set_run id _ run s.runs (record { id = λ r. refl; env = λ r. refl }) h,
  ground arith,
)

pub fail_run-Ended :
    (now : ℕ) (s : Store) (id : ℕ) (run : Run)
    → find_run id s.runs ≡ some run
    → Ended id (fail_run now s id)
unfolding fail_run is_active
fail_run-Ended now s id run h =
    (_, find_run-set_run id _ run s.runs (record { id = λ r. refl; env = λ r. refl }) h, refl)

-- The store after a job has been claimed and finished.
abbrev pub settled_store : ℕ → Text → Store → ℕ → Job → JobStatus → JobResult → Store
settled_store now token s id i st r = update_run id (heartbeat now) (
    update_jobs (holds_claim i.job_id token)
      (λ j. record j { status = st; result = some r; finished_at = some now })
      (claim_job now token s id i))

pub finish-claimed :
    (now : ℕ) (token : Text) (s : Store) (id : ℕ) (i : Job) (st : JobStatus) (r : JobResult)
    → Among i s.jobs
    → finish_job now (claim_job now token s id i) i.job_id id st r token
      ≡ ok (settled_store now token s id i st r)
unfolding finish_job claim_job
finish-claimed now token s id i st r m = rw (holds-claimed now token i s.jobs m)

pub settled-found :
    (now : ℕ) (token : Text) (s : Store) (id : ℕ) (i : Job) (st : JobStatus) (r : JobResult)
    (run : Run)
    → find_run id s.runs ≡ some run
    → find_run id (settled_store now token s id i st r).runs
      ≡ some (
          heartbeat now (record run {
            status = RunStatus.running;
            started_at = coalesce run.started_at now;
            worker_heartbeat_at = some now;
          }))
unfolding claim_job
settled-found now token s id i st r run h =
    find_run-set_run id (heartbeat now) _ _ (record { id = λ r. refl; env = λ r. refl })
      (find_run-set_run id _ run s.runs (record { id = λ r. refl; env = λ r. refl }) h)

pub picked :
    (id : ℕ) (jobs : List Job) (i : Job)
    → next_pending id jobs ≡ some i
    → Among i jobs × (is_pending_job_of id i ≡ true)
unfolding next_pending
picked id jobs i h =
    Among-keep_if (is_pending_job_of id) i jobs
      (first_by_seq-Among (keep_if (is_pending_job_of id) jobs) i h)

-- A run goes on after a job of it has been claimed and finished.
pub settled-Going :
    (now : ℕ) (token : Text) (s : Store) (id : ℕ) (i : Job) (st : JobStatus) (r : JobResult)
    (run : Run)
    → find_run id s.runs ≡ some run
    → run.cancel_requested ≡ false
    → any_of (is_running_job_of id) s.jobs ≡ false
    → is_job_status st JobStatus.running ≡ false
    → Going (settled_store now token s id i st r) id (
        heartbeat now (record run {
          status = RunStatus.running;
          started_at = coalesce run.started_at now;
          worker_heartbeat_at = some now;
        }))
unfolding claim_job
settled-Going now token s id i st r run found wanted idle e = record {
  found = settled-found now token s id i st r run found;
  active = refl;
  wanted = wanted;
  idle = settled-idle now token i.job_id st r id s.jobs e idle;
}

abbrev pub pending_jobs : ℕ → Store → ℕ
pending_jobs id s = count_if (is_pending_job_of id) s.jobs

pub settled-pending :
    (now : ℕ) (token : Text) (s : Store) (id : ℕ) (i : Job) (st : JobStatus) (r : JobResult)
    → is_job_status st JobStatus.pending ≡ false
    → next_pending id s.jobs ≡ some i
    → pending_jobs id (settled_store now token s id i st r) < pending_jobs id s
unfolding claim_job
settled-pending now token s id i st r e n =
    settled-drops now token i.job_id st r id i s.jobs e (picked id s.jobs i n).0 refl
      (picked id s.jobs i n).1
