-- ===== src/Runs/Operations.antt =====
-- One active run per environment (logo-admin/categories_runs.py), operation by operation.
use arb_data_warehouse.Prelude.{
  All-append, Bool, Bool-cases, List, Option, Option-cases, Text, [], any_of, ap, arith, contains,
  count_if, count_if-append, false, if◌then◌else◌, inl, inr, is_empty, keep_if, map, none, not,
  refl, some, sort_by, suc, sym, text_beq_iff, true, ℕ, ◌++◌, ◌<◌, ◌||◌, ◌∙◌, ◌∷◌, ◌≡◌, nat_eq,
  text_eq, pair_eq,
}
use arb_data_warehouse.Planner.Plan.{Plan}
use arb_data_warehouse.Runs.Types.{
  Job, JobResult, JobStatus, Run, RunStatus, Store, is_run_status, job_skipped,
}
use arb_data_warehouse.Runs.Readiness.{WpStatus, require_ready}
use arb_data_warehouse.Runs.Store.{
  coalesce, find_run, is_active, is_other_active, record_audit, stale, update_jobs, update_run,
}
use arb_data_warehouse.Runs.Controls.{
  admit_resume, after_skip, blog_le, cancel, create_run, finish_run, insert_run, is_open_job_of,
  is_retryable_job, is_running_job_of, is_skippable_job, job_of, may_cancel, may_pause, new_run,
  reclaim_stale_jobs, request_pause, requeue, resume, retry_job, skip_job, start, terminal_status,
}
use arb_data_warehouse.Runs.Engine.{
  claim_admitted, claim_found, claim_free, claim_job, claim_next_job, claim_pending, fail_run,
  finish_job, heartbeat, holds_claim, next_pending,
}
use arb_data_warehouse.Runs.Exclusive.{
  IsExclusive, IsExclusive-set_run, IsExclusive-wake, KeepsRun, is_active_in, run_key,
  set_run-missing,
}
use arb_data_warehouse.Runs.Ensures.{
  Ensures, Ensures-assert, Ensures-bind, Ensures-get_run, Ensures-guard, Ensures-seq,
}
use arb_data_warehouse.Runs.Fresh.{Distinct-snoc, absent-below, below-suc, map-snoc}

abbrev pub Excl : Store → Type 0
Excl s = IsExclusive s.runs s.next_run_id

KeepsRun-requeue : (now : ℕ) → KeepsRun (requeue now)
KeepsRun-requeue now = record { id = λ r. refl; env = λ r. refl }

module _ (s : Store) (inv : Excl s) where
  pub request_pause-Excl : (id : ℕ) → Ensures Excl (request_pause s id)
  unfolding request_pause
  request_pause-Excl id = Ensures-get_run Excl s id _ λ run found.
      Ensures-guard Excl (may_pause run.status) _ _ λ _.
        IsExclusive-set_run id (λ r. record r { cancel_requested = true }) run s.runs s.next_run_id
          (record { id = λ r. refl; env = λ r. refl }) inv found (λ a. a)

  -- Reclaiming jobs leaves the runs alone.
  admit_resume-runs :
      (now id : ℕ) (run : Run)
      → Ensures
          (λ s'. (s'.runs ≡ s.runs) × (s'.next_run_id ≡ s.next_run_id))
          (admit_resume now s id run)
  unfolding admit_resume reclaim_stale_jobs
  admit_resume-runs now id run = ground arith

  pub resume-Excl : (now : ℕ) (wp : Option WpStatus) (id : ℕ) → Ensures Excl (resume now wp s id)
  unfolding resume
  resume-Excl now wp id = Ensures-get_run Excl s id _ λ run found.
      Ensures-bind Excl _ (admit_resume now s id run) _ (admit_resume-runs now id run) λ s' same.
        Ensures-assert Excl now s' run.env (some id) _ λ alone.
          Ensures-seq Excl (require_ready run.env wp (some run.target_blogs)) _ (
            rw (same.0, same.1)
              (IsExclusive-wake id (requeue now) run s.runs s.next_run_id (KeepsRun-requeue now) inv
                found (ap (any_of (is_other_active run.env (some id))) (sym same.0) ∙ alone)))

  pub start-Excl : (now : ℕ) (wp : Option WpStatus) (id : ℕ) → Ensures Excl (start now wp s id)
  unfolding start
  start-Excl now wp id = Ensures-get_run Excl s id _ λ run found.
      Ensures-guard Excl (is_run_status run.status RunStatus.queued) _ _ λ _.
        Ensures-assert Excl now s run.env (some id) _ λ alone.
          Ensures-seq Excl (require_ready run.env wp (some run.target_blogs)) _ (
            IsExclusive-set_run id (λ r. record r { started_at = coalesce r.started_at now }) run
              s.runs s.next_run_id (record { id = λ r. refl; env = λ r. refl }) inv found (λ a. a))

  pub cancel-Excl : (now id : ℕ) → Ensures Excl (cancel now s id)
  unfolding cancel
  cancel-Excl now id = Ensures-get_run Excl s id _ λ run found.
      Ensures-seq Excl (may_cancel run.status) _ (
        IsExclusive-set_run id
          (λ r. record r { status = RunStatus.cancelled; finished_at = some now }) run s.runs
          s.next_run_id (record { id = λ r. refl; env = λ r. refl }) inv found
          (λ a. unfold is_active in absurd (cc)))

  pub retry_job-Excl :
      (now : ℕ) (wp : Option WpStatus) (id job_id : ℕ) → Ensures Excl (retry_job now wp s id job_id)
  unfolding retry_job
  retry_job-Excl now wp id job_id = Ensures-get_run Excl s id _ λ run found.
      Ensures-guard Excl
        (not (is_run_status run.status RunStatus.running) || stale now run.worker_heartbeat_at) _ _
        λ _. Ensures-assert Excl now s run.env (some id) _ λ alone.
          Ensures-seq Excl (require_ready run.env wp (some run.target_blogs)) _ (
            Ensures-guard Excl (any_of (is_retryable_job id job_id) s.jobs) _ _ λ _.
              IsExclusive-wake id (requeue now) run s.runs s.next_run_id (KeepsRun-requeue now) inv
                found alone)

  terminal-inactive : (jobs : List Job) → is_active (terminal_status jobs) ≡ false
  unfolding is_active terminal_status
  terminal-inactive jobs = ground arith

  -- A write to a run that may not be there.
  pub set_run-Excl :
      (id : ℕ) (f : Run → Run)
      → KeepsRun f
      → ((run : Run)
          → find_run id s.runs ≡ some run
          → is_active (f run).status ≡ true
          → is_active run.status ≡ true)
      → Excl (update_run id f s)
  set_run-Excl id f k h = elim (Option-cases (find_run id s.runs)) [
    | inl e ↦ rw (set_run-missing id f s.runs e) inv
    | inr (run, e) ↦ IsExclusive-set_run id f run s.runs s.next_run_id k inv e (h run e)
  ]

  pub finish_run-Excl : (now id : ℕ) → Excl (finish_run now s id)
  unfolding finish_run
  finish_run-Excl now id =
      set_run-Excl id _ (record { id = λ r. refl; env = λ r. refl })
        (λ run found a. ground (arith, terminal-inactive (keep_if (job_of id) s.jobs)))

module _ (s : Store) (inv : Excl s) where
  after_skip-Excl : (now id : ℕ) → Ensures Excl (after_skip now s id)
  unfolding after_skip
  after_skip-Excl now id = elim (Bool-cases (any_of (is_open_job_of id) s.jobs)) [
    | inl e ↦ rw e (
        Ensures-get_run Excl s id _ λ run found.
          Ensures-assert Excl now s run.env (some id) _ λ alone.
            IsExclusive-wake id (requeue now) run s.runs s.next_run_id (KeepsRun-requeue now) inv
              found alone)
    | inr e ↦ rw e (finish_run-Excl s inv now id)
  ]

module _ (s : Store) (inv : Excl s) where
  pub skip_job-Excl : (now id job_id : ℕ) → Ensures Excl (skip_job now s id job_id)
  unfolding skip_job
  skip_job-Excl now id job_id = Ensures-get_run Excl s id _ λ run found.
      Ensures-guard Excl (any_of (is_skippable_job id job_id) s.jobs) _ _ λ _.
        after_skip-Excl
          (record_audit job_skipped job_id (
            update_jobs (is_skippable_job id job_id)
              (λ j. record j { status = JobStatus.skipped; finished_at = some now }) s))
          inv now id

  -- The claim hands out a job of an active run, pauses it or finishes it.
  claim_free-Excl :
      (now : ℕ) (token : Text) (id : ℕ) (run : Run)
      → find_run id s.runs ≡ some run
      → is_active run.status ≡ true
      → Excl (claim_free now token s id).0
  unfolding claim_free claim_pending claim_job
  claim_free-Excl now token id run found a =
      elim (Bool-cases (any_of (is_running_job_of id) s.jobs)) [
        | inl e ↦ rw e inv
        | inr e ↦ elim (Option-cases (next_pending id s.jobs)) [
          | inl n ↦ rw (e, n) (finish_run-Excl s inv now id)
          | inr (j, n) ↦
              rw (e, n)
                (IsExclusive-set_run id
                  (λ r. record r {
                    status = RunStatus.running;
                    started_at = coalesce r.started_at now;
                    worker_heartbeat_at = some now;
                  })
                  run s.runs s.next_run_id (record { id = λ r. refl; env = λ r. refl }) inv found
                  (λ _. a))
        ]
      ]

  claim_admitted-Excl :
      (now : ℕ) (token : Text) (id : ℕ) (run : Run)
      → find_run id s.runs ≡ some run
      → is_active run.status ≡ true
      → Excl (claim_admitted now token s id run).0
  unfolding claim_admitted
  claim_admitted-Excl now token id run found a = elim (Bool-cases run.cancel_requested) [
    | inl e ↦ rw e (
        IsExclusive-set_run id
          (λ r. record r { status = RunStatus.paused; cancel_requested = false }) run s.runs
          s.next_run_id (record { id = λ r. refl; env = λ r. refl }) inv found (λ _. a))
    | inr e ↦ rw e (claim_free-Excl now token id run found a)
  ]

may_pause-active : (status : RunStatus) → may_pause status ≡ true → is_active status ≡ true
unfolding is_active
may_pause-active RunStatus.queued h = refl
may_pause-active RunStatus.running h = refl
may_pause-active _ h = absurd (cc)

reclaim_if-Excl :
    (s : Store) (id : ℕ) (b : Bool) → Excl s → Excl (if b then reclaim_stale_jobs s id else s)
unfolding reclaim_stale_jobs
reclaim_if-Excl s id true inv = inv
reclaim_if-Excl s id false inv = inv

pub reclaim_if-runs :
    (s : Store) (id : ℕ) (b : Bool) → (if b then reclaim_stale_jobs s id else s).runs ≡ s.runs
unfolding reclaim_stale_jobs
reclaim_if-runs s id true = refl
reclaim_if-runs s id false = refl

module _ (s : Store) (inv : Excl s) where
  pub claim_next_job-Excl :
      (now : ℕ) (token : Text) (id : ℕ) → Excl (claim_next_job now token s id).0
  unfolding claim_next_job claim_found
  claim_next_job-Excl now token id = elim (Option-cases (find_run id s.runs)) [
    | inl e ↦ rw (e, claim_found) inv
    | inr (run, e) ↦ elim (Bool-cases (may_pause run.status)) [
      | inl a ↦
          rw (e, claim_found, a)
            (claim_admitted-Excl
              (if stale now run.worker_heartbeat_at then reclaim_stale_jobs s id else s)
              (reclaim_if-Excl s id (stale now run.worker_heartbeat_at) inv) now token id run
              (ap (find_run id) (reclaim_if-runs s id (stale now run.worker_heartbeat_at)) ∙ e)
              (may_pause-active run.status a))
      | inr a ↦ rw (e, claim_found, a) inv
    ]
  ]

  pub finish_job-Excl :
      (now job_id id : ℕ) (status : JobStatus) (result : JobResult) (token : Text)
      → Ensures Excl (finish_job now s job_id id status result token)
  unfolding finish_job
  finish_job-Excl now job_id id status result token =
      Ensures-guard Excl (any_of (holds_claim job_id token) s.jobs) _ _ λ _.
        set_run-Excl s inv id (heartbeat now) (record { id = λ r. refl; env = λ r. refl })
          (λ run found a. a)

  pub fail_run-Excl : (now id : ℕ) → Excl (fail_run now s id)
  unfolding fail_run is_active
  fail_run-Excl now id =
      set_run-Excl s inv id _ (record { id = λ r. refl; env = λ r. refl })
        (λ run found a. absurd (cc))

none_active :
    (env : Text) (runs : List Run)
    → any_of (is_other_active env none) runs ≡ false
    → count_if (is_active_in env) runs ≡ 0
unfolding any_of count_if
none_active env [] h = refl
none_active env (r ∷ rs) h = ground (arith, none_active env rs)

-- A new run in an environment without an active run.
IsExclusive-snoc :
    (runs : List Run) (next : ℕ) (r : Run)
    → IsExclusive runs next
    → r.run_id ≡ next
    → any_of (is_other_active r.env none) runs ≡ false
    → IsExclusive (runs ++ r ∷ []) (suc next)
unfolding count_if
IsExclusive-snoc runs next r inv e alone = record {
  ids = rw (map-snoc run_key runs r) (
      Distinct-snoc (map run_key runs) r.run_id inv.ids
        (ap (contains (map run_key runs)) e ∙ absent-below run_key next runs inv.below));
  below =
      All-append (λ (x : Run). x.run_id < suc next) runs (r ∷ [])
        (below-suc run_key next runs inv.below) (omega arith, tt);
  one_active = λ env. ground (
    arith,
    count_if-append (is_active_in env) runs (r ∷ []),
    inv.one_active env,
    none_active r.env runs alone,
    text_beq_iff r.env env,
    ap {B = ℕ} (λ v. count_if (is_active_in v) runs) {x = r.env} {y = env},
  );
}

pub create_run-Excl :
    (s : Store) (now : ℕ) (wp : Option WpStatus) (env : Text) (blog_ids : Option (List ℕ))
    (preview_ok : Bool) (plans : List Plan) (stop : Bool)
    → Excl s
    → Ensures Excl (create_run now wp s env blog_ids preview_ok plans stop)
unfolding create_run insert_run
create_run-Excl s now wp env blog_ids preview_ok plans stop inv =
    Ensures-seq Excl (require_ready env wp blog_ids) _ (
      Ensures-assert Excl now s env none _ λ alone. Ensures-guard Excl preview_ok _ _ λ _.
        Ensures-guard Excl (not (is_empty plans)) _ _ λ _.
          IsExclusive-snoc s.runs s.next_run_id
            (new_run s.next_run_id env (map (λ (p : Plan). p.blog_id) (sort_by blog_le plans)) stop)
            inv refl alone)
