-- ===== src/Runs/Single.antt =====
-- One running job per run (logo-admin/categories_runs.py), operation by operation.
use arb_data_warehouse.Prelude.{
  All-append, Among, Among-keep_if, Bool, Bool-cases, List, Option, Option-cases, Text, [], any_of,
  ap, arith, contains, count_if, count_if-append, false, if◌then◌else◌, inl, inr, is_empty, keep_if,
  leb, length, map, nat_beq_iff, none, not, refl, some, sort_by, suc, sym, true, ℕ, ◌++◌, ◌+◌, ◌<◌,
  ◌||◌, ◌∙◌, ◌∷◌, ◌≡◌, nat_eq, text_eq, pair_eq,
}
use arb_data_warehouse.Planner.Plan.{Plan}
use arb_data_warehouse.Runs.Types.{
  Job, JobResult, JobStatus, Run, RunStatus, Store, guard, is_job_status, is_run_status, no_blogs,
  not_retryable, not_skippable, plan_blocked, still_working,
}
use arb_data_warehouse.Runs.Readiness.{WpStatus, require_ready}
use arb_data_warehouse.Runs.Store.{assert_env_exclusive, find_run, stale}
use arb_data_warehouse.Runs.Controls.{
  admit_resume, after_skip, blog_le, cancel, create_run, finish_run, insert_run, is_open_job_of,
  is_pending_job_of, is_retryable_job, is_running_job_of, is_skippable_job, may_cancel, may_pause,
  new_job, new_jobs, reclaim_stale_jobs, request_pause, resume, retry_job, retry_update, skip_job,
  start,
}
use arb_data_warehouse.Runs.Engine.{
  claim_admitted, claim_found, claim_free, claim_job, claim_next_job, claim_pending, claim_update,
  fail_run, finish_job, first_by_seq, holds_claim, next_pending,
}
use arb_data_warehouse.Runs.Ensures.{
  Ensures, Ensures-bind, Ensures-get_run, Ensures-guard, Ensures-seq,
}
use arb_data_warehouse.Runs.Fresh.{
  Distinct-snoc, absent-below, append_nil, below-suc, map-snoc, snoc-append,
}
use arb_data_warehouse.Runs.Jobs.{IsSingle, IsSingle-claim, IsSingle-set_jobs, job_key}

abbrev pub Single : Store → Type 0
Single s = IsSingle s.jobs s.next_job_id

IsSingle-snoc :
    (jobs : List Job) (next : ℕ) (j : Job)
    → IsSingle jobs next
    → j.job_id ≡ next
    → is_job_status j.status JobStatus.running ≡ false
    → IsSingle (jobs ++ j ∷ []) (suc next)
unfolding count_if
IsSingle-snoc jobs next j inv e idle = record {
  ids = rw (map-snoc job_key jobs j) (
      Distinct-snoc (map job_key jobs) j.job_id inv.ids
        (ap (contains (map job_key jobs)) e ∙ absent-below job_key next jobs inv.below));
  below =
      All-append (λ (x : Job). x.job_id < suc next) jobs (j ∷ [])
        (below-suc job_key next jobs inv.below) (omega arith, tt);
  one_running = λ id.
      ground (arith, count_if-append (is_running_job_of id) jobs (j ∷ []), inv.one_running id);
}

next_nil : (n : ℕ) → n + 0 ≡ n
next_nil n = omega arith

next_cons : (n m : ℕ) → n + suc m ≡ suc n + m
next_cons n m = omega arith

IsSingle-new_jobs :
    (ps : List Plan) (jobs : List Job) (next id seq : ℕ)
    → IsSingle jobs next
    → IsSingle (jobs ++ new_jobs next id seq ps) (next + length ps)
unfolding new_jobs is_job_status
IsSingle-new_jobs [] jobs next id seq inv = rw (append_nil jobs, next_nil next) inv
IsSingle-new_jobs (p ∷ ps) jobs next id seq inv =
    let grown : IsSingle (jobs ++ new_job next id seq p ∷ []) (suc next) =
      IsSingle-snoc jobs next (new_job next id seq p) inv refl refl in
    rw
      (
        next_cons next (length ps),
        snoc-append (new_job next id seq p) jobs (new_jobs (suc next) id (suc seq) ps),
      )
      (IsSingle-new_jobs ps (jobs ++ new_job next id seq p ∷ []) (suc next) id (suc seq) grown)

pub reclaim-Single : (s : Store) (id : ℕ) → Single s → Single (reclaim_stale_jobs s id)
unfolding reclaim_stale_jobs is_job_status
reclaim-Single s id inv =
    IsSingle-set_jobs (is_running_job_of id) (λ j. record j { status = JobStatus.pending }) s.jobs
      s.next_job_id (record { id = λ j. refl; run = λ j. refl; stops = λ j. refl }) inv

module _ (s : Store) (inv : Single s) where
  pub request_pause-Single : (id : ℕ) → Ensures Single (request_pause s id)
  unfolding request_pause
  request_pause-Single id =
      Ensures-get_run Single s id _
        λ run found. Ensures-guard Single (may_pause run.status) _ _ λ _. inv

  admit_resume-Single : (now id : ℕ) (run : Run) → Ensures Single (admit_resume now s id run)
  unfolding admit_resume
  admit_resume-Single now id run = ground (arith, reclaim-Single s id inv)

  pub resume-Single :
      (now : ℕ) (wp : Option WpStatus) (id : ℕ) → Ensures Single (resume now wp s id)
  unfolding resume
  resume-Single now wp id = Ensures-get_run Single s id _ λ run found.
      Ensures-bind Single _ (admit_resume now s id run) _ (admit_resume-Single now id run)
        λ s' inv'.
          Ensures-seq Single (assert_env_exclusive now s' run.env (some id)) _
            (Ensures-seq Single (require_ready run.env wp (some run.target_blogs)) _ inv')

  pub start-Single : (now : ℕ) (wp : Option WpStatus) (id : ℕ) → Ensures Single (start now wp s id)
  unfolding start
  start-Single now wp id = Ensures-get_run Single s id _ λ run found.
      Ensures-guard Single (is_run_status run.status RunStatus.queued) _ _ λ _.
        Ensures-seq Single (assert_env_exclusive now s run.env (some id)) _
          (Ensures-seq Single (require_ready run.env wp (some run.target_blogs)) _ inv)

  pub cancel-Single : (now id : ℕ) → Ensures Single (cancel now s id)
  unfolding cancel is_job_status
  cancel-Single now id = Ensures-get_run Single s id _ λ run found.
      Ensures-seq Single (may_cancel run.status) _ (
        IsSingle-set_jobs (is_pending_job_of id) (λ j. record j { status = JobStatus.cancelled })
          s.jobs s.next_job_id (record { id = λ j. refl; run = λ j. refl; stops = λ j. refl }) inv)

  pub retry_job-Single :
      (now : ℕ) (wp : Option WpStatus) (id job_id : ℕ)
      → Ensures Single (retry_job now wp s id job_id)
  unfolding retry_job is_job_status
  retry_job-Single now wp id job_id = Ensures-get_run Single s id _ λ run found.
      Ensures-seq Single
        (guard
          (not (is_run_status run.status RunStatus.running) || stale now run.worker_heartbeat_at)
          still_working)
        _
        (Ensures-seq Single (assert_env_exclusive now s run.env (some id)) _ (
          Ensures-seq Single (require_ready run.env wp (some run.target_blogs)) _ (
            Ensures-seq Single (guard (any_of (is_retryable_job id job_id) s.jobs) not_retryable) _
              (IsSingle-set_jobs (is_retryable_job id job_id) retry_update s.jobs s.next_job_id
                (record { id = λ j. refl; run = λ j. refl; stops = λ j. refl }) inv))))

  pub finish_job-Single :
      (now job_id id : ℕ) (status : JobStatus) (result : JobResult) (token : Text)
      → is_job_status status JobStatus.running ≡ false
      → Ensures Single (finish_job now s job_id id status result token)
  unfolding finish_job
  finish_job-Single now job_id id status result token ended =
      Ensures-guard Single (any_of (holds_claim job_id token) s.jobs) _ _ λ _.
        IsSingle-set_jobs (holds_claim job_id token) _ s.jobs s.next_job_id
          (record { id = λ j. refl; run = λ j. refl; stops = λ j. ended }) inv

  pub fail_run-Single : (now id : ℕ) → Single (fail_run now s id)
  unfolding fail_run
  fail_run-Single now id = inv

  pub finish_run-Single : (now id : ℕ) → Single (finish_run now s id)
  unfolding finish_run
  finish_run-Single now id = inv

  pub after_skip-Single : (now id : ℕ) → Ensures Single (after_skip now s id)
  unfolding after_skip
  after_skip-Single now id = elim (Bool-cases (any_of (is_open_job_of id) s.jobs)) [
    | inl e ↦ rw e (
        Ensures-get_run Single s id _
          λ run found. Ensures-seq Single (assert_env_exclusive now s run.env (some id)) _ inv)
    | inr e ↦ rw e (finish_run-Single now id)
  ]

  pub create_run-Single :
      (now : ℕ) (wp : Option WpStatus) (env : Text) (blog_ids : Option (List ℕ)) (preview_ok : Bool)
      (plans : List Plan) (stop : Bool)
      → Ensures Single (create_run now wp s env blog_ids preview_ok plans stop)
  unfolding create_run insert_run
  create_run-Single now wp env blog_ids preview_ok plans stop =
      Ensures-seq Single (require_ready env wp blog_ids) _ (
        Ensures-seq Single (assert_env_exclusive now s env none) _ (
          Ensures-seq Single (guard preview_ok plan_blocked) _ (
            Ensures-seq Single (guard (not (is_empty plans)) no_blogs) _ (
              IsSingle-new_jobs (sort_by blog_le plans) s.jobs s.next_job_id s.next_run_id 1 inv))))

pub first_by_seq-Among : (jobs : List Job) (j : Job) → first_by_seq jobs ≡ some j → Among j jobs
unfolding first_by_seq
first_by_seq-Among [] j h = absurd (cc)
first_by_seq-Among (x ∷ xs) j h = elim (Option-cases (first_by_seq xs)) [
  | inl e ↦ inl (ground arith)
  | inr (k, e) ↦ elim (Bool-cases (leb x.seq k.seq)) [
    | inl b ↦ inl (ground arith)
    | inr b ↦ inr (first_by_seq-Among xs j (ground arith))
  ]
]

module _ (s : Store) (inv : Single s) where
  pub skip_job-Single : (now id job_id : ℕ) → Ensures Single (skip_job now s id job_id)
  unfolding skip_job is_job_status
  skip_job-Single now id job_id = Ensures-get_run Single s id _ λ run found.
      Ensures-seq Single (guard (any_of (is_skippable_job id job_id) s.jobs) not_skippable) _ (
        after_skip-Single _
          (IsSingle-set_jobs (is_skippable_job id job_id)
            (λ j. record j { status = JobStatus.skipped; finished_at = some now }) s.jobs
            s.next_job_id (record { id = λ j. refl; run = λ j. refl; stops = λ j. refl }) inv)
          now id)

  claim_free-Single : (now : ℕ) (token : Text) (id : ℕ) → Single (claim_free now token s id).0
  unfolding claim_free claim_pending claim_job finish_run next_pending claim_update
  claim_free-Single now token id = elim (Bool-cases (any_of (is_running_job_of id) s.jobs)) [
    | inl e ↦ rw e inv
    | inr e ↦ elim (Option-cases (next_pending id s.jobs)) [
      | inl n ↦ rw (e, n) inv
      | inr (j, n) ↦
          let picked =
            Among-keep_if (is_pending_job_of id) j s.jobs
              (first_by_seq-Among (keep_if (is_pending_job_of id) s.jobs) j n) in
          let same : id ≡ j.run_id = ground (arith, nat_beq_iff j.run_id id) in
          rw (e, n)
            (IsSingle-claim j (claim_update now token) s.jobs s.next_job_id (λ j. refl) (λ j. refl)
              picked.0 (ap (λ v. any_of (is_running_job_of v) s.jobs) (sym same) ∙ e) inv)
    ]
  ]

  claim_admitted-Single :
      (now : ℕ) (token : Text) (id : ℕ) (run : Run) → Single (claim_admitted now token s id run).0
  unfolding claim_admitted
  claim_admitted-Single now token id run = elim (Bool-cases run.cancel_requested) [
    | inl e ↦ rw e inv
    | inr e ↦ rw e (claim_free-Single now token id)
  ]

reclaim_if-Single :
    (s : Store) (id : ℕ) (b : Bool) → Single s → Single (if b then reclaim_stale_jobs s id else s)
reclaim_if-Single s id true inv = reclaim-Single s id inv
reclaim_if-Single s id false inv = inv

pub claim_next_job-Single :
    (s : Store) (now : ℕ) (token : Text) (id : ℕ)
    → Single s
    → Single (claim_next_job now token s id).0
unfolding claim_next_job claim_found
claim_next_job-Single s now token id inv = elim (Option-cases (find_run id s.runs)) [
  | inl e ↦ rw (e, claim_found) inv
  | inr (run, e) ↦ elim (Bool-cases (may_pause run.status)) [
    | inl a ↦
        rw (e, claim_found, a)
          (claim_admitted-Single
            (if stale now run.worker_heartbeat_at then reclaim_stale_jobs s id else s)
            (reclaim_if-Single s id (stale now run.worker_heartbeat_at) inv) now token id run)
    | inr a ↦ rw (e, claim_found, a) inv
  ]
]
