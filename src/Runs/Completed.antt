-- ===== src/Runs/Completed.antt =====
-- When a run counts as completed (logo-admin/categories_runs.py: _claim_next_job, _finish_run).
use arb_data_warehouse.Prelude.{
  Among, Bool, Bool-cases, List, List-cases, Option-cases, Text, [], any_of, ap, arith, false, inl,
  inr, keep_if, keep_if-Among, nat_beq_iff, none, refl, some, sym, true, ℕ, ◌&&◌, ◌||◌, ◌∙◌, ◌∷◌,
  ◌≡◌, nat_eq, text_eq, pair_eq,
}
use arb_data_warehouse.Runs.Types.{Job, JobStatus, Run, RunStatus, Store, is_job_status}
use arb_data_warehouse.Runs.Store.{coalesce, find_run, stale}
use arb_data_warehouse.Runs.Controls.{
  finish_run, is_pending_job_of, is_running_job_of, job_of, may_pause, terminal_status,
  was_restored, was_unverified,
}
use arb_data_warehouse.Runs.Engine.{
  claim_admitted, claim_found, claim_free, claim_job, claim_next_job, claim_pending, first_by_seq,
  next_pending,
}
use arb_data_warehouse.Runs.Operations.{reclaim_if-runs}
use arb_data_warehouse.Runs.Worker.{claimable, find_run-set_run, nothing_first}

-- The job is finished: carried out or called off.
abbrev pub is_over : Job → Bool
is_over j = is_job_status j.status JobStatus.done || is_job_status j.status JobStatus.cancelled

pub none_passes :
    (p : Job → Bool) (jobs : List Job) (j : Job)
    → any_of p jobs ≡ false
    → Among j jobs
    → p j ≡ false
unfolding any_of
none_passes p [] j h m = absurd m
none_passes p (x ∷ xs) j h (inl e) = ap p e ∙ ground arith
none_passes p (x ∷ xs) j h (inr m) = none_passes p xs j (ground arith) m

abbrev is_failed : Job → Bool
is_failed j = is_job_status j.status JobStatus.failed

abbrev is_skipped : Job → Bool
is_skipped j = is_job_status j.status JobStatus.skipped

abbrev pub is_doubtful : Job → Bool
is_doubtful j = is_job_status j.status JobStatus.done && was_unverified j

completed-none :
    (jobs : List Job)
    → terminal_status jobs ≡ RunStatus.completed
    → (any_of is_failed jobs ≡ false)
      × (any_of is_skipped jobs ≡ false)
      × (any_of was_restored jobs ≡ false)
      × (any_of is_doubtful jobs ≡ false)
unfolding terminal_status
completed-none jobs h = ground arith

some_status :
    (j : Job)
    → is_failed j ≡ false
    → is_skipped j ≡ false
    → is_job_status j.status JobStatus.pending ≡ false
    → is_job_status j.status JobStatus.running ≡ false
    → is_over j ≡ true
unfolding is_job_status
some_status j f s p r = ground arith

all_over :
    (id : ℕ) (jobs : List Job) (j : Job)
    → any_of (is_running_job_of id) jobs ≡ false
    → any_of (is_pending_job_of id) jobs ≡ false
    → terminal_status (keep_if (job_of id) jobs) ≡ RunStatus.completed
    → Among j jobs
    → j.run_id ≡ id
    → (is_over j ≡ true) × (was_restored j ≡ false) × (is_doubtful j ≡ false)
all_over id jobs j r p t m e =
    let of : job_of id j ≡ true = (nat_beq_iff j.run_id id).1 e in
    let kept = keep_if-Among (job_of id) j jobs m of in
    let none = completed-none (keep_if (job_of id) jobs) t in
    let lacks = λ (q : Job → Bool) (h : any_of q (keep_if (job_of id) jobs) ≡ false).
      none_passes q (keep_if (job_of id) jobs) j h kept in
    (
      some_status j (lacks is_failed none.0) (lacks is_skipped none.1)
          (ground (arith, none_passes (is_pending_job_of id) jobs j p m))
          (ground (arith, none_passes (is_running_job_of id) jobs j r m)),
      lacks was_restored none.2,
      lacks is_doubtful none.3,
    )

nothing_kept : (p : Job → Bool) (jobs : List Job) → keep_if p jobs ≡ [] → any_of p jobs ≡ false
unfolding keep_if any_of
nothing_kept p [] h = refl
nothing_kept p (j ∷ js) h = elim (Bool-cases (p j)) [
  | inl e ↦ absurd (ground arith)
  | inr e ↦ ground (arith, nothing_kept p js)
]

no_pending :
    (id : ℕ) (jobs : List Job)
    → next_pending id jobs ≡ none
    → any_of (is_pending_job_of id) jobs ≡ false
unfolding next_pending
no_pending id jobs h =
    nothing_kept (is_pending_job_of id) jobs
      (elim (List-cases (keep_if (is_pending_job_of id) jobs)) [
        | inl e ↦ e
        | inr (k, ks, e) ↦
            absurd (nothing_first (k ∷ ks) k (ap first_by_seq (sym e) ∙ h) (inl refl))
      ])

completed_free :
    (now : ℕ) (token : Text) (s : Store) (id : ℕ) (run after : Run) (j : Job)
    → find_run id s.runs ≡ some run
    → may_pause run.status ≡ true
    → find_run id (claim_free now token s id).0.runs ≡ some after
    → after.status ≡ RunStatus.completed
    → Among j s.jobs
    → j.run_id ≡ id
    → (is_over j ≡ true) × (was_restored j ≡ false) × (is_doubtful j ≡ false)
unfolding claim_free claim_pending claim_job finish_run
completed_free now token s id run after j found a h ended m e =
    elim (Bool-cases (any_of (is_running_job_of id) s.jobs)) [
      | inl r ↦ absurd (ground arith)
      | inr r ↦ elim (Option-cases (next_pending id s.jobs)) [
        | inl n ↦
            let hit =
              find_run-set_run id
                (λ (v : Run). record v {
                  status = terminal_status (keep_if (job_of id) s.jobs);
                  finished_at = some now;
                })
                run s.runs (record { id = λ r. refl; env = λ r. refl }) found in
            all_over id s.jobs j r (no_pending id s.jobs n) (ground (arith, hit)) m e
        | inr (i, n) ↦
            let hit =
              find_run-set_run id
                (λ (v : Run). record v {
                  status = RunStatus.running;
                  started_at = coalesce v.started_at now;
                  worker_heartbeat_at = some now;
                })
                run s.runs (record { id = λ r. refl; env = λ r. refl }) found in
            absurd (ground (arith, hit))
      ]
    ]

-- A run is completed, with no warning attached, only when each of its jobs was carried out or
-- called off, none was restored, and no check of a job that was carried out failed.
pub completed_means_done :
    (now : ℕ) (token : Text) (s : Store) (id : ℕ) (run after : Run) (j : Job)
    → find_run id s.runs ≡ some run
    → may_pause run.status ≡ true
    → find_run id (claim_next_job now token s id).0.runs ≡ some after
    → after.status ≡ RunStatus.completed
    → Among j (claimable now s id run).jobs
    → j.run_id ≡ id
    → (is_over j ≡ true) × (was_restored j ≡ false) × (is_doubtful j ≡ false)
unfolding claim_next_job claim_found claim_admitted
completed_means_done now token s id run after j found a h ended m e =
    elim (Bool-cases run.cancel_requested) [
      | inl c ↦
          let hit =
            find_run-set_run id
              (λ (v : Run). record v { status = RunStatus.paused; cancel_requested = false }) run
              (claimable now s id run).runs (record { id = λ r. refl; env = λ r. refl })
              (ap (find_run id) (reclaim_if-runs s id (stale now run.worker_heartbeat_at))
                ∙ found) in
          absurd (ground (arith, hit))
      | inr c ↦
          completed_free now token (claimable now s id run) id run after j
            (ap (find_run id) (reclaim_if-runs s id (stale now run.worker_heartbeat_at)) ∙ found) a
            (ground arith) ended m e
    ]
