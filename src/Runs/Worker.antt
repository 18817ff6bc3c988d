-- ===== src/Runs/Worker.antt =====
-- What the claim of a worker promises (logo-admin/categories_runs.py: _claim_next_job,
-- _finish_job, _finish_run).
use arb_data_warehouse.Prelude.{
  Among, Among-keep_if, Bool-cases, List, Option-cases, Text, [], any_of, ap, arith, false,
  if◌then◌else◌, inl, inr, keep_if, keep_if-Among, leb, nat_beq_iff, none, refl, some, sym, true, ℕ,
  ◌==◌, ◌∙◌, ◌∷◌, ◌≡◌, ◌≤◌, nat_eq, text_eq, pair_eq,
}
use arb_data_warehouse.Runs.Types.{
  Job, JobResult, JobStatus, Run, Store, err, is_job_status, superseded,
}
use arb_data_warehouse.Runs.Store.{find_run, set_jobs, set_run, stale}
use arb_data_warehouse.Runs.Controls.{
  is_pending_job_of, is_running_job_of, may_pause, reclaim_stale_jobs,
}
use arb_data_warehouse.Runs.Engine.{
  claim_admitted, claim_found, claim_free, claim_job, claim_next_job, claim_pending, claim_update,
  finish_job, first_by_seq, holds_claim, next_pending,
}
use arb_data_warehouse.Runs.Exclusive.{KeepsRun}
use arb_data_warehouse.Runs.Single.{first_by_seq-Among}

pub find_run-set_run :
    (id : ℕ) (f : Run → Run) (run : Run) (runs : List Run)
    → KeepsRun f
    → find_run id runs ≡ some run
    → find_run id (set_run id f runs) ≡ some (f run)
unfolding find_run set_run
find_run-set_run id f run [] k h = absurd (cc)
find_run-set_run id f run (r ∷ rs) k h = elim (Bool-cases (r.run_id == id)) [
  | inl e ↦
      let same : r ≡ run = ground arith in
      let hit : ((f r).run_id == id) ≡ true = ap (λ v. v == id) (k.id r) ∙ e in
      rw (e, hit) (ap (λ v. some (f v)) same)
  | inr e ↦ rw (e, e) (find_run-set_run id f run rs k (ground arith))
]

pub nothing_first : (jobs : List Job) (k : Job) → first_by_seq jobs ≡ none → Among k jobs → ⊥
unfolding first_by_seq
nothing_first [] k h m = m
nothing_first (x ∷ xs) k h m = elim (Option-cases (first_by_seq xs)) [
  | inl e ↦ ground arith
  | inr (i, e) ↦ elim (Bool-cases (leb x.seq i.seq)) [ inl b ↦ ground arith | inr b ↦ ground arith ]
]

-- The least sequence number comes first.
first_by_seq-least :
    (jobs : List Job) (j k : Job) → first_by_seq jobs ≡ some j → Among k jobs → j.seq ≤ k.seq
unfolding first_by_seq
first_by_seq-least [] j k h m = absurd m
first_by_seq-least (x ∷ xs) j k h m = elim (Option-cases (first_by_seq xs)) [
  | inl e ↦ elim m [
    | inl q ↦ ground (arith, ap (λ (v : Job). v.seq) q)
    | inr q ↦ absurd (nothing_first xs k e q)
  ]
  | inr (i, e) ↦
      let behind = first_by_seq-least xs i k e in
      elim (Bool-cases (leb x.seq i.seq)) [
        | inl b ↦ elim m [
          | inl q ↦ ground (arith, ap (λ (v : Job). v.seq) q)
          | inr q ↦ ground (arith, behind q)
        ]
        | inr b ↦ elim m [
          | inl q ↦ ground (arith, ap (λ (v : Job). v.seq) q)
          | inr q ↦ ground (arith, behind q)
        ]
      ]
]

-- A job that a worker has claimed anew answers to no other token.
stale_token-set_jobs :
    (k : ℕ) (now : ℕ) (token old : Text) (jobs : List Job)
    → (token == old) ≡ false
    → any_of
        (holds_claim k old)
        (set_jobs (λ (j : Job). j.job_id == k) (claim_update now token) jobs)
      ≡ false
unfolding any_of set_jobs claim_update
stale_token-set_jobs k now token old [] h = refl
stale_token-set_jobs k now token old (j ∷ js) h =
    ground (arith, stale_token-set_jobs k now token old js h)

-- The store that a claim on a run starts from: a run that has lost its worker gives its jobs back.
abbrev pub claimable : ℕ → Store → ℕ → Run → Store
claimable now s id run = if stale now run.worker_heartbeat_at then reclaim_stale_jobs s id else s

-- The run may be worked on, `j` was one of its pending jobs, no other has a lower seq, and `j` is
-- now marked as running under the token.
abbrev pub Handed : Text → ℕ → Store → Run → Job → Type 0
Handed token id s run j =
    (may_pause run.status ≡ true)
    × (run.cancel_requested ≡ false)
    × (any_of (is_running_job_of id) s.jobs ≡ false)
    × (is_job_status j.status JobStatus.running ≡ true)
    × (j.worker_token ≡ token)
    × ((was : Job) × Among was s.jobs
        × (was.status ≡ JobStatus.pending)
        × (was.run_id ≡ id)
        × (j.run_id ≡ id)
        × (j.job_id ≡ was.job_id)
        × (j.blog_id ≡ was.blog_id)
        × (j.seq ≡ was.seq))
    × ((k : Job) → Among k s.jobs → k.status ≡ JobStatus.pending → k.run_id ≡ id → j.seq ≤ k.seq)

is_pending-only : (s : JobStatus) → is_job_status s JobStatus.pending ≡ true → s ≡ JobStatus.pending
unfolding is_job_status
is_pending-only JobStatus.pending h = refl
is_pending-only JobStatus.running h = absurd (cc)
is_pending-only JobStatus.done h = absurd (cc)
is_pending-only JobStatus.failed h = absurd (cc)
is_pending-only JobStatus.skipped h = absurd (cc)
is_pending-only JobStatus.cancelled h = absurd (cc)

is_pending_job_of-intro :
    (id : ℕ) (k : Job)
    → k.status ≡ JobStatus.pending
    → k.run_id ≡ id
    → is_pending_job_of id k ≡ true
unfolding is_job_status
is_pending_job_of-intro id k p e =
    ground (arith, nat_beq_iff k.run_id id, ap (λ s. is_job_status s JobStatus.pending) p)

module _ (now : ℕ) (token : Text) (s : Store) (id : ℕ) (run : Run) (j : Job) where
  claim_free-Handed :
      may_pause run.status ≡ true
      → run.cancel_requested ≡ false
      → (claim_free now token s id).1 ≡ some j
      → Handed token id s run j
  unfolding claim_free claim_pending next_pending claim_update is_job_status
  claim_free-Handed a c h = elim (Bool-cases (any_of (is_running_job_of id) s.jobs)) [
    | inl e ↦ absurd (ground arith)
    | inr e ↦ elim (Option-cases (next_pending id s.jobs)) [
      | inl n ↦ absurd (ground arith)
      | inr (i, n) ↦
          let picked =
            Among-keep_if (is_pending_job_of id) i s.jobs
              (first_by_seq-Among (keep_if (is_pending_job_of id) s.jobs) i n) in
          let got : claim_update now token i ≡ j = ground arith in
          let of_run : i.run_id ≡ id = ground (arith, nat_beq_iff i.run_id id, picked.1) in
          (
            a,
            c,
            e,
            sym (ap (λ (v : Job). is_job_status v.status JobStatus.running) got),
            sym (ap (λ (v : Job). v.worker_token) got),
            (
              i,
              picked.0,
              is_pending-only i.status (ground (arith, picked.1)),
              of_run,
              sym (ap (λ (v : Job). v.run_id) got) ∙ of_run,
              sym (ap (λ (v : Job). v.job_id) got),
              sym (ap (λ (v : Job). v.blog_id) got),
              sym (ap (λ (v : Job). v.seq) got),
            ),
            λ k m p r. omega (
              arith,
              ap (λ (v : Job). v.seq) got,
              first_by_seq-least (keep_if (is_pending_job_of id) s.jobs) i k n (
                  keep_if-Among (is_pending_job_of id) k s.jobs m
                    (is_pending_job_of-intro id k p r)),
            ),
          )
    ]
  ]

-- A job is handed out only of a queued or running run that nobody asked to pause and that has no
-- running job, where the running jobs of a worker whose heartbeat is overdue are pending again. It
-- is a job of that run which was pending in the table, no pending job of the run has a lower seq,
-- and it is handed out with its id, blog and seq, marked as running under the new token.
pub claim_hands_out_next :
    (now : ℕ) (token : Text) (s : Store) (id : ℕ) (run : Run) (j : Job)
    → find_run id s.runs ≡ some run
    → (claim_next_job now token s id).1 ≡ some j
    → Handed token id (claimable now s id run) run j
unfolding claim_next_job claim_found claim_admitted
claim_hands_out_next now token s id run j found h = elim (Bool-cases (may_pause run.status)) [
  | inl a ↦ elim (Bool-cases run.cancel_requested) [
    | inl c ↦ absurd (ground arith)
    | inr c ↦ claim_free-Handed now token (claimable now s id run) id run j a c (ground arith)
  ]
  | inr a ↦ absurd (ground arith)
]

-- The job table after a claim that handed out a job.
claim_free-jobs :
    (now : ℕ) (token : Text) (s : Store) (id : ℕ) (j : Job)
    → (claim_free now token s id).1 ≡ some j
    → (claim_free now token s id).0.jobs
      ≡ set_jobs (λ (k : Job). k.job_id == j.job_id) (claim_update now token) s.jobs
unfolding claim_free claim_pending claim_job claim_update
claim_free-jobs now token s id j h = elim (Bool-cases (any_of (is_running_job_of id) s.jobs)) [
  | inl e ↦ absurd (ground arith)
  | inr e ↦ elim (Option-cases (next_pending id s.jobs)) [
    | inl n ↦ absurd (ground arith)
    | inr (i, n) ↦
        let got : claim_update now token i ≡ j = ground arith in
        rw (e, n)
          (ap (λ (v : ℕ). set_jobs (λ (k : Job). k.job_id == v) (claim_update now token) s.jobs)
            (ap (λ (v : Job). v.job_id) got))
  ]
]

claim_next_job-jobs :
    (now : ℕ) (token : Text) (s : Store) (id : ℕ) (run : Run) (j : Job)
    → find_run id s.runs ≡ some run
    → (claim_next_job now token s id).1 ≡ some j
    → (claim_next_job now token s id).0.jobs
      ≡ set_jobs
          (λ (k : Job). k.job_id == j.job_id)
          (claim_update now token)
          (claimable now s id run).jobs
unfolding claim_next_job claim_found claim_admitted
claim_next_job-jobs now token s id run j found h = elim (Bool-cases (may_pause run.status)) [
  | inl a ↦ elim (Bool-cases run.cancel_requested) [
    | inl c ↦ absurd (ground arith)
    | inr c ↦
        rw (found, a, c) (claim_free-jobs now token (claimable now s id run) id j (ground arith))
  ]
  | inr a ↦ absurd (ground arith)
]

-- Once a job is claimed anew, what a former worker reports of it under its own token is refused.
pub superseded_refused :
    (now : ℕ) (token : Text) (s : Store) (id : ℕ) (run : Run) (j : Job) (later : ℕ)
    (status : JobStatus) (result : JobResult) (old : Text)
    → find_run id s.runs ≡ some run
    → (claim_next_job now token s id).1 ≡ some j
    → (token == old) ≡ false
    → finish_job later (claim_next_job now token s id).0 j.job_id id status result old
      ≡ err superseded
unfolding finish_job
superseded_refused now token s id run j later status result old found h other = rw (
  claim_next_job-jobs now token s id run j found h,
  stale_token-set_jobs j.job_id now token old (claimable now s id run).jobs other,
)
