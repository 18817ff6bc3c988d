-- ===== src/Runs/Terminates.antt =====
-- When process_run of logo-admin/categories_runs.py is over.
use mathlib.Core.Path.{subst}
use arb_data_warehouse.Prelude.{
  All, Among, Bool, List, Option, Option-cases, Text, [], any_of, ap, arith, count_if, false,
  if◌then◌else◌, inl, inr, length, none, refl, some, sym, true, ℕ, ◌<◌, ◌∙◌, ◌∷◌, ◌≡◌, nat_eq,
  text_eq, pair_eq,
}
use arb_data_warehouse.Runs.Types.{
  Job, JobResult, JobStatus, Result, Run, Store, err, is_job_status, ok,
}
use arb_data_warehouse.Runs.Store.{find_run, stale}
use arb_data_warehouse.Runs.Controls.{finish_run, is_pending_job_of, is_running_job_of}
use arb_data_warehouse.Runs.Engine.{
  Outcome, applied, broken, claim_job, claim_next_job, claim_pending, claim_update, fail_run, lost,
  next_pending, process_run, settle_job,
}
use arb_data_warehouse.Runs.Operations.{reclaim_if-runs}
use arb_data_warehouse.Runs.Worker.{claimable}
use arb_data_warehouse.Runs.Ends.{
  Ended, Going, claim-claimable, claimable-jobs, fail_run-Ended, finish-claimed, finish_run-Ended,
  is_kept, pending_jobs, picked, settled-Going, settled-found, settled-pending, settled_store,
}

-- The loop goes on with the rest or stops.
abbrev go_on : (Store → Store) → Store × Bool → Store
go_on rest x = elim x.1 [ true ↦ rest x.0 | false ↦ x.0 ]

-- A round of the loop, given the claim.
abbrev go_claimed : ℕ → ℕ → Bool → Outcome → (Store → Store) → Store × Option Job → Store
go_claimed now id stop o rest x = elim x.1 [
  | none ↦ x.0
  | some j ↦ go_on rest (settle_job now x.0 id stop j o)
]

settle-applied :
    (now : ℕ) (token : Text) (c : Store) (id : ℕ) (stop : Bool) (i : Job) (r : JobResult)
    → Among i c.jobs
    → settle_job now (claim_job now token c id i) id stop (claim_update now token i) (applied r)
      ≡ (settled_store now token c id i JobStatus.done r, true)
unfolding settle_job claim_update
settle-applied now token c id stop i r m =
    ap
      (λ (v : Result Store). elim v as (λ _. Store × Bool) [
        | ok s' ↦ (s', true)
        | err e ↦ (claim_job now token c id i, false)
      ])
      (finish-claimed now token c id i JobStatus.done r m)

settle-broken :
    (now : ℕ) (token : Text) (c : Store) (id : ℕ) (stop : Bool) (i : Job) (r : JobResult)
    → Among i c.jobs
    → settle_job now (claim_job now token c id i) id stop (claim_update now token i) (broken r) ≡ (
        let t = settled_store now token c id i JobStatus.failed r in
        if stop then (fail_run now t id, false) else (t, true))
unfolding settle_job claim_update
settle-broken now token c id stop i r m =
    ap
      (λ (v : Result Store). elim v as (λ _. Store × Bool) [
        | ok s' ↦ if stop then (fail_run now s' id, false) else (s', true)
        | err e ↦ (claim_job now token c id i, false)
      ])
      (finish-claimed now token c id i JobStatus.failed r m)

-- What is left of the loop after a claim, where the rest of it ends from each store with fewer
-- pending jobs.
settle-Ended :
    (now : ℕ) (token : Text) (c : Store) (id : ℕ) (stop : Bool) (i : Job) (o : Outcome) (run : Run)
    (rest : Store → Store)
    → find_run id c.runs ≡ some run
    → run.cancel_requested ≡ false
    → any_of (is_running_job_of id) c.jobs ≡ false
    → next_pending id c.jobs ≡ some i
    → is_kept (now, token, o) ≡ true
    → ((t : Store) (run' : Run)
        → Going t id run'
        → pending_jobs id t < pending_jobs id c
        → Ended id (rest t))
    → Ended id (
        go_on rest
          (settle_job now (claim_job now token c id i) id stop (claim_update now token i) o))
unfolding is_job_status
settle-Ended now token c id stop i lost run rest found wanted idle n k next = absurd (cc)
settle-Ended now token c id stop i (applied r) run rest found wanted idle n k next =
    subst (λ v. Ended id (go_on rest v))
      (sym (settle-applied now token c id stop i r (picked id c.jobs i n).0))
      (next (settled_store now token c id i JobStatus.done r) _
        (settled-Going now token c id i JobStatus.done r run found wanted idle refl)
        (settled-pending now token c id i JobStatus.done r refl n))
settle-Ended now token c id true i (broken r) run rest found wanted idle n k next =
    subst (λ v. Ended id (go_on rest v))
      (sym (settle-broken now token c id true i r (picked id c.jobs i n).0))
      (fail_run-Ended now (settled_store now token c id i JobStatus.failed r) id _
        (settled-found now token c id i JobStatus.failed r run found))
settle-Ended now token c id false i (broken r) run rest found wanted idle n k next =
    subst (λ v. Ended id (go_on rest v))
      (sym (settle-broken now token c id false i r (picked id c.jobs i n).0))
      (next (settled_store now token c id i JobStatus.failed r) _
        (settled-Going now token c id i JobStatus.failed r run found wanted idle refl)
        (settled-pending now token c id i JobStatus.failed r refl n))

process_run-claimed :
    (id : ℕ) (stop : Bool) (now : ℕ) (token : Text) (o : Outcome)
    (rounds : List (ℕ × Text × Outcome)) (s : Store) (x : Store × Option Job)
    → claim_next_job now token s id ≡ x
    → process_run s id stop ((now, token, o) ∷ rounds)
      ≡ go_claimed now id stop o (λ t. process_run t id stop rounds) x
unfolding process_run
process_run-claimed id stop now token o rounds s x e =
    ap (go_claimed now id stop o (λ t. process_run t id stop rounds)) e

-- Where nobody asked to pause an active run without running jobs, the schedule is longer than the
-- run has pending jobs and no claim is lost, the worker leaves the run in a status that is not
-- active.
pub process_run_ends :
    (id : ℕ) (stop : Bool) (rounds : List (ℕ × Text × Outcome)) (s : Store) (run : Run)
    → Going s id run
    → pending_jobs id s < length rounds
    → All (λ r. is_kept r ≡ true) rounds
    → Ended id (process_run s id stop rounds)
unfolding claim_pending
process_run_ends id stop [] s run g h k = absurd (omega arith)
process_run_ends id stop ((now, token, o) ∷ rounds) s run g h k =
    let c : Store = claimable now s id run in
    let same : c.jobs ≡ s.jobs = claimable-jobs now s id run g.idle in
    let found : find_run id c.runs ≡ some run =
      ap (find_run id) (reclaim_if-runs s id (stale now run.worker_heartbeat_at)) ∙ g.found in
    let claim = claim-claimable now token s id run g in
    elim (Option-cases (next_pending id c.jobs)) [
      | inl n ↦
          subst (Ended id)
            (sym (
              process_run-claimed id stop now token o rounds s (finish_run now c id, none)
                (claim ∙ ap (claim_pending now token c id) n)))
            (finish_run-Ended now c id run found)
      | inr (i, n) ↦
          subst (Ended id)
            (sym (
              process_run-claimed id stop now token o rounds s
                (claim_job now token c id i, some (claim_update now token i))
                (claim ∙ ap (claim_pending now token c id) n)))
            (settle-Ended now token c id stop i o run (λ t. process_run t id stop rounds) found
              g.wanted (ap (any_of (is_running_job_of id)) same ∙ g.idle) n k.0
              (λ t run' g' fewer.
                process_run_ends id stop rounds t run' g'
                  (omega (arith, ap (count_if (is_pending_job_of id)) same)) k.1))
    ]
