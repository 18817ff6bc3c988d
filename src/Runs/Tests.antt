-- ===== src/Runs/Tests.antt =====
-- A run of two blogs from its creation to its end, and the witnesses of the theorems about runs.
use arb_data_warehouse.Prelude.{
  Among, List, Option, Text, [], any_of, arith, contains, count_if, false, inl, insert_by, keep_if,
  length, map, none, not, refl, some, sort_by, text, text_beq, true, ℕ, ◌&&◌, ◌<◌, ◌==◌, ◌||◌, ◌∷◌,
  ◌≡◌, ◌≤◌, nat_eq, text_eq, pair_eq,
}
use arb_data_warehouse.Planner.Names.{decimal, decimal_from}
use arb_data_warehouse.Planner.Plan.{Plan}
use arb_data_warehouse.Runs.Types.{
  Job, JobResult, JobStatus, Run, RunStatus, Store, err, is_job_status, is_run_status, ok,
  run_created, superseded,
}
use arb_data_warehouse.Runs.Readiness.{
  WpStatus, hard_problems, readiness, redirect_problems, require_ready, soft_problems,
  wants_redirects,
}
use arb_data_warehouse.Runs.Strict.{can_redirect, is_fit, prod_ready_iff}
use arb_data_warehouse.Runs.Restores.{MembershipRow, restore_pages, row_le}
use arb_data_warehouse.Runs.Restores.Whole.{
  Apart, flatten, flatten-restore_pages, restore_pages-Apart,
}
use arb_data_warehouse.Runs.Store.{
  assert_env_exclusive, find_run, get_run, has_restores, is_active, is_restoring, record_audit,
  set_jobs, set_run, stale,
}
use arb_data_warehouse.Runs.Controls.{
  admit_resume, after_skip, blog_le, cancel, create_run, finish_run, insert_run, is_running_job_of,
  job_of, new_job, new_jobs, new_run, reclaim_stale_jobs, request_pause, resume, retry_job,
  skip_job, start, terminal_status, was_restored,
}
use arb_data_warehouse.Runs.Engine.{
  Outcome, applied, broken, claim_admitted, claim_found, claim_free, claim_job, claim_next_job,
  claim_pending, claim_update, fail_run, finish_job, first_by_seq, is_woken, next_pending,
  orphan_restores, process_run, recover_each, recover_run, recover_runs, settle_job,
}
use arb_data_warehouse.Runs.Exclusive.{is_active_in}
use arb_data_warehouse.Runs.Steps.{
  Reach, after, claimed, created, empty_store, fresh, one_active_run, one_running_job,
}
use arb_data_warehouse.Runs.Ends.{Ended, Going, pending_jobs}
use arb_data_warehouse.Runs.Completed.{completed_means_done, is_doubtful, is_over}
use arb_data_warehouse.Runs.Terminates.{process_run_ends}
use arb_data_warehouse.Runs.Worker.{Handed, claim_hands_out_next, claimable, superseded_refused}
use arb_data_warehouse.Runs.Created.{IsQueueFor, created_in_order}

abbrev plan_for : ℕ → Plan
plan_for id = record {
  blog_id = id;
  blog_path = [];
  snapshot_version = 1;
  snapshot_fingerprint = [];
  updates = [];
  creates = [];
  deletes = [];
  memberships = [];
  redirects = [];
  unspsc_renames = [];
  unspsc_merges = [];
  zero_category = [];
  kept_slugs = [];
  absorbed_slugs = [];
  stats = record {
    terms_total = 0;
    updates = 0;
    changed_updates = 0;
    renames = 0;
    reslugs = 0;
    creates = 0;
    deletes = 0;
    membership_changes = 0;
    products_total = 0;
    uncategorized_total = 0;
    zero_category = 0;
    redirects = 0;
  };
}

abbrev healthy : WpStatus
healthy = record {
  broker_version = 2;
  durable_jobs = true;
  job_table = true;
  freeze = true;
  avne_available = true;
  unspsc_available = true;
  redirection_active = true;
  redirect_group_id = 4;
}

abbrev plans : List Plan
plans = plan_for 7 ∷ plan_for 1 ∷ []

-- The store after the run of blogs 7 and 1 is created.
abbrev created_store : Store
created_store =
    record_audit run_created 1 (insert_run empty_store (text "prod") (sort_by blog_le plans) true)

abbrev token : Text
token = text "w1"

abbrev claimed_store : Store
claimed_store = (claim_next_job 100 token created_store 1).0

-- The run operations, open for evaluation.
run_claim : ℕ → Text → Store → ℕ → Store × Option Job
unfolding count_if keep_if any_of contains text_beq insert_by sort_by decimal_from decimal
    is_run_status is_job_status soft_problems hard_problems wants_redirects redirect_problems
    readiness require_ready is_active stale find_run get_run set_run set_jobs is_restoring
    has_restores assert_env_exclusive blog_le new_jobs insert_run create_run request_pause
    reclaim_stale_jobs admit_resume resume start cancel retry_job terminal_status finish_run
    after_skip skip_job first_by_seq next_pending claim_update claim_job claim_pending claim_free
    claim_admitted claim_found claim_next_job finish_job fail_run settle_job process_run is_woken
    recover_run recover_each orphan_restores recover_runs
run_claim = claim_next_job

created-plans :
    create_run 50 (some healthy) empty_store (text "prod") none true plans true ≡ ok created_store
unfolding run_claim
created-plans = refl

Reach-claimed : Reach claimed_store
unfolding run_claim
Reach-claimed =
    after created_store claimed_store
      (after empty_store created_store fresh
        (created 50 (some healthy) (text "prod") none true plans true created_store created-plans))
      (claimed 100 token 1)

one_active_run_example : count_if (is_active_in (text "prod")) claimed_store.runs ≤ 1
one_active_run_example = one_active_run claimed_store (text "prod") Reach-claimed

one_running_job_example : count_if (is_running_job_of 1) claimed_store.jobs ≤ 1
one_running_job_example = one_running_job claimed_store 1 Reach-claimed

abbrev first_run : Run
first_run = new_run 1 (text "prod") (1 ∷ 7 ∷ []) true

abbrev claimed_first : Job
claimed_first = record (new_job 1 1 1 (plan_for 1)) {
  status = JobStatus.running;
  attempt = 1;
  started_at = some 100;
  request_id = text "j1a1";
  worker_token = token;
}

found-first : find_run 1 created_store.runs ≡ some first_run
unfolding run_claim
found-first = refl

claimed-first : (claim_next_job 100 token created_store 1).1 ≡ some claimed_first
unfolding run_claim
claimed-first = refl

claim_hands_out_next_example :
    Handed token 1 (claimable 100 created_store 1 first_run) first_run claimed_first
claim_hands_out_next_example =
    claim_hands_out_next 100 token created_store 1 first_run claimed_first found-first claimed-first

abbrev good_result : JobResult
good_result = record { restored = false; verified = some true }

other_token : (token == text "w0") ≡ false
unfolding text_beq
other_token = refl

superseded_refused_example :
    finish_job 200 claimed_store 1 1 JobStatus.done good_result (text "w0") ≡ err superseded
superseded_refused_example =
    superseded_refused 100 token created_store 1 first_run claimed_first 200 JobStatus.done
      good_result (text "w0") found-first claimed-first other_token

-- Both jobs carried out; the next claim finishes the run.
abbrev ended_store : Store
ended_store = record created_store {
  jobs =
      map (λ (j : Job). record j { status = JobStatus.done; result = some good_result })
        created_store.jobs;
}

abbrev ended_first : Job
ended_first = record (new_job 1 1 1 (plan_for 1)) {
  status = JobStatus.done;
  result = some good_result;
}

abbrev completed_run : Run
completed_run = record first_run { status = RunStatus.completed; finished_at = some 300 }

completes-run : find_run 1 (claim_next_job 300 token ended_store 1).0.runs ≡ some completed_run
unfolding run_claim
completes-run = refl

Among-ended_first : Among ended_first (claimable 300 ended_store 1 first_run).jobs
unfolding run_claim
Among-ended_first = inl refl

completed_means_done_example :
    (is_over ended_first ≡ true)
    × (was_restored ended_first ≡ false)
    × (is_doubtful ended_first ≡ false)
completed_means_done_example =
    completed_means_done 300 token ended_store 1 first_run completed_run ended_first found-first
      refl completes-run refl Among-ended_first refl

unused-run : any_of (job_of 1) empty_store.jobs ≡ false
unfolding any_of
unused-run = refl

created_in_order_example :
    IsQueueFor plans (keep_if (λ (j : Job). j.run_id == 1) created_store.jobs)
created_in_order_example =
    created_in_order 50 (some healthy) empty_store created_store (text "prod") none true plans true
      unused-run created-plans

-- The worker carries both jobs out, blog 1 first, and the run is completed.
run-both :
    map
      (λ (r : Run). r.status)
      (process_run created_store 1 true (
        (100, text "w1", applied good_result)
        ∷ (200, text "w2", applied good_result)
        ∷ (300, text "w3", applied good_result)
        ∷ [])).runs
    ≡ RunStatus.completed ∷ []
unfolding run_claim
run-both = refl

prod_ready_iff_example :
    (readiness (text "prod") (some healthy) none).ok
    ≡ (is_fit healthy && (not (wants_redirects none) || can_redirect healthy))
prod_ready_iff_example = prod_ready_iff healthy none

ready-healthy : (readiness (text "prod") (some healthy) none).ok ≡ true
unfolding run_claim
ready-healthy = refl

abbrev schedule : List (ℕ × Text × Outcome)
schedule =
    (100, text "w1", applied good_result)
    ∷ (200, text "w2", broken good_result)
    ∷ (300, text "w3", applied good_result)
    ∷ []

Going-created : Going created_store 1 first_run
unfolding run_claim
Going-created = record { found = refl; active = refl; wanted = refl; idle = refl }

pending-created : pending_jobs 1 created_store < length schedule
unfolding run_claim
pending-created = omega arith

process_run_ends_example : Ended 1 (process_run created_store 1 false schedule)
process_run_ends_example =
    process_run_ends 1 false schedule created_store first_run Going-created pending-created
      (refl, (refl, (refl, tt)))

abbrev membership : ℕ → ℕ → MembershipRow
membership product term = record { product_id = product; term_id = term }

abbrev rows : List MembershipRow
rows = membership 4 1 ∷ membership 3 1 ∷ membership 4 2 ∷ []

flatten-restore_pages_example : flatten (restore_pages rows) ≡ sort_by row_le rows
flatten-restore_pages_example = flatten-restore_pages rows

restore_pages-Apart_example : Apart (restore_pages rows)
restore_pages-Apart_example = restore_pages-Apart rows
