-- ===== src/Runs/Created.antt =====
-- The jobs of a new run (logo-admin/categories_runs.py: create_run).
use mathlib.Core.Path.{subst}
use arb_data_warehouse.Prelude.{
  All, Among, Ascending, Ascending-sort_by, Bool, List, Option, Text, [], any_of, ap, arith,
  beq_refl, bit, count_if, count_if-sort_by, false, inl, inr, insert_by, is_empty, keep_if, leb,
  length, map, none, not, refl, sort_by, suc, sym, true, zero, ℕ, ◌&&◌, ◌++◌, ◌+◌, ◌==◌, ◌||◌, ◌∙◌,
  ◌∷◌, ◌≡◌, ◌⊎◌, nat_eq, text_eq, pair_eq,
}
use arb_data_warehouse.Planner.Plan.{Plan}
use arb_data_warehouse.Runs.Types.{Job, JobStatus, Store, guard, no_blogs, ok, plan_blocked}
use arb_data_warehouse.Runs.Readiness.{WpStatus, require_ready}
use arb_data_warehouse.Runs.Store.{assert_env_exclusive}
use arb_data_warehouse.Runs.Controls.{blog_le, create_run, insert_run, job_of, new_jobs}
use arb_data_warehouse.Runs.Ensures.{Ensures, Ensures-ok, Ensures-seq}

-- A blog id that comes no later than another: blog 1 first, then by id.
abbrev pub comes_before : ℕ → ℕ → Bool
comes_before a b = (a == 1 && not (b == 1)) || ((a == 1 || not (b == 1)) && leb a b)

blog_le_total : (p q : Plan) → (blog_le p q ≡ true) ⊎ (blog_le q p ≡ true)
unfolding blog_le
blog_le_total p q = ground arith

blog_le_trans : (p q r : Plan) → blog_le p q ≡ true → blog_le q r ≡ true → blog_le p r ≡ true
unfolding blog_le
blog_le_trans p q r h k = ground arith

-- `n` numbers in a row.
abbrev pub numbers_from : ℕ → ℕ → List ℕ
numbers_from k zero = []
numbers_from k (suc n) = k ∷ numbers_from (suc k) n

-- Each job's blog comes no later than those of the jobs after it.
abbrev pub InBlogOrder : List Job → Type 0
InBlogOrder [] = Unit
InBlogOrder (j ∷ js) =
    All (λ (k : Job). comes_before j.blog_id k.blog_id ≡ true) js × InBlogOrder js

-- The jobs are for the blogs of the plans, as often each, in order, numbered from 1, and pending.
abbrev pub IsQueueFor : List Plan → List Job → Type 0
IsQueueFor plans js =
    (map (λ (j : Job). j.seq) js ≡ numbers_from 1 (length plans))
    × InBlogOrder js
    × ((blog : ℕ)
        → count_if (λ (j : Job). j.blog_id == blog) js
          ≡ count_if (λ (p : Plan). p.blog_id == blog) plans)
    × All (λ (j : Job). j.status ≡ JobStatus.pending) js

keep_if-after :
    (p : Job → Bool) (xs ys : List Job) → any_of p xs ≡ false → keep_if p (xs ++ ys) ≡ keep_if p ys
unfolding any_of keep_if
keep_if-after p [] ys h = refl
keep_if-after p (x ∷ xs) ys h = ground (arith, keep_if-after p xs ys)

keep_if-new_jobs :
    (job_id run_id seq : ℕ) (ps : List Plan)
    → keep_if (job_of run_id) (new_jobs job_id run_id seq ps) ≡ new_jobs job_id run_id seq ps
unfolding keep_if new_jobs
keep_if-new_jobs job_id run_id seq [] = refl
keep_if-new_jobs job_id run_id seq (p ∷ ps) =
    ground (arith, beq_refl run_id, keep_if-new_jobs (suc job_id) run_id (suc seq) ps)

seqs-new_jobs :
    (job_id run_id seq : ℕ) (ps : List Plan)
    → map (λ (j : Job). j.seq) (new_jobs job_id run_id seq ps) ≡ numbers_from seq (length ps)
unfolding new_jobs
seqs-new_jobs job_id run_id seq [] = refl
seqs-new_jobs job_id run_id seq (p ∷ ps) =
    ap (λ l. seq ∷ l) (seqs-new_jobs (suc job_id) run_id (suc seq) ps)

count_if-new_jobs :
    (blog job_id run_id seq : ℕ) (ps : List Plan)
    → count_if (λ (j : Job). j.blog_id == blog) (new_jobs job_id run_id seq ps)
      ≡ count_if (λ (p : Plan). p.blog_id == blog) ps
unfolding new_jobs count_if
count_if-new_jobs blog job_id run_id seq [] = refl
count_if-new_jobs blog job_id run_id seq (p ∷ ps) =
    ap (λ n. bit (p.blog_id == blog) + n) (count_if-new_jobs blog (suc job_id) run_id (suc seq) ps)

All-pending :
    (job_id run_id seq : ℕ) (ps : List Plan)
    → All (λ (j : Job). j.status ≡ JobStatus.pending) (new_jobs job_id run_id seq ps)
unfolding new_jobs
All-pending job_id run_id seq [] = tt
All-pending job_id run_id seq (p ∷ ps) = (refl, All-pending (suc job_id) run_id (suc seq) ps)

All-comes_before :
    (blog job_id run_id seq : ℕ) (ps : List Plan)
    → ((p : Plan) → Among p ps → comes_before blog p.blog_id ≡ true)
    → All (λ (k : Job). comes_before blog k.blog_id ≡ true) (new_jobs job_id run_id seq ps)
unfolding new_jobs
All-comes_before blog job_id run_id seq [] h = tt
All-comes_before blog job_id run_id seq (p ∷ ps) h =
    (h p (inl refl), All-comes_before blog (suc job_id) run_id (suc seq) ps (λ q m. h q (inr m)))

InBlogOrder-new_jobs :
    (job_id run_id seq : ℕ) (ps : List Plan)
    → Ascending blog_le ps
    → InBlogOrder (new_jobs job_id run_id seq ps)
unfolding new_jobs blog_le
InBlogOrder-new_jobs job_id run_id seq [] a = tt
InBlogOrder-new_jobs job_id run_id seq (p ∷ ps) a = (
  All-comes_before p.blog_id (suc job_id) run_id (suc seq) ps a.0,
  InBlogOrder-new_jobs (suc job_id) run_id (suc seq) ps a.1,
)

length-insert_by : (p : Plan) (ps : List Plan) → length (insert_by blog_le p ps) ≡ suc (length ps)
unfolding insert_by
length-insert_by p [] = refl
length-insert_by p (q ∷ ps) = ground (arith, length-insert_by p ps)

length-sort_by : (ps : List Plan) → length (sort_by blog_le ps) ≡ length ps
unfolding sort_by
length-sort_by [] = refl
length-sort_by (p ∷ ps) =
    length-insert_by p (sort_by blog_le ps) ∙ ap (λ n. suc n) (length-sort_by ps)

new_jobs-IsQueueFor :
    (job_id run_id : ℕ) (plans : List Plan)
    → IsQueueFor plans (new_jobs job_id run_id 1 (sort_by blog_le plans))
new_jobs-IsQueueFor job_id run_id plans = (
  seqs-new_jobs job_id run_id 1 (sort_by blog_le plans)
      ∙ ap (numbers_from 1) (length-sort_by plans),
  InBlogOrder-new_jobs job_id run_id 1 (sort_by blog_le plans)
      (Ascending-sort_by blog_le blog_le_total blog_le_trans plans),
  λ blog.
      count_if-new_jobs blog job_id run_id 1 (sort_by blog_le plans)
      ∙ count_if-sort_by blog_le (λ (p : Plan). p.blog_id == blog) plans,
  All-pending job_id run_id 1 (sort_by blog_le plans),
)

HasQueue : Store → List Plan → Store → Type 0
HasQueue s plans t = IsQueueFor plans (keep_if (λ (j : Job). j.run_id == s.next_run_id) t.jobs)

insert_run-HasQueue :
    (s : Store) (env : Text) (plans : List Plan) (stop : Bool)
    → any_of (job_of s.next_run_id) s.jobs ≡ false
    → HasQueue s plans (insert_run s env (sort_by blog_le plans) stop)
unfolding insert_run HasQueue
insert_run-HasQueue s env plans stop unused =
    let new : List Job = new_jobs s.next_job_id s.next_run_id 1 (sort_by blog_le plans) in
    subst (IsQueueFor plans)
      (sym (
        keep_if-after (job_of s.next_run_id) s.jobs new unused
        ∙ keep_if-new_jobs s.next_job_id s.next_run_id 1 (sort_by blog_le plans)))
      (new_jobs-IsQueueFor s.next_job_id s.next_run_id plans)

create_run-HasQueue :
    (now : ℕ) (wp : Option WpStatus) (s : Store) (env : Text) (blog_ids : Option (List ℕ))
    (preview_ok : Bool) (plans : List Plan) (stop : Bool)
    → any_of (job_of s.next_run_id) s.jobs ≡ false
    → Ensures (HasQueue s plans) (create_run now wp s env blog_ids preview_ok plans stop)
unfolding create_run HasQueue insert_run
create_run-HasQueue now wp s env blog_ids preview_ok plans stop unused =
    let P = HasQueue s plans in
    Ensures-seq P (require_ready env wp blog_ids) _ (
      Ensures-seq P (assert_env_exclusive now s env none) _ (
        Ensures-seq P (guard preview_ok plan_blocked) _ (
          Ensures-seq P (guard (not (is_empty plans)) no_blogs) _
            (insert_run-HasQueue s env plans stop unused))))

-- Where the id of a new run is unused among the jobs, the jobs of the run are, in the order of the
-- table: numbered 1, 2 and so on, one for each plan and as many for each blog as there are plans
-- for it, blog 1 first and then by blog id, and all pending.
pub created_in_order :
    (now : ℕ) (wp : Option WpStatus) (s t : Store) (env : Text) (blog_ids : Option (List ℕ))
    (preview_ok : Bool) (plans : List Plan) (stop : Bool)
    → any_of (job_of s.next_run_id) s.jobs ≡ false
    → create_run now wp s env blog_ids preview_ok plans stop ≡ ok t
    → IsQueueFor plans (keep_if (λ (j : Job). j.run_id == s.next_run_id) t.jobs)
unfolding HasQueue
created_in_order now wp s t env blog_ids preview_ok plans stop unused e =
    Ensures-ok (HasQueue s plans) _ t e
      (create_run-HasQueue now wp s env blog_ids preview_ok plans stop unused)
