-- ===== src/Runs/Readiness.antt =====
-- readiness and _require_ready of logo-admin/categories_runs.py: what an apply relies on.
use arb_data_warehouse.Prelude.{
  Bool, List, Option, Text, [], contains, false, if◌then◌else◌, is_empty, ltb, none, not, some,
  text, true, ℕ, ◌++◌, ◌==◌, ◌∷◌, nat_eq, text_eq, pair_eq,
}
use arb_data_warehouse.Runs.Types.{Result, guard, not_ready}

abbrev pub broker_min_version : ℕ
broker_min_version = 2

-- The status that WordPress reports; an absent number is 0 and an absent flag false.
pub record WpStatus : Type 0 where
  pub broker_version : ℕ
  pub durable_jobs : Bool
  pub job_table : Bool
  pub freeze : Bool
  pub avne_available : Bool
  pub unspsc_available : Bool
  pub redirection_active : Bool
  pub redirect_group_id : ℕ

pub data Problem : Type 0 where
  unreachable : Problem
  broker_out_of_date : Problem
  no_durable_jobs : Problem
  no_job_table : Problem
  not_frozen : Problem
  no_search_index : Problem
  no_unspsc : Problem
  redirection_inactive : Problem
  no_redirect_group : Problem

pub record Readiness : Type 0 where
  pub ok : Bool
  pub failures : List Problem
  pub warnings : List Problem

abbrev problem_if : Bool → Problem → List Problem
problem_if true p = p ∷ []
problem_if false p = []

-- What only production insists on.
unfoldable pub soft_problems : WpStatus → List Problem
soft_problems s =
    problem_if (not s.freeze) not_frozen
    ++ (problem_if (not s.avne_available) no_search_index
        ++ problem_if (not s.unspsc_available) no_unspsc)

unfoldable pub hard_problems : WpStatus → List Problem
hard_problems s =
    problem_if (ltb s.broker_version broker_min_version) broker_out_of_date
    ++ (problem_if (not s.durable_jobs) no_durable_jobs
        ++ problem_if (not s.job_table) no_job_table)

-- `blog_ids is None or 1 in blog_ids`
unfoldable pub wants_redirects : Option (List ℕ) → Bool
wants_redirects none = true
wants_redirects (some ids) = contains ids 1

unfoldable pub redirect_problems : WpStatus → Option (List ℕ) → List Problem
redirect_problems s blog_ids =
    if wants_redirects blog_ids
    then (if not s.redirection_active
        then redirection_inactive ∷ []
        else problem_if (s.redirect_group_id == 0) no_redirect_group)
    else []

abbrev report : List Problem → List Problem → Readiness
report failures warnings = record {
  ok = is_empty failures;
  failures = failures;
  warnings = warnings;
}

-- `status` is none where WordPress cannot be reached.
unfoldable pub readiness : Text → Option WpStatus → Option (List ℕ) → Readiness
unfolding soft_problems hard_problems redirect_problems wants_redirects
readiness env none blog_ids = report (unreachable ∷ []) []
readiness env (some s) blog_ids =
    if env == text "prod"
    then report (hard_problems s ++ (soft_problems s ++ redirect_problems s blog_ids)) []
    else report (hard_problems s ++ redirect_problems s blog_ids) (soft_problems s)

unfoldable pub require_ready : Text → Option WpStatus → Option (List ℕ) → Result (Unit {0})
require_ready env status blog_ids = guard (readiness env status blog_ids).ok not_ready
