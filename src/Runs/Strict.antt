-- ===== src/Runs/Strict.antt =====
-- What readiness means for an apply (logo-admin/categories_runs.py: readiness).
use arb_data_warehouse.Prelude.{
  Bool, List, Option, Text, arith, ltb, none, not, some, text, text_beq, true, ℕ, ◌&&◌, ◌==◌, ◌||◌,
  ◌≡◌, nat_eq, text_eq, pair_eq,
}
use arb_data_warehouse.Runs.Readiness.{
  WpStatus, broker_min_version, hard_problems, readiness, redirect_problems, soft_problems,
  wants_redirects,
}

-- All that an apply to production relies on, redirects left aside.
abbrev pub is_fit : WpStatus → Bool
is_fit s =
    not (ltb s.broker_version broker_min_version)
    && (s.durable_jobs && (s.job_table && (s.freeze && (s.avne_available && s.unspsc_available))))

abbrev pub can_redirect : WpStatus → Bool
can_redirect s = s.redirection_active && not (s.redirect_group_id == 0)

-- Production is ready exactly if WordPress is fit and, where blog 1 is among the blogs, its
-- redirects can be written.
pub prod_ready_iff :
    (s : WpStatus) (blog_ids : Option (List ℕ))
    → (readiness (text "prod") (some s) blog_ids).ok
      ≡ (is_fit s && (not (wants_redirects blog_ids) || can_redirect s))
unfolding readiness soft_problems hard_problems redirect_problems text_beq
prod_ready_iff s blog_ids = ground arith

-- What is ready for production is ready for every environment.
prod_is_strictest :
    (env : Text) (status : Option WpStatus) (blog_ids : Option (List ℕ))
    → (readiness (text "prod") status blog_ids).ok ≡ true
    → (readiness env status blog_ids).ok ≡ true
unfolding readiness soft_problems hard_problems redirect_problems text_beq
prod_is_strictest env none blog_ids h = absurd (cc)
prod_is_strictest env (some s) blog_ids h = ground arith
