-- ===== src/Planner/Settles.antt =====
-- The plan of a blog that already has its target tree (build_blog_plan in
-- logo-admin/categories_planner.py).
use arb_data_warehouse.Planner.Survivors.Laws.{maps_to}
use arb_data_warehouse.Prelude.{
  All, Dict, List, Text, [], any_of, ap, arith, contains, has_key, leb, refl, some, sort_by, true,
  ℕ, ◌==◌, ◌∙◌, ◌∷◌, ◌≡◌, nat_eq, text_eq, pair_eq,
}
use arb_data_warehouse.Planner.Types.{Desired, Term, Update, logical, unchanged}
use arb_data_warehouse.Planner.Terms.{Context, PlanState, empty_state, plan_terms}
use arb_data_warehouse.Planner.Creates.{extra_creates, node_creates, order_creates}
use arb_data_warehouse.Planner.Memberships.{Membership, Product, memberships_of, sku_change}
use arb_data_warehouse.Planner.Plan.{
  BlogInput, Plan, Snapshot, assemble, build_blog_plan, context_of, plan_snapshot, planned,
  unmapped_slugs,
}
use arb_data_warehouse.Planner.Redirects.{delete_redirects, redirects_of}
use arb_data_warehouse.Planner.Converged.{
  Quiet, Quiet-plan_terms, Settled, node_creates-none, node_known, rows-quiet, sku_change-none,
  slug_known, unmapped-none, update_redirects-none,
}

abbrev IsLiveSlug : List Term → Text → Type 0
IsLiveSlug terms s = any_of (λ t. logical t == s) terms ≡ true

slugs_known :
    (c : Context) (st : PlanState) (ts : List Term) (slugs : List Text)
    → All (Settled c) ts
    → All (IsLiveSlug ts) slugs
    → All (λ s. has_key s (plan_terms c st ts).kept_current ≡ true) slugs
slugs_known c st ts [] h a = tt
slugs_known c st ts (s ∷ slugs) h a = (slug_known c st ts s h a.0, slugs_known c st ts slugs h a.1)

products_known :
    (c : Context) (st : PlanState) (ts : List Term) (products : List Product)
    → All (Settled c) ts
    → All (λ (p : Product). All (IsLiveSlug ts) p.slugs) products
    → All
        (λ (p : Product). All (λ s. has_key s (plan_terms c st ts).kept_current ≡ true) p.slugs)
        products
products_known c st ts [] h a = tt
products_known c st ts (p ∷ products) h a =
    (slugs_known c st ts p.slugs h a.0, products_known c st ts products h a.1)

nodes_known :
    (c : Context) (st : PlanState) (ts : List Term) (kept : Dict ℕ Desired)
    → All (Settled c) ts
    → All (λ (e : ℕ × Desired). any_of (maps_to c.dispositions e.0) ts ≡ true) kept
    → All
        (λ (e : ℕ × Desired). contains (plan_terms c st ts).nodes_with_primary_here e.0 ≡ true)
        kept
nodes_known c st ts [] h a = tt
nodes_known c st ts ((n, d) ∷ kept) h a =
    (node_known c st ts n h a.0, nodes_known c st ts kept h a.1)

-- The blog is as the draft wants it: each live term is settled, each kept node has a live term,
-- every category of a product is live, and there are no extras and no extra memberships.
pub record IsConverged (b : BlogInput) : Type 0 where
  pub settled : All (Settled (context_of b)) b.terms
  pub covered :
      All (λ (e : ℕ × Desired). any_of (maps_to b.dispositions e.0) b.terms ≡ true) b.target.kept
  pub on_terms : All (λ (p : Product). All (IsLiveSlug b.terms) p.slugs) b.products
  pub no_extras : b.target.extras ≡ []
  pub no_memberships : b.extra_memberships ≡ []

-- A plan that asks WordPress for nothing.
pub record ChangesNothing (p : Plan) : Type 0 where
  pub updates : All (λ (u : Update). u.changed ≡ unchanged) p.updates
  pub creates : p.creates ≡ []
  pub deletes : p.deletes ≡ []
  pub memberships : p.memberships ≡ []
  pub redirects : p.redirects ≡ []

module _ (b : BlogInput) (snap : Snapshot) (h : IsConverged b) where
  abbrev after : PlanState
  after = plan_terms (context_of b) empty_state b.terms

  after-Quiet : Quiet after
  after-Quiet =
      Quiet-plan_terms (context_of b) empty_state b.terms h.settled
        (record { updates = tt; deletes = refl; merges = refl })

  no_node_creates :
      node_creates b.dispositions b.terms after.nodes_with_primary_here b.target.kept ≡ ([], [])
  unfolding context_of
  no_node_creates =
      node_creates-none b.dispositions b.terms after.nodes_with_primary_here b.target.kept
        (nodes_known (context_of b) empty_state b.terms b.target.kept h.settled h.covered)

  no_memberships :
      memberships_of after (sku_change b.target.kept b.extra_memberships) b.products ≡ []
  unfolding memberships_of sort_by
  no_memberships =
      ap (λ m. memberships_of after (sku_change b.target.kept m) b.products) h.no_memberships
      ∙ ap (sort_by (λ (x : Membership) (y : Membership). leb x.product_id y.product_id)) (
          rows-quiet after after-Quiet (sku_change b.target.kept []) b.products
            (sku_change-none b.target.kept)
            (products_known (context_of b) empty_state b.terms b.products h.settled h.on_terms))

  no_redirects : redirects_of b.blog_id after.updates after.deletes after.merge_target_slug ≡ []
  unfolding redirects_of delete_redirects
  no_redirects =
      rw (after-Quiet.deletes, update_redirects-none after.updates after-Quiet.updates)
        (ground arith)

  no_creates : (assemble b snap after).creates ≡ []
  unfolding assemble order_creates extra_creates sort_by
  no_creates = rw (no_node_creates, h.no_extras)

  assemble-ChangesNothing : ChangesNothing (assemble b snap after)
  unfolding assemble
  assemble-ChangesNothing = record {
    updates = after-Quiet.updates;
    creates = no_creates;
    deletes = after-Quiet.deletes;
    memberships = no_memberships;
    redirects = no_redirects;
  }

plan_snapshot-some :
    (b : BlogInput) (snap : Snapshot)
    → IsConverged b
    → plan_snapshot b (some snap)
      ≡ planned (assemble b snap (plan_terms (context_of b) empty_state b.terms))
unfolding plan_snapshot context_of
plan_snapshot-some b snap h =
    let none_left : unmapped_slugs b.dispositions b.terms ≡ [] =
      unmapped-none (context_of b) b.terms h.settled in
    rw none_left

-- A blog with a snapshot, where each live term is as its node wants it, each kept node has a live
-- term, all categories of products are live and there are no store extras and no extra memberships,
-- is planned, and the plan changes no field of a term and has no create, delete, membership row or
-- redirect.
pub converged_replans_to_nothing :
    (b : BlogInput) (snap : Snapshot)
    → b.snapshot ≡ some snap
    → IsConverged b
    → (p : Plan) × (build_blog_plan b ≡ planned p) × ChangesNothing p
unfolding build_blog_plan
converged_replans_to_nothing b snap e h = (
  assemble b snap (plan_terms (context_of b) empty_state b.terms),
  ap (plan_snapshot b) e ∙ plan_snapshot-some b snap h,
  assemble-ChangesNothing b snap h,
)
