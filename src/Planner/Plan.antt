-- ===== src/Planner/Plan.antt =====
-- build_blog_plan of logo-admin/categories_planner.py, as a whole.
use arb_data_warehouse.Planner.Names.{zero_category_key}
use arb_data_warehouse.Prelude.{
  Bool, Dict, List, Option, Text, [], count_if, has_key, if◌then◌else◌, insert, is_empty, length,
  none, set_add, some, sorted_texts, ℕ, ◌++◌, ◌==◌, ◌||◌, ◌∷◌, nat_eq, text_eq, pair_eq,
}
use arb_data_warehouse.Planner.Types.{
  Changed, Delete, Disposition, Reason, Target, Term, TermSpec, Update, logical,
}
use arb_data_warehouse.Planner.Survivors.{survivor}
use arb_data_warehouse.Planner.Terms.{
  Context, PlanState, empty_state, extras_by_slug_from, live_by_id_from, plan_terms,
}
use arb_data_warehouse.Planner.Creates.{extra_creates, node_creates, order_creates}
use arb_data_warehouse.Planner.Memberships.{
  Buckets, Membership, Product, SkuChange, ZeroCategory, is_zero_category, memberships_of,
  sku_change,
}
use arb_data_warehouse.Planner.Redirects.{Redirect, merge_target, moves_url, redirects_of}

-- A row of catmgr.snapshot.
pub record Snapshot : Type 0 where
  pub version : ℕ
  pub blog_path : Text
  pub fingerprint : Text

-- What a blog's plan is computed from: the result of load_dispositions, the store's target tree,
-- the extra memberships, and the snapshot with its terms and products.
pub record BlogInput : Type 0 where
  pub unescape : Text → Text
  pub upper : Text → Text
  pub blog_id : ℕ
  pub snapshot : Option Snapshot
  pub dispositions : Dict Text Disposition
  pub target : Target
  pub terms : List Term
  pub products : List Product
  pub extra_memberships : List (ℕ × Buckets)

pub record Stats : Type 0 where
  pub terms_total : ℕ
  pub updates : ℕ
  pub changed_updates : ℕ
  pub renames : ℕ
  pub reslugs : ℕ
  pub creates : ℕ
  pub deletes : ℕ
  pub membership_changes : ℕ
  pub products_total : ℕ
  pub uncategorized_total : ℕ
  pub zero_category : ℕ
  pub redirects : ℕ

pub record Plan : Type 0 where
  pub blog_id : ℕ
  pub blog_path : Text
  pub snapshot_version : ℕ
  pub snapshot_fingerprint : Text
  pub updates : List Update
  pub creates : List TermSpec
  pub deletes : List Delete
  pub memberships : List Membership
  pub redirects : List Redirect
  pub unspsc_renames : Dict Text Text
  pub unspsc_merges : Dict Text Text
  pub zero_category : List ZeroCategory
  pub kept_slugs : List Text
  pub absorbed_slugs : List Text
  pub stats : Stats

-- DraftError, by what it says.
pub data PlanError : Type 0 where
  no_snapshot : PlanError
  unmapped : List Text → PlanError

pub data PlanResult : Type 0 where
  planned : Plan → PlanResult
  refused : PlanError → PlanResult

unfoldable pub context_of : BlogInput → Context
context_of b = record {
  unescape = b.unescape;
  dispositions = b.dispositions;
  kept = b.target.kept;
  extras_by_slug = extras_by_slug_from [] b.target.extras;
  live_by_id = live_by_id_from [] b.terms;
  survivors = survivor b.dispositions b.target.kept b.terms;
}

-- The logical slugs without a disposition, as a set.
unfoldable pub unmapped_slugs : Dict Text Disposition → List Term → List Text
unmapped_slugs dispositions [] = []
unmapped_slugs dispositions (t ∷ ts) =
    let rest = unmapped_slugs dispositions ts in
    if has_key (logical t) dispositions then rest else set_add rest (logical t)

unfoldable pub is_changed : Changed → Bool
is_changed c = c.slug || c.name || c.parent || c.description || c.sort_order

-- `{u["public_slug"]: u["set"]["slug"] for u in updates if ...}`
unfoldable pub unspsc_renames_from : Dict Text Text → List Update → Dict Text Text
unspsc_renames_from m [] = m
unspsc_renames_from m (u ∷ us) =
    unspsc_renames_from (if moves_url u then insert u.public_slug u.set.slug m else m) us

unfoldable pub merge_entry : Dict Text (Option Text) → Dict Text Text → Delete → Dict Text Text
merge_entry targets m d = elim d.reason [
  | Reason.merge ↦ elim (merge_target targets d.public_slug) [
    | none ↦ m
    | some s ↦ insert d.public_slug s m
  ]
  | _ ↦ m
]

unfoldable pub unspsc_merges_from :
    Dict Text (Option Text) → Dict Text Text → List Delete → Dict Text Text
unspsc_merges_from targets m [] = m
unspsc_merges_from targets m (d ∷ ds) = unspsc_merges_from targets (merge_entry targets m d) ds

unfoldable pub zero_categories :
    (Product → Text) → PlanState → (Text → SkuChange) → List Product → List ZeroCategory
zero_categories key st changes [] = []
zero_categories key st changes (p ∷ products) =
    let rest = zero_categories key st changes products in
    if is_zero_category st (changes p.sku) p
    then record { product_id = p.product_id; sku = p.sku; key = key p } ∷ rest
    else rest

-- The live slugs that stay exactly as they are.
unfoldable pub kept_slugs_of : Dict Text Text → List Text
kept_slugs_of [] = []
kept_slugs_of ((slug, final) ∷ d) =
    let rest = kept_slugs_of d in if slug == final then slug ∷ rest else rest

unfoldable pub key_of : BlogInput → Product → Text
key_of b p = zero_category_key b.upper b.blog_id p.product_id p.sku

-- The part of the plan after the loop over the terms.
unfoldable pub assemble : BlogInput → Snapshot → PlanState → Plan
assemble b snap st =
    let (from_nodes, absorbed) =
      node_creates b.dispositions b.terms st.nodes_with_primary_here b.target.kept in
    let creates = order_creates (from_nodes ++ extra_creates st.converged_extras b.target.extras) in
    let changes = sku_change b.target.kept b.extra_memberships in
    let memberships = memberships_of st changes b.products in
    let zero_category = zero_categories (key_of b) st changes b.products in
    let redirects = redirects_of b.blog_id st.updates st.deletes st.merge_target_slug in
    record {
      blog_id = b.blog_id;
      blog_path = snap.blog_path;
      snapshot_version = snap.version;
      snapshot_fingerprint = snap.fingerprint;
      updates = st.updates;
      creates = creates;
      deletes = st.deletes;
      memberships = memberships;
      redirects = redirects;
      unspsc_renames = if b.blog_id == 1 then unspsc_renames_from [] st.updates else [];
      unspsc_merges =
          if b.blog_id == 1 then unspsc_merges_from st.merge_target_slug [] st.deletes else [];
      zero_category = zero_category;
      kept_slugs = sorted_texts (kept_slugs_of st.kept_current);
      absorbed_slugs = sorted_texts absorbed;
      stats = record {
        terms_total = length b.terms;
        updates = length st.updates;
        changed_updates = count_if (λ (u : Update). is_changed u.changed) st.updates;
        renames = count_if (λ (u : Update). u.changed.name) st.updates;
        reslugs = count_if (λ (u : Update). u.changed.slug) st.updates;
        creates = length creates;
        deletes = length st.deletes;
        membership_changes = length memberships;
        products_total = length b.products;
        uncategorized_total = count_if (λ (p : Product). is_empty p.slugs) b.products;
        zero_category = length zero_category;
        redirects = length redirects;
      };
    }

unfoldable pub plan_snapshot : BlogInput → Option Snapshot → PlanResult
plan_snapshot b none = refused no_snapshot
plan_snapshot b (some snap) =
    if is_empty (unmapped_slugs b.dispositions b.terms)
    then planned (assemble b snap (plan_terms (context_of b) empty_state b.terms))
    else refused (unmapped (sorted_texts (unmapped_slugs b.dispositions b.terms)))

unfoldable pub build_blog_plan : BlogInput → PlanResult
build_blog_plan b = plan_snapshot b b.snapshot
