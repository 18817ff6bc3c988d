-- ===== src/Planner/Tests.antt =====
-- A small blog, planned, and the witnesses of the theorems about the planner.
use arb_data_warehouse.Planner.Creates.{
  create_le, creating_from, depth_from, depth_of, extra_creates, is_absorbed, node_creates,
  order_creates,
}
use arb_data_warehouse.Planner.Terms.{
  PlanState, add_extra_slugs, changes_of, emit_delete, emit_update, empty_state,
  extras_by_slug_from, live_by_id_from, live_parent_slug_of, plan_action, plan_mapped,
  plan_store_custom, plan_survivor, plan_term, plan_terms, update_of,
}
use arb_data_warehouse.Planner.Survivors.{
  add_candidate, candidate_step, candidates_from, least_id, pool, survivor, winner,
}
use arb_data_warehouse.Planner.Names.{
  collapse, decimal, decimal_from, decode, is_space, lstrip, normalize_wp_name, rstrip, strip,
  zero_category_key,
}
use arb_data_warehouse.Prelude.{
  Among, Dict, Distinct, List, Option, Text, [], any_of, arith, contains, count_if, false, has_key,
  inl, inr, insert, insert_by, is_subset, keep_if, lookup, map, not, refl, set_add, set_default,
  set_eq, set_minus, set_union, some, sort_by, sorted_texts, text, text_beq, text_le, true, ℕ, ◌&&◌,
  ◌+◌, ◌||◌, ◌↔◌, ◌∷◌, ◌≡◌, nat_eq, text_eq, pair_eq,
}
use arb_data_warehouse.Planner.Types.{
  Action, Delete, Desired, Disposition, Reason, Term, TermSpec, Update, map_to, merge, store_custom,
}
use arb_data_warehouse.Planner.Dispositions.{
  SlugMapRow, add_custom, add_extras, add_node, add_nodes, explicit_from, explicit_primary_nodes,
  load_dispositions,
}
use arb_data_warehouse.Planner.Dispositions.Laws.{
  explicit_of, explicit_rows_win, makes_primary, node_slug, node_slugs_mapped, row_slug,
}
use arb_data_warehouse.Planner.Memberships.{
  Buckets, Membership, Product, ZeroCategory, after_term_ops, carried_slug, carried_slugs,
  final_slugs, is_zero_category, memberships_of, needs_row, row_of, rows_from, sku_change,
  sku_extra_add, sku_remove, touches_doomed,
}
use arb_data_warehouse.Planner.Redirects.{
  Redirect, category_path, delete_path, delete_redirects, merge_target, moves_url, redirects_of,
  update_redirects,
}
use arb_data_warehouse.Planner.Plan.{
  BlogInput, Plan, PlanResult, Snapshot, assemble, build_blog_plan, context_of, is_changed,
  kept_slugs_of, key_of, merge_entry, plan_snapshot, planned, refused, unmapped_slugs,
  unspsc_merges_from, unspsc_renames_from, zero_categories,
}
use arb_data_warehouse.Planner.Collisions.{
  collide_from, final_create_slugs, finals, plan_recreated_slugs, plan_slug_collisions,
  untouched_slugs,
}
use arb_data_warehouse.Planner.Settles.{ChangesNothing, IsConverged, converged_replans_to_nothing}
use arb_data_warehouse.Planner.Creates.Order.{
  ParentsFirst, Shallow, create_slugs, order_creates-ParentsFirst,
}
use arb_data_warehouse.Planner.Collisions.Laws.{collides, plan_slug_collisions_exact}
use arb_data_warehouse.Planner.Redirects.Laws.{self_redirect_iff}
use arb_data_warehouse.Planner.Resolved.{HasRedirects, dead_urls_redirected}
use arb_data_warehouse.Planner.Doomed.{doomed_products_move}
use arb_data_warehouse.Planner.Memberships.Laws.{
  adds, excludes, final_slugs_exact, leads_to, row_for,
}
use arb_data_warehouse.Planner.Delivery.{IsProperInput, delivers_target, times, wanted}
use arb_data_warehouse.Planner.Survivors.Laws.{IsPreferred, maps_to, survivor_choice}
use arb_data_warehouse.Planner.Terms.Fates.{
  delete_has_id, fates_partition, is_planned_id, update_has_id,
}

-- Hats stays, its old slug caps merges into it, junk is deleted, crew belongs to another store.
abbrev hats : Desired
hats = record {
  slug = text "hats";
  name = text "Hats";
  parent_slug = [];
  sort_order = 10;
  description = [];
}

abbrev gloves : Desired
gloves = record {
  slug = text "gloves";
  name = text "Gloves";
  parent_slug = text "hats";
  sort_order = 20;
  description = [];
}

abbrev live_term : ℕ → Text → Text → Term
live_term id slug name = record {
  term_id = id;
  slug = slug;
  name = name;
  parent_term_id = 0;
  description = [];
  sort_order = 10;
  parked_from = [];
}

abbrev slug_map : List SlugMapRow
slug_map =
    record { old_slug = text "caps"; action = map_to 1; is_primary = false }
    ∷ record { old_slug = text "junk"; action = Action.delete; is_primary = false }
    ∷ record { old_slug = text "crew"; action = store_custom; is_primary = false }
    ∷ []

abbrev dispositions : Dict Text Disposition
dispositions = load_dispositions slug_map ((1, text "hats") ∷ (2, text "gloves") ∷ []) []

abbrev product_a : Product
product_a = record {
  product_id = 40;
  sku = text "A";
  slugs = text "caps" ∷ text "junk" ∷ [];
  term_ids = 7 ∷ 6 ∷ [];
}

abbrev blog : BlogInput
blog = record {
  unescape = λ s. s;
  upper = λ s. s;
  blog_id = 1;
  snapshot = some (record { version = 3; blog_path = text "/"; fingerprint = [] });
  dispositions = dispositions;
  target = record { kept = (1, hats) ∷ (2, gloves) ∷ []; extras = [] };
  terms =
      live_term 5 (text "hats") (text " Hats")
      ∷ live_term 6 (text "caps") (text "Caps")
      ∷ live_term 7 (text "junk") (text "Junk")
      ∷ live_term 8 (text "crew") (text "Crew")
      ∷ [];
  products =
      product_a
      ∷ record { product_id = 41; sku = text "B"; slugs = text "hats" ∷ []; term_ids = 5 ∷ [] }
      ∷ record { product_id = 42; sku = []; slugs = text "junk" ∷ []; term_ids = 7 ∷ [] }
      ∷ [];
  extra_memberships = [];
}

abbrev summary :
    PlanResult → List ℕ × List ℕ × List Text × List (ℕ × List Text) × List (Text × Text) × List Text
summary (planned p) = (
  map (λ (u : Update). u.term_id) p.updates,
  map (λ (d : Delete). d.term_id) p.deletes,
  final_create_slugs p.creates,
  map (λ (m : Membership). (m.product_id, m.final_slugs)) p.memberships,
  map (λ (r : Redirect). (r.old_path, r.new_path)) p.redirects,
  map (λ (z : ZeroCategory). z.key) p.zero_category,
)
summary (refused e) = ([], [], [], [], [], [])

-- The whole planner, open for evaluation.
run_plan : BlogInput → PlanResult
unfolding count_if keep_if any_of contains set_add set_union set_minus is_subset set_eq lookup
    insert set_default has_key text_beq text_le insert_by sort_by sorted_texts is_space lstrip
    rstrip strip collapse decode normalize_wp_name decimal_from decimal zero_category_key
    explicit_from explicit_primary_nodes add_node add_nodes add_custom add_extras load_dispositions
    add_candidate candidate_step candidates_from pool least_id winner survivor add_extra_slugs
    extras_by_slug_from live_by_id_from live_parent_slug_of changes_of update_of emit_update
    emit_delete plan_store_custom plan_survivor plan_mapped plan_action plan_term plan_terms
    is_absorbed node_creates extra_creates creating_from depth_from depth_of create_le order_creates
    sku_extra_add sku_remove carried_slug after_term_ops carried_slugs sku_change final_slugs
    touches_doomed is_zero_category needs_row row_of rows_from memberships_of category_path
    moves_url update_redirects merge_target delete_path delete_redirects redirects_of context_of
    unmapped_slugs is_changed unspsc_renames_from merge_entry unspsc_merges_from zero_categories
    kept_slugs_of key_of assemble plan_snapshot build_blog_plan finals untouched_slugs collide_from
    plan_slug_collisions plan_recreated_slugs
run_plan = build_blog_plan

build-blog : summary (run_plan blog) ≡ (
  5 ∷ [],
  6 ∷ 7 ∷ [],
  text "gloves" ∷ [],
  (40, text "hats" ∷ []) ∷ (42, []) ∷ [],
  (text "/product-category/caps/", text "/product-category/hats/")
      ∷ (text "/product-category/junk/", text "/store/")
      ∷ [],
  text "PID:1:42" ∷ [],
)
unfolding run_plan
build-blog = refl

abbrev snapshot : Snapshot
snapshot = record { version = 3; blog_path = text "/"; fingerprint = [] }

abbrev blog_state : PlanState
blog_state = plan_terms (context_of blog) empty_state blog.terms

abbrev blog_plan : Plan
blog_plan = assemble blog snapshot blog_state

planned-blog : build_blog_plan blog ≡ planned blog_plan
unfolding run_plan
planned-blog = refl

IsProperInput-blog : IsProperInput blog
unfolding run_plan
IsProperInput-blog = record {
  fresh = (refl, (refl, (refl, (refl, tt))));
  nodes = (refl, (refl, tt));
  overrides = tt;
}

fates_partition_example :
    count_if (update_has_id 6) blog_state.updates + count_if (delete_has_id 6) blog_state.deletes
    ≡ count_if (is_planned_id (context_of blog) 6) blog.terms
fates_partition_example = fates_partition (context_of blog) blog.terms 6

survivor-blog : survivor dispositions blog.target.kept blog.terms 1 ≡ some 5
unfolding run_plan
survivor-blog = refl

maps_to-caps : maps_to dispositions 1 (live_term 6 (text "caps") (text "Caps")) ≡ true
unfolding run_plan
maps_to-caps = refl

survivor_choice_example :
    (t : Term) × Among t blog.terms
    × (maps_to dispositions 1 t ≡ true)
    × (t.term_id ≡ 5)
    × IsPreferred dispositions
        (lookup 1 blog.target.kept)
        5
        t
        (live_term 6 (text "caps") (text "Caps"))
survivor_choice_example =
    survivor_choice dispositions blog.target.kept blog.terms 1 5
      (live_term 6 (text "caps") (text "Caps")) survivor-blog (inr (inl refl)) maps_to-caps

delivers_target_example :
    times (text "gloves") (finals blog_plan) + times (text "gloves") blog_plan.absorbed_slugs
    ≡ wanted blog.target (text "gloves")
delivers_target_example =
    delivers_target blog blog_plan (text "gloves") IsProperInput-blog planned-blog

-- Hats takes the sku of product 40 by hand, gloves excludes it.
abbrev by_hand : List (ℕ × Buckets)
by_hand =
    (1, record { rule = []; add = text "A" ∷ []; remove = [] })
    ∷ (2, record { rule = text "A" ∷ []; add = []; remove = text "A" ∷ [] })
    ∷ []

final_slugs_exact_example :
    contains
      (final_slugs blog_state (sku_change blog.target.kept by_hand product_a.sku) product_a)
      (text "hats")
    ≡ ((any_of (leads_to blog_state (text "hats")) product_a.slugs
          || any_of (adds blog.target.kept product_a.sku (text "hats")) by_hand)
        && not (any_of (excludes blog.target.kept product_a.sku (text "hats")) by_hand))
final_slugs_exact_example =
    final_slugs_exact blog_state blog.target.kept by_hand product_a (text "hats")

abbrev junk_delete : Delete
junk_delete = record {
  term_id = 7;
  expected_slug = text "junk";
  public_slug = text "junk";
  reason = Reason.delete;
}

Among-junk_delete : Among junk_delete blog_plan.deletes
unfolding run_plan
Among-junk_delete = inr (inl refl)

carries-junk : contains product_a.slugs (text "junk") ≡ true
unfolding contains text_beq
carries-junk = refl

doomed_products_move_example : any_of (row_for 40) blog_plan.memberships ≡ true
doomed_products_move_example =
    doomed_products_move blog blog_plan junk_delete product_a planned-blog Among-junk_delete
      (inl refl) carries-junk

dead_urls_redirected_example : HasRedirects blog.target blog_plan
dead_urls_redirected_example = dead_urls_redirected blog blog_plan refl planned-blog

plan_slug_collisions_exact_example :
    contains (plan_slug_collisions blog_plan) (text "crew") ≡ collides blog_plan (text "crew")
plan_slug_collisions_exact_example = plan_slug_collisions_exact blog_plan (text "crew")

-- The creates of a category and its child, the child listed first.
abbrev nested : List TermSpec
nested =
    record {
      slug = text "apple";
      name = text "Apple";
      parent_slug = text "fruit";
      description = [];
      sort_order = 10;
    }
    ∷ record {
      slug = text "fruit";
      name = text "Fruit";
      parent_slug = [];
      description = [];
      sort_order = 10;
    }
    ∷ []

Distinct-nested : Distinct (create_slugs nested)
unfolding run_plan
Distinct-nested = (refl, (refl, tt))

Shallow-nested : Shallow nested
unfolding run_plan
Shallow-nested = (omega arith, (omega arith, tt))

order_creates-ParentsFirst_example : ParentsFirst (order_creates nested)
order_creates-ParentsFirst_example =
    order_creates-ParentsFirst nested Distinct-nested Shallow-nested

-- The slug caps is the explicit primary of the node hats, while a term with the slug hats is live
-- as well: caps takes the slug hats over, and hats is merged into its own slug.
abbrev swapped : BlogInput
swapped = record blog {
  dispositions =
      load_dispositions
        (record { old_slug = text "caps"; action = map_to 1; is_primary = true } ∷ [])
        ((1, text "hats") ∷ []) [];
  target = record { kept = (1, hats) ∷ []; extras = [] };
  terms = live_term 5 (text "hats") (text "Hats") ∷ live_term 6 (text "caps") (text "Caps") ∷ [];
  products = [];
}

run-swapped : summary (run_plan swapped) ≡ (
  6 ∷ [],
  5 ∷ [],
  [],
  [],
  (text "/product-category/caps/", text "/product-category/hats/")
      ∷ (text "/product-category/hats/", text "/product-category/hats/")
      ∷ [],
  [],
)
unfolding run_plan
run-swapped = refl

abbrev swapped_targets : Dict Text (Option Text)
swapped_targets = (plan_terms (context_of swapped) empty_state swapped.terms).merge_target_slug

abbrev hats_delete : Delete
hats_delete = record {
  term_id = 5;
  expected_slug = text "hats";
  public_slug = text "hats";
  reason = merge;
}

self_redirect_iff_example :
    (delete_path swapped_targets hats_delete ≡ category_path (text "hats"))
    ↔ ((merge ≡ merge) × (merge_target swapped_targets (text "hats") ≡ some (text "hats")))
self_redirect_iff_example = self_redirect_iff swapped_targets hats_delete

-- A blog that already has its tree.
abbrev tidy : BlogInput
tidy = record blog {
  target = record { kept = (1, hats) ∷ []; extras = [] };
  terms = live_term 5 (text "hats") (text "Hats") ∷ [];
  products =
      record { product_id = 41; sku = text "B"; slugs = text "hats" ∷ []; term_ids = 5 ∷ [] } ∷ [];
}

IsConverged-tidy : IsConverged tidy
unfolding run_plan
IsConverged-tidy = record {
  settled = (
    record {
      node_id = 1;
      desired = hats;
      disposition = record { action = map_to 1; is_primary = true; implicit = true };
      found = refl;
      mapped = refl;
      survives = refl;
      kept = refl;
      not_parked = refl;
      slug = refl;
      name = refl;
      parent = refl;
      description = refl;
      sort_order = refl;
    },
    tt,
  );
  covered = (refl, tt);
  on_terms = ((refl, tt), tt);
  no_extras = refl;
  no_memberships = refl;
}

converged_replans_to_nothing_example :
    (p : Plan) × (build_blog_plan tidy ≡ planned p) × ChangesNothing p
converged_replans_to_nothing_example =
    converged_replans_to_nothing tidy snapshot refl IsConverged-tidy

Distinct-slug_map : Distinct (map row_slug slug_map)
unfolding run_plan
Distinct-slug_map = (refl, (refl, (refl, tt)))

abbrev junk_row : SlugMapRow
junk_row = record { old_slug = text "junk"; action = Action.delete; is_primary = false }

explicit_rows_win_example :
    lookup (text "junk") (load_dispositions slug_map ((9, text "junk") ∷ []) [])
    ≡ some (explicit_of junk_row)
explicit_rows_win_example =
    explicit_rows_win slug_map ((9, text "junk") ∷ []) [] junk_row Distinct-slug_map
      (inr (inl refl))

free-gloves : contains (map row_slug slug_map) (text "gloves") ≡ false
unfolding run_plan
free-gloves = refl

Distinct-nodes : Distinct (map node_slug ((1, text "hats") ∷ (2, text "gloves") ∷ []))
unfolding run_plan
Distinct-nodes = (refl, (refl, tt))

node_slugs_mapped_example :
    lookup
      (text "gloves")
      (load_dispositions slug_map ((1, text "hats") ∷ (2, text "gloves") ∷ []) [])
    ≡ some (record {
      action = map_to 2;
      is_primary = not (any_of (makes_primary 2) slug_map);
      implicit = true;
    })
node_slugs_mapped_example =
    node_slugs_mapped slug_map ((1, text "hats") ∷ (2, text "gloves") ∷ []) [] 2 (text "gloves")
      free-gloves Distinct-nodes (inr (inl refl))
