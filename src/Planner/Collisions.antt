-- ===== src/Planner/Collisions.antt =====
-- _plan_slug_collisions and _plan_recreated_slugs of logo-admin/categories_planner.py.
pub mod Laws
use arb_data_warehouse.Prelude.{
  List, Text, [], contains, if◌then◌else◌, keep_if, map, set_add, set_minus, set_union,
  sorted_texts, ◌++◌, ◌||◌, ◌∷◌, nat_eq, text_eq, pair_eq,
}
use arb_data_warehouse.Planner.Types.{Delete, TermSpec, Update}
use arb_data_warehouse.Planner.Plan.{Plan}

abbrev pub final_update_slugs : List Update → List Text
final_update_slugs = map (λ (u : Update). u.set.slug)

abbrev pub final_create_slugs : List TermSpec → List Text
final_create_slugs = map (λ (c : TermSpec). c.slug)

-- The final slugs of the plan, in the order in which they are looked at.
unfoldable pub finals : Plan → List Text
finals plan = final_update_slugs plan.updates ++ final_create_slugs plan.creates

-- The live slugs that no update touches.
unfoldable pub untouched_slugs : Plan → List Text
untouched_slugs plan = set_minus plan.kept_slugs (map (λ (u : Update). u.public_slug) plan.updates)

-- The loop over the final slugs, on `seen`; it collects the slugs that collide.
unfoldable pub collide_from : List Text → List Text → List Text → List Text
collide_from kept seen [] = []
collide_from kept seen (s ∷ slugs) =
    let rest = collide_from kept (s ∷ seen) slugs in
    if contains seen s || contains kept s then set_add rest s else rest

unfoldable pub plan_slug_collisions : Plan → List Text
plan_slug_collisions plan =
    sorted_texts
      (set_union (collide_from (untouched_slugs plan) [] (finals plan)) plan.absorbed_slugs)

-- The slugs that deletes vacate.
abbrev pub doomed_slugs : List Delete → List Text
doomed_slugs = map (λ (d : Delete). d.public_slug)

unfoldable pub plan_recreated_slugs : Plan → List Text
plan_recreated_slugs plan =
    sorted_texts (keep_if (contains (doomed_slugs plan.deletes)) (final_create_slugs plan.creates))
