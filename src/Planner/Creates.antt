-- ===== src/Planner/Creates.antt =====
-- The creates of build_blog_plan (logo-admin/categories_planner.py): the nodes and extras of the
-- target without a live term, parents before children, and the slugs that a store custom absorbs.
pub mod Order
use arb_data_warehouse.Prelude.{
  Bool, Dict, List, Option, Text, [], any_of, contains, false, if◌then◌else◌, insert, is_empty,
  lookup, ltb, none, some, sort_by, suc, text_le, true, zero, ℕ, ◌&&◌, ◌==◌, ◌||◌, ◌∷◌, nat_eq,
  text_eq, pair_eq,
}
use arb_data_warehouse.Planner.Types.{
  Desired, Disposition, Extra, Term, TermSpec, logical, store_custom,
}
use arb_data_warehouse.Planner.Terms.{spec_of_desired, spec_of_extra}

-- A live store custom owns the slug on this blog.
unfoldable pub is_absorbed : Dict Text Disposition → List Term → Desired → Bool
is_absorbed dispositions terms d =
    any_of (λ t. logical t == d.slug) terms && elim (lookup d.slug dispositions) [
      | none ↦ false
      | some e ↦ elim e.action [ store_custom ↦ true | _ ↦ false ]
    ]

-- The two lists that the loop over the kept nodes fills: the creates and the absorbed slugs.
unfoldable pub node_creates :
    Dict Text Disposition → List Term → List ℕ → Dict ℕ Desired → List TermSpec × List Text
node_creates dispositions terms here [] = ([], [])
node_creates dispositions terms here ((n, d) ∷ kept) =
    let (creates, absorbed) = node_creates dispositions terms here kept in
    if contains here n
    then (creates, absorbed)
    else if is_absorbed dispositions terms d
    then (creates, d.slug ∷ absorbed)
    else (spec_of_desired d ∷ creates, absorbed)

unfoldable pub extra_creates : List ℕ → List Extra → List TermSpec
extra_creates converged [] = []
extra_creates converged (x ∷ xs) =
    let rest = extra_creates converged xs in
    if contains converged x.override_id then rest else spec_of_extra x [] ∷ rest

-- `{c["slug"]: c for c in creates}`
unfoldable pub creating_from : Dict Text TermSpec → List TermSpec → Dict Text TermSpec
creating_from d [] = d
creating_from d (s ∷ ss) = creating_from (insert s.slug s d) ss

-- The loop of depth_of from a create on. It breaks once the depth is above 10, so that 11 rounds
-- are all that it makes: `rounds` counts down from 11.
unfoldable pub depth_from : Dict Text TermSpec → ℕ → Option TermSpec → ℕ
depth_from creating zero current = 0
depth_from creating (suc rounds) none = 0
depth_from creating (suc rounds) (some s) =
    let rest = depth_from creating rounds (lookup s.parent_slug creating) in
    if is_empty s.parent_slug then 0 else suc rest

unfoldable pub depth_of : Dict Text TermSpec → Text → ℕ
depth_of creating slug = depth_from creating 11 (lookup slug creating)

-- `(create_order[c["slug"]], c["slug"])`, compared.
unfoldable pub create_le : Dict Text TermSpec → TermSpec → TermSpec → Bool
create_le creating a b =
    ltb (depth_of creating a.slug) (depth_of creating b.slug)
    || (depth_of creating a.slug == depth_of creating b.slug && text_le a.slug b.slug)

unfoldable pub order_creates : List TermSpec → List TermSpec
order_creates creates = sort_by (create_le (creating_from [] creates)) creates
