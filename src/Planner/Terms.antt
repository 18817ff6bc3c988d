-- ===== src/Planner/Terms.antt =====
-- The loop over the live terms in build_blog_plan (logo-admin/categories_planner.py): each term is
-- updated in place, deleted, or left alone.
pub mod Fates
pub mod Coverage
use arb_data_warehouse.Prelude.{
  Bool, Dict, List, Option, Text, [], contains, false, if◌then◌else◌, insert, is_empty, lookup,
  none, not, set_add, set_default, some, ℕ, ◌++◌, ◌==◌, ◌||◌, ◌∷◌, nat_eq, text_eq, pair_eq,
}
use arb_data_warehouse.Planner.Types.{
  Action, Changed, Delete, Desired, Disposition, Extra, Reason, Term, TermSpec, Update, delete,
  excluded, logical, map_to, merge, store_custom,
}
use arb_data_warehouse.Planner.Names.{normalize_wp_name}

-- What the loop reads. `unescape` stands for html.unescape, and `survivors` for the dict of that
-- name, by its `get`.
pub record Context : Type 0 where
  pub unescape : Text → Text
  pub dispositions : Dict Text Disposition
  pub kept : Dict ℕ Desired
  pub extras_by_slug : Dict Text Extra
  pub live_by_id : Dict ℕ Term
  pub survivors : ℕ → Option ℕ

-- What the loop writes. Sets are lists; a merge target of None is `none`.
pub record PlanState : Type 0 where
  pub updates : List Update
  pub deletes : List Delete
  pub kept_current : Dict Text Text
  pub merge_target_slug : Dict Text (Option Text)
  pub nodes_with_primary_here : List ℕ
  pub converged_extras : List ℕ

abbrev pub empty_state : PlanState
empty_state = record {
  updates = [];
  deletes = [];
  kept_current = [];
  merge_target_slug = [];
  nodes_with_primary_here = [];
  converged_extras = [];
}

-- An extra is found by its slug and, if no extra owns that slug before, by its previous slug.
unfoldable pub add_extra_slugs : Dict Text Extra → Extra → Dict Text Extra
add_extra_slugs d x =
    let own = insert x.slug x d in
    if is_empty x.previous_slug then own else set_default x.previous_slug x own

unfoldable pub extras_by_slug_from : Dict Text Extra → List Extra → Dict Text Extra
extras_by_slug_from d [] = d
extras_by_slug_from d (x ∷ xs) = extras_by_slug_from (add_extra_slugs d x) xs

-- `{t["term_id"]: t for t in terms}`
unfoldable pub live_by_id_from : Dict ℕ Term → List Term → Dict ℕ Term
live_by_id_from d [] = d
live_by_id_from d (t ∷ ts) = live_by_id_from (insert t.term_id t d) ts

unfoldable pub live_parent_slug_of : Context → Term → Text
live_parent_slug_of c t = elim (lookup t.parent_term_id c.live_by_id) [
  | none ↦ []
  | some p ↦ logical p
]

-- The `changes` of an update; a parked term always gets its slug back.
unfoldable pub changes_of : Context → Term → TermSpec → Changed
changes_of c t s = record {
  slug = not (logical t == s.slug) || not (is_empty t.parked_from);
  name = not (normalize_wp_name c.unescape t.name == s.name);
  parent = not (live_parent_slug_of c t == s.parent_slug);
  description = not (t.description == s.description);
  sort_order = not (t.sort_order == s.sort_order);
}

unfoldable pub update_of : Context → Term → TermSpec → Update
update_of c t s = record {
  term_id = t.term_id;
  expected_slug = t.slug;
  public_slug = logical t;
  set = s;
  changed = changes_of c t s;
}

-- A node's term takes the node's description.
abbrev pub spec_of_desired : Desired → TermSpec
spec_of_desired d = record {
  slug = d.slug;
  name = d.name;
  parent_slug = d.parent_slug;
  description = d.description;
  sort_order = d.sort_order;
}

-- An extra's live term keeps its own description.
abbrev pub spec_of_extra : Extra → Text → TermSpec
spec_of_extra x description = record {
  slug = x.slug;
  name = x.name;
  parent_slug = x.parent_slug;
  description = description;
  sort_order = x.sort_order;
}

unfoldable pub emit_update : Context → PlanState → Term → TermSpec → PlanState
emit_update c st t s = record st { updates = st.updates ++ update_of c t s ∷ [] }

unfoldable pub emit_delete : PlanState → Term → Reason → Option Text → PlanState
emit_delete st t why target_slug = record st {
  deletes =
      st.deletes
      ++ record {
        term_id = t.term_id;
        expected_slug = t.slug;
        public_slug = logical t;
        reason = why;
      }
        ∷ [];
  merge_target_slug = insert (logical t) target_slug st.merge_target_slug;
}

-- A store custom: another store's slug stays; the first live term of an extra converges in place,
-- a second one merges into it.
unfoldable pub plan_store_custom : Context → PlanState → Term → Option Extra → PlanState
plan_store_custom c st t none = record st {
  kept_current = insert (logical t) (logical t) st.kept_current;
}
plan_store_custom c st t (some x) =
    if contains st.converged_extras x.override_id
    then emit_delete st t Reason.merge (some x.slug)
    else emit_update c
        (record st {
          converged_extras = set_add st.converged_extras x.override_id;
          kept_current = insert (logical t) x.slug st.kept_current;
        })
        t (spec_of_extra x t.description)

abbrev pub slug_of_desired : Option Desired → Option Text
slug_of_desired none = none
slug_of_desired (some d) = some d.slug

-- The surviving term of a node: gone where the node is excluded, else updated in place.
unfoldable pub plan_survivor : Context → PlanState → Term → ℕ → Option Desired → PlanState
plan_survivor c st t n none = emit_delete st t Reason.excluded none
plan_survivor c st t n (some d) =
    emit_update c
      (record st {
        nodes_with_primary_here = set_add st.nodes_with_primary_here n;
        kept_current = insert (logical t) d.slug st.kept_current;
      })
      t (spec_of_desired d)

-- `survivors.get(node_id) == term["term_id"]`
abbrev pub is_survivor : Context → ℕ → Term → Bool
is_survivor c n t = elim (c.survivors n) [ none ↦ false | some k ↦ k == t.term_id ]

unfoldable pub plan_mapped : Context → PlanState → Term → ℕ → PlanState
plan_mapped c st t n =
    if is_survivor c n t
    then plan_survivor c st t n (lookup n c.kept)
    else emit_delete st t Reason.merge (slug_of_desired (lookup n c.kept))

unfoldable pub plan_action : Context → PlanState → Term → Action → PlanState
plan_action c st t store_custom = plan_store_custom c st t (lookup (logical t) c.extras_by_slug)
plan_action c st t Action.delete = emit_delete st t Reason.delete none
plan_action c st t (map_to n) = plan_mapped c st t n

-- Every slug has a disposition here: a blog with an unmapped slug is refused before the loop.
unfoldable pub plan_term : Context → PlanState → Term → PlanState
plan_term c st t = elim (lookup (logical t) c.dispositions) [
  | none ↦ st
  | some d ↦ plan_action c st t d.action
]

unfoldable pub plan_terms : Context → PlanState → List Term → PlanState
plan_terms c st [] = st
plan_terms c st (t ∷ ts) = plan_terms c (plan_term c st t) ts
