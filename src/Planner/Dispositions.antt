-- ===== src/Planner/Dispositions.antt =====
-- load_dispositions of logo-admin/categories_planner.py: the explicit slug_map rows, the implicit
-- identity mappings of the draft's nodes, and the implicit store customs of the store extras.
pub mod Laws
use arb_data_warehouse.Prelude.{
  Bool, Dict, List, Text, [], contains, false, has_key, if◌then◌else◌, insert, is_empty, not, true,
  ℕ, ◌++◌, ◌∷◌, nat_eq, text_eq, pair_eq,
}
use arb_data_warehouse.Planner.Types.{Action, Disposition, map_to, store_custom}

pub record SlugMapRow : Type 0 where
  pub old_slug : Text
  pub action : Action
  pub is_primary : Bool

-- The explicit rows; old_slug is the table's key.
unfoldable pub explicit_from : Dict Text Disposition → List SlugMapRow → Dict Text Disposition
explicit_from d [] = d
explicit_from d (r ∷ rows) =
    explicit_from
      (insert r.old_slug (record { action = r.action; is_primary = r.is_primary; implicit = false })
        d)
      rows

abbrev pub primary_of : Action → Bool → List ℕ
primary_of (map_to n) true = n ∷ []
primary_of _ _ = []

-- The nodes that have an explicit primary.
unfoldable pub explicit_primary_nodes : List SlugMapRow → List ℕ
explicit_primary_nodes [] = []
explicit_primary_nodes (r ∷ rows) = primary_of r.action r.is_primary ++ explicit_primary_nodes rows

-- A node's own slug maps to it, unless a row already says otherwise.
unfoldable pub add_node : List ℕ → Dict Text Disposition → ℕ → Text → Dict Text Disposition
add_node primaries d node_id slug =
    if has_key slug d
    then d
    else insert slug
        (record {
          action = map_to node_id;
          is_primary = not (contains primaries node_id);
          implicit = true;
        })
        d

unfoldable pub add_nodes : List ℕ → Dict Text Disposition → List (ℕ × Text) → Dict Text Disposition
add_nodes primaries d [] = d
add_nodes primaries d ((n, slug) ∷ nodes) = add_nodes primaries (add_node primaries d n slug) nodes

-- An extra's slug stays with its store, unless something already says otherwise.
unfoldable pub add_custom : Dict Text Disposition → Text → Dict Text Disposition
add_custom d slug =
    if is_empty slug
    then d
    else if has_key slug d
    then d
    else insert slug (record { action = store_custom; is_primary = false; implicit = true }) d

-- Each extra with its slug and its previous slug, the empty text for none.
unfoldable pub add_extras : Dict Text Disposition → List (Text × Text) → Dict Text Disposition
add_extras d [] = d
add_extras d ((slug, previous_slug) ∷ extras) =
    add_extras (add_custom (add_custom d slug) previous_slug) extras

unfoldable pub load_dispositions :
    List SlugMapRow → List (ℕ × Text) → List (Text × Text) → Dict Text Disposition
load_dispositions slug_map nodes extras =
    let explicit = explicit_from [] slug_map in
    add_extras (add_nodes (explicit_primary_nodes slug_map) explicit nodes) extras
