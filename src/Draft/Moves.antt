-- ===== src/Draft/Moves.antt =====
-- move_node of logo-admin/categories_draft.py.
use arb_data_warehouse.Prelude.{
  Bool, List, Option, Text, if◌then◌else◌, none, some, ℕ, ℤ, nat_eq, text_eq, pair_eq,
}
use arb_data_warehouse.Draft.Nodes.{
  DraftResult, Node, accepted, assert_no_cycle, find_node, rejected, resequence_siblings,
  same_parent, set_node, unknown_node,
}

-- The new parent, if there is one, must not be in the node's own subtree.
unfoldable pub assert_movable : List Node → ℕ → Option ℕ → DraftResult (Unit {0})
assert_movable nodes id none = accepted tt
assert_movable nodes id (some parent) = assert_no_cycle nodes id (some parent)

abbrev pub reparent : ℕ → Option ℕ → List Node → List Node
reparent id parent = set_node id (λ n. record n { parent_id = parent })

-- The writes of a move: the parent, the order among the new siblings, and the gap in the old group.
unfoldable pub place_node :
    (Text → Text → Bool) → List Node → Node → Option ℕ → Option ℤ → List Node
place_node name_le nodes node parent position =
    let moved =
      resequence_siblings name_le (reparent node.node_id parent nodes) parent (some node.node_id)
        position in
    if same_parent node.parent_id parent
    then moved
    else resequence_siblings name_le moved node.parent_id none none

unfoldable pub move_node :
    (Text → Text → Bool) → List Node → ℕ → Option ℕ → Option ℤ → DraftResult (List Node)
move_node name_le nodes id parent position = elim (find_node id nodes) [
  | none ↦ rejected unknown_node
  | some node ↦ elim (assert_movable nodes id parent) [
    | rejected e ↦ rejected e
    | accepted u ↦ accepted (place_node name_le nodes node parent position)
  ]
]
