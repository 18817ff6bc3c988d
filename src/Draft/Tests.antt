-- ===== src/Draft/Tests.antt =====
-- A small draft, and the witnesses of the theorems about moves.
use arb_data_warehouse.Prelude.{
  Bool, List, Option, Text, [], contains, insert_by, keep_if, map, none, pos, refl, set_add, some,
  sort_by, text_le, ℕ, ℤ, ◌∷◌, ◌≡◌, ◌≢◌, nat_eq, text_eq, pair_eq,
}
use arb_data_warehouse.Draft.Nodes.{
  DraftResult, Node, accepted, assert_no_cycle, climb, find_node, insert_at, place, rejected,
  renumber, resequence_siblings, set_node, sibling_le, siblings_of, unfinished,
}
use arb_data_warehouse.Draft.Moves.{assert_movable, move_node, place_node}
use arb_data_warehouse.Draft.Tree.{Under, here, higher, own_subtree_refused}
use arb_data_warehouse.Draft.Rooted.{assert_no_cycle-finishes}

abbrev draft_node : ℕ → Option ℕ → ℕ → Node
draft_node id parent order = record {
  node_id = id;
  parent_id = parent;
  name = [];
  slug = [];
  sort_order = order;
  description = [];
}

-- Two roots, and a child and a grandchild below the first one.
abbrev draft : List Node
draft =
    draft_node 1 none 10
    ∷ draft_node 2 none 20
    ∷ draft_node 3 (some 1) 10
    ∷ draft_node 4 (some 3) 10
    ∷ []

abbrev shape : DraftResult (List Node) → List (ℕ × Option ℕ × ℕ)
shape (accepted nodes) = map (λ (n : Node). (n.node_id, n.parent_id, n.sort_order)) nodes
shape (rejected e) = []

run_move : (Text → Text → Bool) → List Node → ℕ → Option ℕ → Option ℤ → DraftResult (List Node)
unfolding find_node set_node contains set_add keep_if insert_by sort_by climb assert_no_cycle
    sibling_le place insert_at siblings_of renumber resequence_siblings assert_movable place_node
    move_node
run_move = move_node

-- Node 2 goes first below node 1; node 1 closes the gap at the root level.
run-draft :
    shape (run_move text_le draft 2 (some 1) (some (pos 0)))
    ≡ (1, none, 10) ∷ (2, some 1, 10) ∷ (3, some 1, 20) ∷ (4, some 3, 10) ∷ []
unfolding run_move text_le
run-draft = refl

Under-draft : Under draft 1 (some 4)
unfolding run_move
Under-draft =
    higher 4 (draft_node 4 (some 3) 10) refl (higher 3 (draft_node 3 (some 1) 10) refl here)

own_subtree_refused_example : move_node text_le draft 1 (some 4) none ≢ accepted draft
own_subtree_refused_example = own_subtree_refused text_le draft draft 1 4 none Under-draft

-- Two nodes that are each other's parent.
abbrev knotted : List Node
knotted = draft_node 5 (some 6) 10 ∷ draft_node 6 (some 5) 10 ∷ []

assert_no_cycle-finishes_example : assert_no_cycle knotted 9 (some 5) ≢ rejected unfinished
assert_no_cycle-finishes_example = assert_no_cycle-finishes knotted 9 (some 5)
