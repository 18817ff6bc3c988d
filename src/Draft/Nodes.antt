-- ===== src/Draft/Nodes.antt =====
-- The nodes of the draft tree (logo-admin/categories_draft.py): reads, the check for cycles, and the
-- order of siblings.
use arb_data_warehouse.Prelude.{
  Bool, List, Option, Text, [], contains, false, if◌then◌else◌, keep_if, leb, length, ltb, map,
  negsuc, none, not, pos, set_add, some, sort_by, suc, true, zero, ℕ, ℤ, ◌&&◌, ◌+◌, ◌==◌, ◌||◌, ◌∷◌,
  nat_eq, text_eq, pair_eq,
}

-- A row of catmgr.node; the root level has no parent.
pub record Node : Type 0 where
  pub node_id : ℕ
  pub parent_id : Option ℕ
  pub name : Text
  pub slug : Text
  pub sort_order : ℕ
  pub description : Text

-- DraftError and DraftConflict, by what they say; `unfinished` is no error of the program.
pub data DraftRefusal : Type 0 where
  unknown_node : DraftRefusal
  own_subtree : DraftRefusal
  parent_cycle : DraftRefusal
  unknown_parent : DraftRefusal
  unfinished : DraftRefusal

pub data DraftResult {ℓ} (A : Type ℓ) : Type ℓ where
  accepted : A → DraftResult A
  rejected : DraftRefusal → DraftResult A

unfoldable pub find_node : ℕ → List Node → Option Node
find_node id [] = none
find_node id (n ∷ ns) = if n.node_id == id then some n else find_node id ns

-- `UPDATE catmgr.node SET ... WHERE node_id = id`
unfoldable pub set_node : ℕ → (Node → Node) → List Node → List Node
set_node id f [] = []
set_node id f (n ∷ ns) = (if n.node_id == id then f n else n) ∷ set_node id f ns

-- The loop of _assert_no_cycle from a node on, on the nodes that it has seen.
unfoldable pub climb : ℕ → List Node → ℕ → List ℕ → Option ℕ → DraftResult (Unit {0})
climb fuel nodes id seen none = accepted tt
climb zero nodes id seen (some k) = rejected unfinished
climb (suc fuel) nodes id seen (some k) =
    if k == id
    then rejected own_subtree
    else if contains seen k
    then rejected parent_cycle
    else elim (find_node k nodes) [
      | none ↦ rejected unknown_parent
      | some n ↦ climb fuel nodes id (set_add seen k) n.parent_id
    ]

-- Each round sees a further node, so that one round more than there are nodes is enough.
unfoldable pub assert_no_cycle : List Node → ℕ → Option ℕ → DraftResult (Unit {0})
assert_no_cycle nodes id parent = climb (suc (length nodes)) nodes id [] parent

abbrev pub same_parent : Option ℕ → Option ℕ → Bool
same_parent none none = true
same_parent (some a) (some b) = a == b
same_parent _ _ = false

-- A sibling of the moved node, which is none where the program passes -1.
abbrev pub is_sibling : Option ℕ → Option ℕ → Node → Bool
is_sibling parent moved n =
    same_parent n.parent_id parent && not (same_parent (some n.node_id) moved)

-- `ORDER BY sort_order, name, node_id`; `name_le` stands for the database's collation.
unfoldable pub sibling_le : (Text → Text → Bool) → Node → Node → Bool
sibling_le name_le a b =
    ltb a.sort_order b.sort_order
    || (a.sort_order == b.sort_order
        && (name_le a.name b.name && (not (name_le b.name a.name) || leb a.node_id b.node_id)))

-- No position, and one out of range, is the end.
unfoldable pub place : Option ℤ → ℕ → ℕ
place none count = count
place (some (negsuc n)) count = count
place (some (pos n)) count = if ltb count n then count else n

unfoldable pub insert_at {ℓ} : {A : Type ℓ} → ℕ → A → List A → List A
insert_at zero x ys = x ∷ ys
insert_at (suc k) x [] = x ∷ []
insert_at (suc k) x (y ∷ ys) = y ∷ insert_at k x ys

unfoldable pub siblings_of :
    (Text → Text → Bool) → List Node → Option ℕ → Option ℕ → Option ℤ → List (Option ℕ)
siblings_of name_le nodes parent moved position =
    let rows =
      map (λ (n : Node). some n.node_id)
        (sort_by (sibling_le name_le) (keep_if (is_sibling parent moved) nodes)) in
    insert_at (place position (length rows)) moved rows

-- Writes 10, 20, 30, ... to the siblings in turn, from a number on.
unfoldable pub renumber : ℕ → List (Option ℕ) → List Node → List Node
renumber order [] nodes = nodes
renumber order (none ∷ ids) nodes = renumber (order + 10) ids nodes
renumber order (some id ∷ ids) nodes =
    renumber (order + 10) ids (set_node id (λ n. record n { sort_order = order }) nodes)

unfoldable pub resequence_siblings :
    (Text → Text → Bool) → List Node → Option ℕ → Option ℕ → Option ℤ → List Node
resequence_siblings name_le nodes parent moved position =
    renumber 10 (siblings_of name_le nodes parent moved position) nodes
