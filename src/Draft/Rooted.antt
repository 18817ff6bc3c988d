-- ===== src/Draft/Rooted.antt =====
-- The draft as a tree (logo-admin/categories_draft.py: move_node, _assert_no_cycle).
use arb_data_warehouse.Prelude.{
  All, Bool, Bool-cases, List, Option, Option-cases, [], ap, arith, contains, contains-set_add,
  count_if, false, inl, inr, length, nat_beq_iff, none, not, set_add, some, suc, zero, ℕ, ◌<◌, ◌==◌,
  ◌∷◌, ◌≡◌, ◌≢◌, ◌≤◌, nat_eq, text_eq, pair_eq,
}
use arb_data_warehouse.Draft.Nodes.{Node, assert_no_cycle, climb, find_node, rejected, unfinished}

-- The chain of parents from here on ends at the root level.
pub data Rooted (nodes : List Node) : Option ℕ → Type 0 where
  at_root : Rooted nodes none
  below :
      (k : ℕ) (n : Node)
      → find_node k nodes ≡ some n
      → Rooted nodes n.parent_id
      → Rooted nodes (some k)

-- Every node of the draft hangs on the root level.
abbrev pub IsTree : List Node → Type 0
IsTree nodes = All (λ (n : Node). Rooted nodes n.parent_id) nodes

unseen : List ℕ → Node → Bool
unseen seen n = not (contains seen n.node_id)

unseen-set_add :
    (k : ℕ) (seen : List ℕ) (nodes : List Node)
    → count_if (unseen (set_add seen k)) nodes ≤ count_if (unseen seen) nodes
unfolding count_if unseen
unseen-set_add k seen [] = omega arith
unseen-set_add k seen (n ∷ ns) =
    ground (arith, unseen-set_add k seen ns, contains-set_add seen k n.node_id)

-- A node that is seen for the first time leaves fewer unseen ones.
unseen_drops :
    (k : ℕ) (seen : List ℕ) (node : Node) (nodes : List Node)
    → find_node k nodes ≡ some node
    → contains seen k ≡ false
    → count_if (unseen (set_add seen k)) nodes < count_if (unseen seen) nodes
unfolding count_if unseen find_node
unseen_drops k seen node [] h new = absurd (cc)
unseen_drops k seen node (n ∷ ns) h new = elim (Bool-cases (n.node_id == k)) [
  | inl e ↦
      let same : n.node_id ≡ k = (nat_beq_iff n.node_id k).0 e in
      ground (
        arith,
        unseen-set_add k seen ns,
        contains-set_add seen k n.node_id,
        ap (contains seen) same,
      )
  | inr e ↦
      ground
        (arith, unseen_drops k seen node ns (ground arith) new, contains-set_add seen k n.node_id)
]

climb-finishes :
    (fuel : ℕ) (nodes : List Node) (id : ℕ) (seen : List ℕ) (o : Option ℕ)
    → count_if (unseen seen) nodes < fuel
    → climb fuel nodes id seen o ≢ rejected unfinished
unfolding climb
climb-finishes fuel nodes id seen none h e = cc
climb-finishes zero nodes id seen (some k) h e = absurd (omega arith)
climb-finishes (suc fuel) nodes id seen (some k) h e = elim (Bool-cases (k == id)) [
  | inl a ↦ ground arith
  | inr a ↦ elim (Bool-cases (contains seen k)) [
    | inl b ↦ ground arith
    | inr b ↦ elim (Option-cases (find_node k nodes)) [
      | inl c ↦ ground arith
      | inr (n, c) ↦
          climb-finishes fuel nodes id (set_add seen k) n.parent_id
            (omega (arith, unseen_drops k seen n nodes c b)) (ground arith)
    ]
  ]
]

count_if-length : (p : Node → Bool) (nodes : List Node) → count_if p nodes ≤ length nodes
unfolding count_if
count_if-length p [] = omega arith
count_if-length p (n ∷ ns) = ground (arith, count_if-length p ns)

-- The check for cycles always comes to a verdict, even on a draft that has a cycle already.
pub assert_no_cycle-finishes :
    (nodes : List Node) (id : ℕ) (parent : Option ℕ)
    → assert_no_cycle nodes id parent ≢ rejected unfinished
unfolding assert_no_cycle
assert_no_cycle-finishes nodes id parent =
    climb-finishes (suc (length nodes)) nodes id [] parent
      (omega (arith, count_if-length (unseen []) nodes))
