-- ===== src/Draft/Tree.antt =====
-- What a move does to the chains of parents (logo-admin/categories_draft.py: move_node).
use mathlib.Core.Path.{subst}
use arb_data_warehouse.Prelude.{
  All, Bool, Bool-cases, List, Option, Option-cases, Text, [], ap, arith, contains, false, inl, inr,
  length, nat_beq_iff, none, refl, set_add, some, suc, sym, true, zero, ℕ, ℤ, ◌+◌, ◌==◌, ◌∙◌, ◌∷◌,
  ◌≡◌, ◌≢◌, nat_eq, text_eq, pair_eq,
}
use arb_data_warehouse.Draft.Nodes.{
  DraftResult, Node, accepted, assert_no_cycle, climb, find_node, rejected, renumber,
  resequence_siblings, same_parent, set_node, siblings_of,
}
use arb_data_warehouse.Draft.Moves.{assert_movable, move_node, place_node, reparent}
use arb_data_warehouse.Draft.Rooted.{IsTree, Rooted, at_root, below}

find_node-same :
    (id : ℕ) (f : Node → Node) (node : Node) (nodes : List Node)
    → ((n : Node) → (f n).node_id ≡ n.node_id)
    → find_node id nodes ≡ some node
    → find_node id (set_node id f nodes) ≡ some (f node)
unfolding find_node set_node
find_node-same id f node [] k h = absurd (cc)
find_node-same id f node (n ∷ ns) k h = elim (Bool-cases (n.node_id == id)) [
  | inl e ↦
      let same : n ≡ node = ground arith in
      let hit : ((f n).node_id == id) ≡ true = ap (λ v. v == id) (k n) ∙ e in
      rw (e, hit) (ap (λ v. some (f v)) same)
  | inr e ↦ rw (e, e) (find_node-same id f node ns k (ground arith))
]

find_node-other :
    (k id : ℕ) (f : Node → Node) (nodes : List Node)
    → ((n : Node) → (f n).node_id ≡ n.node_id)
    → (k == id) ≡ false
    → find_node k (set_node id f nodes) ≡ find_node k nodes
unfolding find_node set_node
find_node-other k id f [] kept h = refl
find_node-other k id f (n ∷ ns) kept h = elim (Bool-cases (n.node_id == id)) [
  | inl e ↦
      let off : (n.node_id == k) ≡ false =
        ground (arith, nat_beq_iff n.node_id id, nat_beq_iff n.node_id k, nat_beq_iff k id) in
      let off' : ((f n).node_id == k) ≡ false = ap (λ v. v == k) (kept n) ∙ off in
      rw (e, off, off') (find_node-other k id f ns kept h)
  | inr e ↦ rw (e, find_node-other k id f ns kept h)
]

module _ (id : ℕ) (f : Node → Node) (nodes : List Node)
    (kept : (n : Node) → (f n).node_id ≡ n.node_id)
    (hangs : (n : Node)
      → Rooted (set_node id f nodes) n.parent_id
      → Rooted (set_node id f nodes) (f n).parent_id) where
  Rooted-set_node : (o : Option ℕ) → Rooted nodes o → Rooted (set_node id f nodes) o
  Rooted-set_node none at_root = at_root
  Rooted-set_node (some k) (below k' n found r) = elim (Bool-cases (k == id)) [
    | inl e ↦
        let same : k ≡ id = (nat_beq_iff k id).0 e in
        below k (f n)
          (ap (λ v. find_node v (set_node id f nodes)) same
            ∙ find_node-same id f n nodes kept (ap (λ v. find_node v nodes) (sym same) ∙ found))
          (hangs n (Rooted-set_node n.parent_id r))
    | inr e ↦
        below k n (find_node-other k id f nodes kept e ∙ found) (Rooted-set_node n.parent_id r)
  ]

  hangs-All :
      (ns : List Node)
      → All (λ (n : Node). Rooted nodes n.parent_id) ns
      → All (λ (n : Node). Rooted (set_node id f nodes) n.parent_id) (set_node id f ns)
  unfolding set_node
  hangs-All [] h = tt
  hangs-All (n ∷ ns) h = elim (Bool-cases (n.node_id == id)) [
    | inl e ↦ rw e (hangs n (Rooted-set_node n.parent_id h.0), hangs-All ns h.1)
    | inr e ↦ rw e (Rooted-set_node n.parent_id h.0, hangs-All ns h.1)
  ]

  pub IsTree-set_node : IsTree nodes → IsTree (set_node id f nodes)
  IsTree-set_node = hangs-All nodes

-- The order of siblings has no say in the tree.
IsTree-renumber :
    (order : ℕ) (ids : List (Option ℕ)) (nodes : List Node)
    → IsTree nodes
    → IsTree (renumber order ids nodes)
unfolding renumber
IsTree-renumber order [] nodes h = h
IsTree-renumber order (none ∷ ids) nodes h = IsTree-renumber (order + 10) ids nodes h
IsTree-renumber order (some id ∷ ids) nodes h =
    IsTree-renumber (order + 10) ids (set_node id (λ n. record n { sort_order = order }) nodes)
      (IsTree-set_node id (λ n. record n { sort_order = order }) nodes (λ n. refl) (λ n r. r) h)

pub IsTree-resequence_siblings :
    (name_le : Text → Text → Bool) (nodes : List Node) (parent moved : Option ℕ)
    (position : Option ℤ)
    → IsTree nodes
    → IsTree (resequence_siblings name_le nodes parent moved position)
unfolding resequence_siblings
IsTree-resequence_siblings name_le nodes parent moved position =
    IsTree-renumber 10 (siblings_of name_le nodes parent moved position) nodes

-- A chain that the check has climbed is still there after the move, since it does not pass the
-- moved node.
climb-Rooted :
    (fuel : ℕ) (nodes : List Node) (id : ℕ) (seen : List ℕ) (o parent : Option ℕ)
    → climb fuel nodes id seen o ≡ accepted tt
    → Rooted (reparent id parent nodes) o
unfolding climb
climb-Rooted fuel nodes id seen none parent h = at_root
climb-Rooted zero nodes id seen (some k) parent h = absurd (cc)
climb-Rooted (suc fuel) nodes id seen (some k) parent h = elim (Bool-cases (k == id)) [
  | inl a ↦ absurd (ground arith)
  | inr a ↦ elim (Bool-cases (contains seen k)) [
    | inl b ↦ absurd (ground arith)
    | inr b ↦ elim (Option-cases (find_node k nodes)) [
      | inl c ↦ absurd (ground arith)
      | inr (n, c) ↦
          below k n
            (find_node-other k id (λ n. record n { parent_id = parent }) nodes (λ n. refl) a ∙ c)
            (climb-Rooted fuel nodes id (set_add seen k) n.parent_id parent (ground arith))
    ]
  ]
]

movable-Rooted :
    (nodes : List Node) (id : ℕ) (parent : Option ℕ)
    → assert_movable nodes id parent ≡ accepted tt
    → Rooted (reparent id parent nodes) parent
unfolding assert_movable assert_no_cycle
movable-Rooted nodes id none h = at_root
movable-Rooted nodes id (some k) h =
    climb-Rooted (suc (length nodes)) nodes id [] (some k) (some k) h

place_node-IsTree :
    (name_le : Text → Text → Bool) (nodes : List Node) (node : Node) (parent : Option ℕ)
    (position : Option ℤ)
    → IsTree nodes
    → Rooted (reparent node.node_id parent nodes) parent
    → IsTree (place_node name_le nodes node parent position)
unfolding place_node
place_node-IsTree name_le nodes node parent position h r =
    let moved =
      resequence_siblings name_le (reparent node.node_id parent nodes) parent (some node.node_id)
        position in
    let tree : IsTree moved =
      IsTree-resequence_siblings name_le (reparent node.node_id parent nodes) parent
        (some node.node_id) position
        (IsTree-set_node node.node_id (λ n. record n { parent_id = parent }) nodes (λ n. refl)
          (λ n q. r) h) in
    elim (Bool-cases (same_parent node.parent_id parent)) [
      | inl e ↦ rw e tree
      | inr e ↦ rw e (IsTree-resequence_siblings name_le moved node.parent_id none none tree)
    ]

pub find_node-id :
    (id : ℕ) (nodes : List Node) (n : Node) → find_node id nodes ≡ some n → n.node_id ≡ id
unfolding find_node
find_node-id id [] n h = absurd (cc)
find_node-id id (m ∷ ms) n h = elim (Bool-cases (m.node_id == id)) [
  | inl e ↦
      let same : m ≡ n = ground arith in
      ap (λ (v : Node). v.node_id) (sym same) ∙ (nat_beq_iff m.node_id id).0 e
  | inr e ↦ find_node-id id ms n (ground arith)
]

-- A move that is not rejected keeps the draft a tree: no node comes to hang on a cycle or on a
-- parent that is not there.
pub move_node-IsTree :
    (name_le : Text → Text → Bool) (nodes after : List Node) (id : ℕ) (parent : Option ℕ)
    (position : Option ℤ)
    → IsTree nodes
    → move_node name_le nodes id parent position ≡ accepted after
    → IsTree after
unfolding move_node
move_node-IsTree name_le nodes after id parent position h e =
    elim (Option-cases (find_node id nodes)) [
      | inl c ↦ absurd (ground arith)
      | inr (n, c) ↦ go n c (assert_movable nodes id parent) refl
    ]
  where
    go :
        (n : Node)
        → find_node id nodes ≡ some n
        → (r : DraftResult (Unit {0})) → assert_movable nodes id parent ≡ r
        → IsTree after
    go n c (rejected why) q = absurd (ground arith)
    go n c (accepted u) q =
        let placed : place_node name_le nodes n parent position ≡ after = ground arith in
        subst IsTree placed (
          place_node-IsTree name_le nodes n parent position h (
            subst (λ v. Rooted (reparent v parent nodes) parent) (sym (find_node-id id nodes n c))
              (movable-Rooted nodes id parent q)))

-- The node is the start of the chain or one of the parents above it.
pub data Under (nodes : List Node) (id : ℕ) : Option ℕ → Type 0 where
  here : Under nodes id (some id)
  higher :
      (k : ℕ) (n : Node)
      → find_node k nodes ≡ some n
      → Under nodes id n.parent_id
      → Under nodes id (some k)

climb-Under :
    (fuel : ℕ) (nodes : List Node) (id : ℕ) (seen : List ℕ) (o : Option ℕ)
    → Under nodes id o
    → climb fuel nodes id seen o ≢ accepted tt
unfolding climb
climb-Under fuel nodes id seen none u e = elim u [ ]
climb-Under zero nodes id seen (some k) u e = absurd (cc)
climb-Under (suc fuel) nodes id seen (some k) here e = absurd (ground (arith, nat_beq_iff k k))
climb-Under (suc fuel) nodes id seen (some k) (higher k' n found u) e =
    let rest = climb-Under fuel nodes id (set_add seen k) n.parent_id u in
    absurd (ground (arith, found, rest))

-- A move of a node under itself or under one of its descendants is not accepted.
pub own_subtree_refused :
    (name_le : Text → Text → Bool) (nodes after : List Node) (id parent : ℕ) (position : Option ℤ)
    → Under nodes id (some parent)
    → move_node name_le nodes id (some parent) position ≢ accepted after
unfolding move_node assert_movable assert_no_cycle
own_subtree_refused name_le nodes after id parent position u e =
    elim (Option-cases (find_node id nodes)) [
      | inl c ↦ absurd (ground arith)
      | inr (n, c) ↦ go (assert_no_cycle nodes id (some parent)) refl
    ]
  where
    go : (r : DraftResult (Unit {0})) → assert_no_cycle nodes id (some parent) ≡ r → ⊥
    go (rejected why) q = absurd (ground arith)
    go (accepted tt) q = climb-Under (suc (length nodes)) nodes id [] (some parent) u q
