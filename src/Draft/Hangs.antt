-- ===== src/Draft/Hangs.antt =====
-- Creating and changing categories keep the draft a tree, and its mappings in order
-- (logo-admin/categories_draft.py: create_node, update_node).
use arb_data_warehouse.Outcomes.{Ensures, Ensures-bind, Ensures-check, anything}
use arb_data_warehouse.Prelude.{
  All, All-Among-elim, All-append, Among, Bool, Bool-cases, List, Option, Option-cases, Text, [],
  arith, contains, false, if◌then◌else◌, inl, inr, is_empty, map, none, not, refl, some, true, ℕ, ℤ,
  ◌++◌, ◌==◌, ◌∷◌, ◌≡◌, nat_eq, text_eq, pair_eq,
}
use arb_data_warehouse.Draft.Nodes.{Node, find_node}
use arb_data_warehouse.Draft.Rooted.{IsTree, Rooted, at_root, below}
use arb_data_warehouse.Draft.Tree.{IsTree-resequence_siblings, IsTree-set_node}
use arb_data_warehouse.Draft.Slugs.{clean_category_name}
use arb_data_warehouse.Draft.Edits.{
  DraftTables, EditResult, MapRow, carry_identity_mapping, checked_slug, choose_slug, cleaned_name,
  create_node, duplicate_node, given_slug, known_parent, name_required, node_key, node_row,
  unknown_category, update_node, value_or,
}
use arb_data_warehouse.Draft.Primaries.{OnePrimary, carry_identity_mapping-OnePrimary}

find_node-append :
    (k : ℕ) (nodes more : List Node) (n : Node)
    → find_node k nodes ≡ some n
    → find_node k (nodes ++ more) ≡ some n
unfolding find_node
find_node-append k [] more n h = absurd (cc)
find_node-append k (m ∷ ms) more n h = ground (arith, find_node-append k ms more n)

Rooted-append : (nodes more : List Node) (o : Option ℕ) → Rooted nodes o → Rooted (nodes ++ more) o
Rooted-append nodes more none at_root = at_root
Rooted-append nodes more (some k) (below k' n found r) =
    below k n (find_node-append k nodes more n found) (Rooted-append nodes more n.parent_id r)

All-Rooted-append :
    (nodes more ns : List Node)
    → All (λ (n : Node). Rooted nodes n.parent_id) ns
    → All (λ (n : Node). Rooted (nodes ++ more) n.parent_id) ns
All-Rooted-append nodes more [] h = tt
All-Rooted-append nodes more (n ∷ ns) h =
    (Rooted-append nodes more n.parent_id h.0, All-Rooted-append nodes more ns h.1)

find_node-Among :
    (k : ℕ) (nodes : List Node) (n : Node) → find_node k nodes ≡ some n → Among n nodes
unfolding find_node
find_node-Among k [] n h = absurd (cc)
find_node-Among k (m ∷ ms) n h = elim (Bool-cases (m.node_id == k)) [
  | inl e ↦ inl (ground arith)
  | inr e ↦ inr (find_node-Among k ms n (ground arith))
]

known_parent-Rooted :
    (nodes : List Node) (parent : Option ℕ)
    → IsTree nodes
    → known_parent nodes parent ≡ true
    → Rooted nodes parent
unfolding known_parent
known_parent-Rooted nodes none h known = at_root
known_parent-Rooted nodes (some k) h known = elim (Option-cases (find_node k nodes)) [
  | inl e ↦ absurd (ground arith)
  | inr (n, e) ↦ below k n e (
      All-Among-elim (λ (m : Node). Rooted nodes m.parent_id) n nodes h
        (find_node-Among k nodes n e))
]

abbrev pub HasTree : DraftTables → Type 0
HasTree t = IsTree t.nodes × OnePrimary t.slug_map

pub create_node-HasTree :
    (name_le : Text → Text → Bool) (unescape lower : Text → Text) (id : ℕ) (parent : Option ℕ)
    (name_text : Text) (slug_text : Option Text) (description : Text) (position : Option ℤ)
    (t : DraftTables)
    → HasTree t
    → Ensures HasTree
        (create_node name_le unescape lower id parent name_text slug_text description position t)
unfolding create_node
create_node-HasTree name_le unescape lower id parent name_text slug_text description position t h =
    let name : Text = clean_category_name unescape name_text in
    let chosen : EditResult Text = choose_slug unescape lower name (given_slug slug_text) t in
    Ensures-check HasTree (not (is_empty name)) name_required _ (λ named.
      Ensures-check HasTree (known_parent t.nodes parent) unknown_category _ (λ known.
        Ensures-bind HasTree (λ s. Unit) chosen _ (anything chosen)
          (λ slug u.
            Ensures-check HasTree (not (contains (map node_key t.nodes) id)) duplicate_node _
              (λ fresh.
                let row : Node = node_row id parent name slug description in
                let nodes : List Node = t.nodes ++ row ∷ [] in
                let hangs : Rooted nodes parent =
                  Rooted-append t.nodes (row ∷ []) parent
                    (known_parent-Rooted t.nodes parent h.0 known) in
                (
                  IsTree-resequence_siblings name_le nodes parent (some id) position (
                      All-append (λ (n : Node). Rooted nodes n.parent_id) t.nodes (row ∷ [])
                        (All-Rooted-append t.nodes (row ∷ []) t.nodes h.0) (hangs, tt)),
                  h.1,
                )))))

carried :
    (live : Text → Bool) (id : ℕ) (old_slug : Text) (same : Bool) (rows : List MapRow)
    → OnePrimary rows
    → OnePrimary (if same then rows else carry_identity_mapping live id old_slug rows)
carried live id old_slug true rows h = h
carried live id old_slug false rows h = carry_identity_mapping-OnePrimary live id old_slug rows h

pub update_node-HasTree :
    (unescape lower : Text → Text) (live : Text → Bool) (id : ℕ)
    (name slug description : Option Text) (t : DraftTables)
    → HasTree t
    → Ensures HasTree (update_node unescape lower live id name slug description t)
unfolding update_node
update_node-HasTree unescape lower live id name slug description t h =
    elim (Option-cases (find_node id t.nodes)) [
      | inl e ↦ rw (e, update_node) tt
      | inr (node, e) ↦
          rw (e, update_node)
            (Ensures-bind HasTree (λ n. Unit) (cleaned_name unescape name) _
              (anything (cleaned_name unescape name))
              (λ new_name u.
                Ensures-bind HasTree (λ s. Unit) (checked_slug lower node slug t) _
                  (anything (checked_slug lower node slug t))
                  (λ new_slug v. (
                    IsTree-set_node id _ t.nodes (λ n. refl) (λ n r. r) h.0,
                    carried live id node.slug (value_or new_slug node.slug == node.slug) t.slug_map
                        h.1,
                  ))))
    ]
