-- ===== src/Draft/Kept.antt =====
-- Creating, changing and moving categories keep web addresses apart
-- (logo-admin/categories_draft.py: create_node, update_node, move_node).
use mathlib.Core.Path.{subst}
use arb_data_warehouse.Outcomes.{Ensures, Ensures-bind, Ensures-check, anything}
use arb_data_warehouse.Prelude.{
  All, Bool, Bool-cases, Distinct, List, Option, Option-cases, Text, [], any_of, arith, contains,
  false, inl, inr, is_empty, map, none, not, refl, some, sym, text_beq_iff, true, ℕ, ℤ, ◌++◌, ◌==◌,
  ◌||◌, ◌∙◌, ◌∷◌, ◌≡◌, ◌⊎◌, nat_eq, text_eq, pair_eq,
}
use arb_data_warehouse.Draft.Nodes.{
  DraftRefusal, DraftResult, Node, accepted, find_node, rejected, resequence_siblings, same_parent,
  set_node,
}
use arb_data_warehouse.Draft.Moves.{assert_movable, move_node, place_node, reparent}
use arb_data_warehouse.Draft.Slugs.{clean_category_name}
use arb_data_warehouse.Draft.Edits.{
  DraftTables, EditResult, MapRow, checked_slug, choose_slug, cleaned_name, create_node,
  duplicate_node, given_slug, is_node_owner, known_parent, name_required, node_key, node_row,
  slug_owner, slug_taken, unknown_category, update_node, validate_slug, value_or,
}
use arb_data_warehouse.Draft.Tree.{find_node-id}
use arb_data_warehouse.Draft.Apart.{
  IsApart, IsFreeOfExtras, appended-IsApart, choose_slug-free, map-resequence_siblings,
  map-set_node, same-IsApart, slugs_of,
}
use arb_data_warehouse.Draft.Renames.{
  All-set_slug, Distinct-set_slug, found_listed, own_slug, set_slug,
}

pub create_node-IsApart :
    (name_le : Text → Text → Bool) (unescape lower : Text → Text) (id : ℕ) (parent : Option ℕ)
    (name_text : Text) (slug_text : Option Text) (description : Text) (position : Option ℤ)
    (t : DraftTables)
    → IsApart t
    → Ensures IsApart
        (create_node name_le unescape lower id parent name_text slug_text description position t)
unfolding create_node
create_node-IsApart name_le unescape lower id parent name_text slug_text description position t h =
    let name : Text = clean_category_name unescape name_text in
    let chosen : EditResult Text = choose_slug unescape lower name (given_slug slug_text) t in
    Ensures-check IsApart (not (is_empty name)) name_required _ (λ named.
      Ensures-check IsApart (known_parent t.nodes parent) unknown_category _ (λ known.
        Ensures-bind IsApart (λ s. slug_owner s none t ≡ false) chosen _
          (choose_slug-free unescape lower name (given_slug slug_text) t)
          (λ slug free.
            Ensures-check IsApart (not (contains (map node_key t.nodes) id)) duplicate_node _
              (λ fresh.
                let row : Node = node_row id parent name slug description in
                let nodes : List Node = t.nodes ++ row ∷ [] in
                same-IsApart (record t { nodes = nodes })
                  (resequence_siblings name_le nodes parent (some id) position)
                  (map-resequence_siblings node_key name_le nodes parent (some id) position
                    (λ n k. refl))
                  (map-resequence_siblings (λ (n : Node). n.slug) name_le nodes parent (some id)
                    position (λ n k. refl))
                  (appended-IsApart t row h free (ground arith))))))

map-set_node_same :
    {B : Type 0} (key : Node → B) (id : ℕ) (f g : Node → Node) (nodes : List Node)
    → ((n : Node) → key (f n) ≡ key (g n))
    → map key (set_node id f nodes) ≡ map key (set_node id g nodes)
unfolding set_node
map-set_node_same key id f g [] same = refl
map-set_node_same key id f g (n ∷ ns) same = elim (Bool-cases (n.node_id == id)) [
  | inl e ↦ rw (e, same n, map-set_node_same key id f g ns same)
  | inr e ↦ rw (e, map-set_node_same key id f g ns same)
]

-- A write of a slug that no other category and no extra has.
rewritten-IsApart :
    (t : DraftTables) (id : ℕ) (f : Node → Node) (slug : Text) (rows : List MapRow)
    → IsApart t
    → ((n : Node) → (f n).node_id ≡ n.node_id)
    → ((n : Node) → (f n).slug ≡ slug)
    → any_of (is_node_owner slug (some id)) t.nodes ≡ false
    → IsFreeOfExtras t.overrides slug
    → IsApart (record t { nodes = set_node id f t.nodes; slug_map = rows })
rewritten-IsApart t id f slug rows h same_id new_slug free no_extra =
    let same : slugs_of (set_node id f t.nodes) ≡ slugs_of (set_slug id slug t.nodes) =
      map-set_node_same (λ (n : Node). n.slug) id f (λ n. record n { slug = slug }) t.nodes
        new_slug in
    record {
      ids = subst Distinct (sym (map-set_node node_key id f t.nodes same_id)) h.ids;
      slugs = subst Distinct (sym same) (Distinct-set_slug id slug t.nodes h.ids h.slugs free);
      extras =
          subst (All (IsFreeOfExtras t.overrides)) (sym same)
            (All-set_slug (IsFreeOfExtras t.overrides) id slug t.nodes h.extras no_extra);
      override_ids = h.override_ids;
    }

-- What is known of the slug that an update writes.
abbrev MayTake : DraftTables → ℕ → Text → Type 0
MayTake t id slug =
    (any_of (is_node_owner slug (some id)) t.nodes ≡ false) × IsFreeOfExtras t.overrides slug

All-contains :
    (P : Text → Type 0) (s : Text) (xs : List Text) → All P xs → contains xs s ≡ true → P s
unfolding contains
All-contains P s [] h c = absurd (cc)
All-contains P s (x ∷ xs) h c = elim (Bool-cases (s == x)) [
  | inl e ↦ subst P (sym ((text_beq_iff s x).0 e)) h.0
  | inr e ↦ All-contains P s xs h.1 (ground arith)
]

own-MayTake :
    (t : DraftTables) (id : ℕ) (node : Node)
    → IsApart t
    → find_node id t.nodes ≡ some node
    → MayTake t id node.slug
own-MayTake t id node h found = (
  own_slug id node t.nodes h.ids h.slugs found,
  All-contains (IsFreeOfExtras t.overrides) node.slug (slugs_of t.nodes) h.extras
      (found_listed id node t.nodes found),
)

checked_slug-MayTake :
    (lower : Text → Text) (t : DraftTables) (id : ℕ) (node : Node) (given : Option Text)
    → IsApart t
    → find_node id t.nodes ≡ some node
    → node.node_id ≡ id
    → Ensures (λ s. MayTake t id (value_or s node.slug)) (checked_slug lower node given t)
unfolding checked_slug slug_owner
checked_slug-MayTake lower t id node none h found key = own-MayTake t id node h found
checked_slug-MayTake lower t id node (some given) h found key =
    let P : Option Text → Type 0 = λ s. MayTake t id (value_or s node.slug) in
    Ensures-bind P (λ s. Unit) (validate_slug lower given) _ (anything (validate_slug lower given))
      (λ slug u.
        Ensures-check P (slug == node.slug || not (slug_owner slug (some node.node_id) t))
          slug_taken _
          (λ free. elim (Bool-cases (slug == node.slug)) [
            | inl e ↦
                subst (MayTake t id) (sym ((text_beq_iff slug node.slug).0 e))
                  (own-MayTake t id node h found)
            | inr e ↦ subst (λ k. MayTake t k slug) key (ground arith, ground arith)
          ]))

pub update_node-IsApart :
    (unescape lower : Text → Text) (live : Text → Bool) (id : ℕ)
    (name slug description : Option Text) (t : DraftTables)
    → IsApart t
    → Ensures IsApart (update_node unescape lower live id name slug description t)
unfolding update_node
update_node-IsApart unescape lower live id name slug description t h =
    elim (Option-cases (find_node id t.nodes)) [
      | inl e ↦ rw (e, update_node) tt
      | inr (node, e) ↦
          rw (e, update_node)
            (Ensures-bind IsApart (λ n. Unit) (cleaned_name unescape name) _
              (anything (cleaned_name unescape name))
              (λ new_name u.
                Ensures-bind IsApart (λ s. MayTake t id (value_or s node.slug))
                  (checked_slug lower node slug t) _
                  (checked_slug-MayTake lower t id node slug h e (find_node-id id t.nodes node e))
                  (λ new_slug may.
                    rewritten-IsApart t id _ (value_or new_slug node.slug) _ h (λ n. refl)
                      (λ n. refl) may.0 may.1)))
    ]

DraftResult-cases :
    {A : Type 0} (r : DraftResult A)
    → ((e : DraftRefusal) × (r ≡ rejected e)) ⊎ ((a : A) × (r ≡ accepted a))
DraftResult-cases (rejected e) = inl (e, refl)
DraftResult-cases (accepted a) = inr (a, refl)

place_node-key :
    {B : Type 0} (key : Node → B) (name_le : Text → Text → Bool) (nodes : List Node) (node : Node)
    (parent : Option ℕ) (position : Option ℤ)
    → ((n : Node) (k : ℕ) → key (record n { sort_order = k }) ≡ key n)
    → ((n : Node) → key (record n { parent_id = parent }) ≡ key n)
    → map key (place_node name_le nodes node parent position) ≡ map key nodes
unfolding place_node
place_node-key key name_le nodes node parent position kept moved =
    let hung : List Node = reparent node.node_id parent nodes in
    let placed : List Node = resequence_siblings name_le hung parent (some node.node_id) position in
    let same : map key placed ≡ map key nodes =
      map-resequence_siblings key name_le hung parent (some node.node_id) position kept
      ∙ map-set_node key node.node_id (λ n. record n { parent_id = parent }) nodes moved in
    elim (Bool-cases (same_parent node.parent_id parent)) [
      | inl e ↦ rw e same
      | inr e ↦
          rw e (map-resequence_siblings key name_le placed node.parent_id none none kept ∙ same)
    ]

pub move_node-IsApart :
    (name_le : Text → Text → Bool) (t : DraftTables) (nodes : List Node) (id : ℕ)
    (parent : Option ℕ) (position : Option ℤ)
    → IsApart t
    → move_node name_le t.nodes id parent position ≡ accepted nodes
    → IsApart (record t { nodes = nodes })
unfolding move_node
move_node-IsApart name_le t nodes id parent position h gave =
    elim (Option-cases (find_node id t.nodes)) [
      | inl e ↦ absurd (ground arith)
      | inr (node, e) ↦ elim (DraftResult-cases (assert_movable t.nodes id parent)) [
        | inl (why, q) ↦ absurd (ground arith)
        | inr (u, q) ↦
            let placed : place_node name_le t.nodes node parent position ≡ nodes = ground arith in
            subst (λ ns. IsApart (record t { nodes = ns })) placed
              (same-IsApart t (place_node name_le t.nodes node parent position)
                (place_node-key node_key name_le t.nodes node parent position (λ n k. refl)
                  (λ n. refl))
                (place_node-key (λ (n : Node). n.slug) name_le t.nodes node parent position
                  (λ n k. refl) (λ n. refl))
                h)
      ]
    ]
