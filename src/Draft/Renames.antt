-- ===== src/Draft/Renames.antt =====
-- What a new slug of a category does to the slugs of the draft (logo-admin/categories_draft.py:
-- update_node).
use arb_data_warehouse.Prelude.{
  All, Bool-cases, Distinct, List, Option, Text, [], any_of, ap, arith, contains, false, inl, inr,
  map, nat_beq_iff, refl, some, sym, text_beq_iff, true, ℕ, ◌==◌, ◌∙◌, ◌∷◌, ◌≡◌, nat_eq, text_eq,
  pair_eq,
}
use arb_data_warehouse.Draft.Nodes.{Node, find_node, set_node}
use arb_data_warehouse.Draft.Edits.{is_node_owner, node_key}
use arb_data_warehouse.Draft.Apart.{slugs_of}

abbrev pub set_slug : ℕ → Text → List Node → List Node
set_slug id slug = set_node id (λ n. record n { slug = slug })

set_slug-absent :
    (id : ℕ) (slug : Text) (nodes : List Node)
    → contains (map node_key nodes) id ≡ false
    → slugs_of (set_slug id slug nodes) ≡ slugs_of nodes
unfolding set_node contains
set_slug-absent id slug [] h = refl
set_slug-absent id slug (n ∷ ns) h =
    let off : (n.node_id == id) ≡ false =
      ground (arith, nat_beq_iff n.node_id id, nat_beq_iff id n.node_id) in
    rw (off, set_slug-absent id slug ns (ground arith))

no_other :
    (id : ℕ) (slug : Text) (nodes : List Node)
    → contains (map node_key nodes) id ≡ false
    → any_of (is_node_owner slug (some id)) nodes ≡ false
    → contains (slugs_of nodes) slug ≡ false
unfolding any_of is_node_owner contains
no_other id slug [] h o = refl
no_other id slug (n ∷ ns) h o = ground (
  arith,
  no_other id slug ns,
  text_beq_iff slug n.slug,
  text_beq_iff n.slug slug,
  nat_beq_iff id n.node_id,
  nat_beq_iff n.node_id id,
)

contains-set_slug :
    (id : ℕ) (slug s : Text) (nodes : List Node)
    → contains (slugs_of nodes) s ≡ false
    → (s == slug) ≡ false
    → contains (slugs_of (set_slug id slug nodes)) s ≡ false
unfolding set_node contains
contains-set_slug id slug s [] h o = refl
contains-set_slug id slug s (n ∷ ns) h o = elim (Bool-cases (n.node_id == id)) [
  | inl e ↦ rw e (ground (arith, contains-set_slug id slug s ns))
  | inr e ↦ rw e (ground (arith, contains-set_slug id slug s ns))
]

pub Distinct-set_slug :
    (id : ℕ) (slug : Text) (nodes : List Node)
    → Distinct (map node_key nodes)
    → Distinct (slugs_of nodes)
    → any_of (is_node_owner slug (some id)) nodes ≡ false
    → Distinct (slugs_of (set_slug id slug nodes))
unfolding set_node any_of is_node_owner
Distinct-set_slug id slug [] ids d o = tt
Distinct-set_slug id slug (n ∷ ns) ids d o = elim (Bool-cases (n.node_id == id)) [
  | inl e ↦
      let absent : contains (map node_key ns) id ≡ false =
        ap (contains (map node_key ns)) (sym ((nat_beq_iff n.node_id id).0 e)) ∙ ids.0 in
      rw (e, set_slug-absent id slug ns absent) (no_other id slug ns absent (ground arith), d.1)
  | inr e ↦ rw e (
    contains-set_slug id slug n.slug ns d.0
        (ground (arith, nat_beq_iff id n.node_id, nat_beq_iff n.node_id id)),
    Distinct-set_slug id slug ns ids.1 d.1 (ground arith),
  )
]

pub All-set_slug :
    (P : Text → Type 0) (id : ℕ) (slug : Text) (nodes : List Node)
    → All P (slugs_of nodes)
    → P slug
    → All P (slugs_of (set_slug id slug nodes))
unfolding set_node
All-set_slug P id slug [] h p = tt
All-set_slug P id slug (n ∷ ns) h p = elim (Bool-cases (n.node_id == id)) [
  | inl e ↦ rw e (p, All-set_slug P id slug ns h.1 p)
  | inr e ↦ rw e (h.0, All-set_slug P id slug ns h.1 p)
]

not_listed :
    (slug : Text) (excluded : Option ℕ) (nodes : List Node)
    → contains (slugs_of nodes) slug ≡ false
    → any_of (is_node_owner slug excluded) nodes ≡ false
unfolding any_of is_node_owner contains
not_listed slug excluded [] h = refl
not_listed slug excluded (n ∷ ns) h =
    ground (arith, not_listed slug excluded ns, text_beq_iff slug n.slug, text_beq_iff n.slug slug)

pub found_listed :
    (id : ℕ) (node : Node) (nodes : List Node)
    → find_node id nodes ≡ some node
    → contains (slugs_of nodes) node.slug ≡ true
unfolding find_node contains
found_listed id node [] found = absurd (cc)
found_listed id node (n ∷ ns) found = elim (Bool-cases (n.node_id == id)) [
  | inl e ↦
      let same : n ≡ node = ground arith in
      ground (arith, text_beq_iff node.slug n.slug, ap (λ (m : Node). m.slug) same)
  | inr e ↦ ground (arith, found_listed id node ns)
]

-- A category's own slug has no other owner.
pub own_slug :
    (id : ℕ) (node : Node) (nodes : List Node)
    → Distinct (map node_key nodes)
    → Distinct (slugs_of nodes)
    → find_node id nodes ≡ some node
    → any_of (is_node_owner node.slug (some id)) nodes ≡ false
unfolding any_of is_node_owner find_node contains
own_slug id node [] ids d found = absurd (cc)
own_slug id node (n ∷ ns) ids d found = elim (Bool-cases (n.node_id == id)) [
  | inl e ↦
      let same : n ≡ node = ground arith in
      let rest : any_of (is_node_owner node.slug (some id)) ns ≡ false =
        not_listed node.slug (some id) ns
          (ap (λ (m : Node). contains (slugs_of ns) m.slug) (sym same) ∙ d.0) in
      ground (arith, nat_beq_iff id n.node_id, nat_beq_iff n.node_id id)
  | inr e ↦
      let rest : any_of (is_node_owner node.slug (some id)) ns ≡ false =
        own_slug id node ns ids.1 d.1 (ground arith) in
      let listed : contains (slugs_of ns) node.slug ≡ true =
        found_listed id node ns (ground arith) in
      ground (arith, text_beq_iff n.slug node.slug, ap (contains (slugs_of ns)))
]
