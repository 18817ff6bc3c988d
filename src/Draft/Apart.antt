-- ===== src/Draft/Apart.antt =====
-- Web addresses in the draft have one owner (logo-admin/categories_draft.py: create_node, update_node).
use mathlib.Core.Path.{subst}
use arb_data_warehouse.Planner.Names.{decimal}
use arb_data_warehouse.Outcomes.{Ensures, Ensures-bind, Ensures-check, anything}
use arb_data_warehouse.Prelude.{
  All, All-append, Bool, Bool-cases, Distinct, Distinct-append_one, List, Option, Text, [], any_of,
  ap, arith, contains, false, inl, inr, map, none, not, refl, some, suc, sym, text_beq_iff, zero, ℕ,
  ℤ, ◌++◌, ◌+◌, ◌==◌, ◌∙◌, ◌∷◌, ◌≡◌, nat_eq, text_eq, pair_eq,
}
use arb_data_warehouse.Draft.Nodes.{Node, renumber, resequence_siblings, set_node, siblings_of}
use arb_data_warehouse.Draft.Slugs.{slugify}
use arb_data_warehouse.Draft.Edits.{
  DraftTables, Override, choose_slug, free_slug, is_extra_owner, is_node_owner, node_key,
  override_key, owners, slug_owner, slug_taken, validate_slug,
}

abbrev pub slugs_of : List Node → List Text
slugs_of nodes = map (λ (n : Node). n.slug) nodes

abbrev pub IsFreeOfExtras : List Override → Text → Type 0
IsFreeOfExtras overrides slug = any_of (is_extra_owner slug) overrides ≡ false

-- No two categories have one id or one slug, no two overrides one id, and no store extra has the slug of a category.
pub record IsApart (t : DraftTables) : Type 0 where
  pub ids : Distinct (map node_key t.nodes)
  pub slugs : Distinct (slugs_of t.nodes)
  pub extras : All (IsFreeOfExtras t.overrides) (slugs_of t.nodes)
  pub override_ids : Distinct (map override_key t.overrides)

pub map-set_node :
    {B : Type 0} (key : Node → B) (id : ℕ) (f : Node → Node) (nodes : List Node)
    → ((n : Node) → key (f n) ≡ key n)
    → map key (set_node id f nodes) ≡ map key nodes
unfolding set_node
map-set_node key id f [] kept = refl
map-set_node key id f (n ∷ ns) kept = elim (Bool-cases (n.node_id == id)) [
  | inl e ↦ rw (e, kept n, map-set_node key id f ns kept)
  | inr e ↦ rw (e, map-set_node key id f ns kept)
]

map-renumber :
    {B : Type 0} (key : Node → B) (order : ℕ) (ids : List (Option ℕ)) (nodes : List Node)
    → ((n : Node) (k : ℕ) → key (record n { sort_order = k }) ≡ key n)
    → map key (renumber order ids nodes) ≡ map key nodes
unfolding renumber
map-renumber key order [] nodes kept = refl
map-renumber key order (none ∷ ids) nodes kept = map-renumber key (order + 10) ids nodes kept
map-renumber key order (some id ∷ ids) nodes kept =
    map-renumber key (order + 10) ids (set_node id (λ n. record n { sort_order = order }) nodes)
      kept
    ∙ map-set_node key id (λ n. record n { sort_order = order }) nodes (λ n. kept n order)

pub map-resequence_siblings :
    {B : Type 0} (key : Node → B) (name_le : Text → Text → Bool) (nodes : List Node)
    (parent moved : Option ℕ) (position : Option ℤ)
    → ((n : Node) (k : ℕ) → key (record n { sort_order = k }) ≡ key n)
    → map key (resequence_siblings name_le nodes parent moved position) ≡ map key nodes
unfolding resequence_siblings
map-resequence_siblings key name_le nodes parent moved position kept =
    map-renumber key 10 (siblings_of name_le nodes parent moved position) nodes kept

map-append_one :
    {B : Type 0} (key : Node → B) (nodes : List Node) (n : Node)
    → map key (nodes ++ n ∷ []) ≡ map key nodes ++ key n ∷ []
map-append_one key [] n = refl
map-append_one key (m ∷ ms) n = ap (λ l. key m ∷ l) (map-append_one key ms n)

pub no_owner :
    (slug : Text) (nodes : List Node)
    → any_of (is_node_owner slug none) nodes ≡ false
    → contains (slugs_of nodes) slug ≡ false
unfolding any_of is_node_owner contains
no_owner slug [] h = refl
no_owner slug (n ∷ ns) h =
    ground (arith, no_owner slug ns, text_beq_iff slug n.slug, text_beq_iff n.slug slug)

-- The new row of a creation, before the siblings are put in order.
pub appended-IsApart :
    (t : DraftTables) (n : Node)
    → IsApart t
    → slug_owner n.slug none t ≡ false
    → contains (map node_key t.nodes) n.node_id ≡ false
    → IsApart (record t { nodes = t.nodes ++ n ∷ [] })
unfolding slug_owner
appended-IsApart t n h free fresh = record {
  ids =
      subst Distinct (sym (map-append_one node_key t.nodes n))
        (Distinct-append_one (map node_key t.nodes) n.node_id h.ids fresh);
  slugs = subst Distinct (sym (map-append_one (λ (m : Node). m.slug) t.nodes n)) (
      Distinct-append_one (slugs_of t.nodes) n.slug h.slugs
        (no_owner n.slug t.nodes (ground arith)));
  extras =
      subst (All (IsFreeOfExtras t.overrides))
        (sym (map-append_one (λ (m : Node). m.slug) t.nodes n))
        (All-append (IsFreeOfExtras t.overrides) (slugs_of t.nodes) (n.slug ∷ []) h.extras
          (ground arith, tt));
  override_ids = h.override_ids;
}

-- New rows with the ids and the slugs of the old ones.
pub same-IsApart :
    (t : DraftTables) (nodes : List Node)
    → map node_key nodes ≡ map node_key t.nodes
    → slugs_of nodes ≡ slugs_of t.nodes
    → IsApart t
    → IsApart (record t { nodes = nodes })
same-IsApart t nodes same_ids same_slugs h = record {
  ids = subst Distinct (sym same_ids) h.ids;
  slugs = subst Distinct (sym same_slugs) h.slugs;
  extras = subst (All (IsFreeOfExtras t.overrides)) (sym same_slugs) h.extras;
  override_ids = h.override_ids;
}

-- A slug that the loop comes up with has no owner.
free_slug-free :
    (fuel : ℕ) (base : Text) (suffix : ℕ) (slug : Text) (t : DraftTables)
    → Ensures (λ s. slug_owner s none t ≡ false) (free_slug fuel base suffix slug t)
unfolding free_slug
free_slug-free zero base suffix slug t = tt
free_slug-free (suc fuel) base suffix slug t = elim (Bool-cases (slug_owner slug none t)) [
  | inl e ↦ rw e (free_slug-free fuel base (suc suffix) (base ++ b'-' ∷ decimal suffix) t)
  | inr e ↦ rw e e
]

pub choose_slug-free :
    (unescape lower : Text → Text) (name : Text) (given : Option Text) (t : DraftTables)
    → Ensures (λ s. slug_owner s none t ≡ false) (choose_slug unescape lower name given t)
unfolding choose_slug
choose_slug-free unescape lower name none t =
    free_slug-free (suc (owners t)) (slugify unescape lower name) 2 (slugify unescape lower name) t
choose_slug-free unescape lower name (some given) t =
    let P : Text → Type 0 = λ s. slug_owner s none t ≡ false in
    Ensures-bind P (λ s. Unit) (validate_slug lower given) _ (anything (validate_slug lower given))
      (λ slug u. Ensures-check P (not (slug_owner slug none t)) slug_taken _ (λ free. ground arith))
