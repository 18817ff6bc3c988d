-- ===== src/Planner/Dispositions/Laws.antt =====
-- Which disposition a slug gets (logo-admin/categories_planner.py: load_dispositions).
use mathlib.Core.Path.{subst}
use arb_data_warehouse.Prelude.{
  Among, Bool, Bool-cases, Dict, Distinct, List, Option-cases, Text, [], any_of, ap, arith,
  beq_refl, contains, false, has_key, inl, inr, insert, is_empty, lookup, lookup-insert, map, none,
  not, refl, some, sym, text_beq_iff, true, ℕ, ◌&&◌, ◌++◌, ◌==◌, ◌||◌, ◌∙◌, ◌∷◌, ◌≡◌, nat_eq,
  text_eq, pair_eq,
}
use arb_data_warehouse.Planner.Types.{Disposition, map_to}
use arb_data_warehouse.Planner.Dispositions.{
  SlugMapRow, add_custom, add_extras, add_node, add_nodes, explicit_from, explicit_primary_nodes,
  load_dispositions, primary_of,
}

abbrev pub row_slug : SlugMapRow → Text
row_slug r = r.old_slug

abbrev pub explicit_of : SlugMapRow → Disposition
explicit_of r = record { action = r.action; is_primary = r.is_primary; implicit = false }

abbrev pub node_slug : ℕ × Text → Text
node_slug e = e.1

explicit_from-other :
    (d : Dict Text Disposition) (rows : List SlugMapRow) (k : Text)
    → contains (map row_slug rows) k ≡ false
    → lookup k (explicit_from d rows) ≡ lookup k d
unfolding explicit_from contains
explicit_from-other d [] k h = refl
explicit_from-other d (r ∷ rows) k h =
    explicit_from-other (insert r.old_slug (explicit_of r) d) rows k (ground arith)
    ∙ lookup-insert r.old_slug k (explicit_of r) d
    ∙ ground (arith, text_beq_iff k r.old_slug, text_beq_iff r.old_slug k)

explicit_from-row :
    (d : Dict Text Disposition) (rows : List SlugMapRow) (r : SlugMapRow)
    → Distinct (map row_slug rows)
    → Among r rows
    → lookup r.old_slug (explicit_from d rows) ≡ some (explicit_of r)
unfolding explicit_from
explicit_from-row d [] r u m = absurd m
explicit_from-row d (x ∷ rows) r u (inl e) =
    ap (λ (v : SlugMapRow). lookup v.old_slug (explicit_from d (x ∷ rows))) e
    ∙ explicit_from-other (insert x.old_slug (explicit_of x) d) rows x.old_slug u.0
    ∙ lookup-insert x.old_slug x.old_slug (explicit_of x) d
    ∙ ground (arith, beq_refl x.old_slug, ap explicit_of e)
explicit_from-row d (x ∷ rows) r u (inr m) =
    explicit_from-row (insert x.old_slug (explicit_of x) d) rows r u.1 m

-- What is decided stays decided.
add_node-keeps :
    (primaries : List ℕ) (d : Dict Text Disposition) (n : ℕ) (slug k : Text) (v : Disposition)
    → lookup k d ≡ some v
    → lookup k (add_node primaries d n slug) ≡ some v
unfolding add_node has_key
add_node-keeps primaries d n slug k v h = elim (Option-cases (lookup slug d)) [
  | inr (w, e) ↦ rw (e, has_key) h
  | inl e ↦
      rw (e, has_key)
        (lookup-insert slug k _ d
          ∙ ground (arith, text_beq_iff slug k, ap (λ s. lookup s d) {x = slug} {y = k}))
]

add_nodes-keeps :
    (primaries : List ℕ) (d : Dict Text Disposition) (nodes : List (ℕ × Text)) (k : Text)
    (v : Disposition)
    → lookup k d ≡ some v
    → lookup k (add_nodes primaries d nodes) ≡ some v
unfolding add_nodes
add_nodes-keeps primaries d [] k v h = h
add_nodes-keeps primaries d ((n, slug) ∷ nodes) k v h =
    add_nodes-keeps primaries (add_node primaries d n slug) nodes k v
      (add_node-keeps primaries d n slug k v h)

add_custom-keeps :
    (d : Dict Text Disposition) (slug k : Text) (v : Disposition)
    → lookup k d ≡ some v
    → lookup k (add_custom d slug) ≡ some v
unfolding add_custom has_key
add_custom-keeps d slug k v h = elim (Bool-cases (is_empty slug)) [
  | inl b ↦ rw b h
  | inr b ↦ elim (Option-cases (lookup slug d)) [
    | inr (w, e) ↦ rw (b, e, has_key) h
    | inl e ↦
        rw (b, e, has_key)
          (lookup-insert slug k _ d
            ∙ ground (arith, text_beq_iff slug k, ap (λ s. lookup s d) {x = slug} {y = k}))
  ]
]

add_extras-keeps :
    (d : Dict Text Disposition) (extras : List (Text × Text)) (k : Text) (v : Disposition)
    → lookup k d ≡ some v
    → lookup k (add_extras d extras) ≡ some v
unfolding add_extras
add_extras-keeps d [] k v h = h
add_extras-keeps d ((s, q) ∷ extras) k v h =
    add_extras-keeps (add_custom (add_custom d s) q) extras k v
      (add_custom-keeps (add_custom d s) q k v (add_custom-keeps d s k v h))

-- An explicit row of slug_map decides its slug, whatever nodes and extras there are.
pub explicit_rows_win :
    (slug_map : List SlugMapRow) (nodes : List (ℕ × Text)) (extras : List (Text × Text))
    (r : SlugMapRow)
    → Distinct (map row_slug slug_map)
    → Among r slug_map
    → lookup r.old_slug (load_dispositions slug_map nodes extras) ≡ some (explicit_of r)
unfolding load_dispositions lookup
explicit_rows_win slug_map nodes extras r u m =
    add_extras-keeps (add_nodes (explicit_primary_nodes slug_map) (explicit_from [] slug_map) nodes)
      extras r.old_slug (explicit_of r)
      (add_nodes-keeps (explicit_primary_nodes slug_map) (explicit_from [] slug_map) nodes
        r.old_slug (explicit_of r) (explicit_from-row [] slug_map r u m))

abbrev pub implicit_of : List ℕ → ℕ → Disposition
implicit_of primaries n = record {
  action = map_to n;
  is_primary = not (contains primaries n);
  implicit = true;
}

add_node-new :
    (primaries : List ℕ) (d : Dict Text Disposition) (n : ℕ) (slug : Text)
    → lookup slug d ≡ none
    → lookup slug (add_node primaries d n slug) ≡ some (implicit_of primaries n)
unfolding add_node has_key
add_node-new primaries d n slug h =
    rw (h, has_key)
      (lookup-insert slug slug (implicit_of primaries n) d ∙ ground (arith, beq_refl slug))

add_node-other :
    (primaries : List ℕ) (d : Dict Text Disposition) (n : ℕ) (slug k : Text)
    → (slug == k) ≡ false
    → lookup k (add_node primaries d n slug) ≡ lookup k d
unfolding add_node
add_node-other primaries d n slug k h = elim (Bool-cases (has_key slug d)) [
  | inl e ↦ rw e
  | inr e ↦ rw e (lookup-insert slug k (implicit_of primaries n) d ∙ ground arith)
]

contains-node_slug :
    (n : ℕ) (slug : Text) (nodes : List (ℕ × Text))
    → Among (n, slug) nodes
    → contains (map node_slug nodes) slug ≡ true
unfolding contains
contains-node_slug n slug [] m = absurd m
contains-node_slug n slug (x ∷ xs) (inl e) =
    let same : slug ≡ x.1 = ap (λ (v : ℕ × Text). v.1) e in ground (arith, text_beq_iff slug x.1)
contains-node_slug n slug (x ∷ xs) (inr m) = ground (arith, contains-node_slug n slug xs m)

add_nodes-implicit :
    (primaries : List ℕ) (d : Dict Text Disposition) (nodes : List (ℕ × Text)) (n : ℕ) (slug : Text)
    → lookup slug d ≡ none
    → Distinct (map node_slug nodes)
    → Among (n, slug) nodes
    → lookup slug (add_nodes primaries d nodes) ≡ some (implicit_of primaries n)
unfolding add_nodes contains
add_nodes-implicit primaries d [] n slug h u m = absurd m
add_nodes-implicit primaries d ((k, s) ∷ nodes) n slug h u (inl e) =
    add_nodes-keeps primaries (add_node primaries d k s) nodes slug (implicit_of primaries n) (
      subst
        (λ (v : ℕ × Text). lookup v.1 (add_node primaries d k s) ≡ some (implicit_of primaries v.0))
        (sym e) (add_node-new primaries d k s (ap (λ (v : ℕ × Text). lookup v.1 d) (sym e) ∙ h)))
add_nodes-implicit primaries d ((k, s) ∷ nodes) n slug h u (inr m) =
    add_nodes-implicit primaries (add_node primaries d k s) nodes n slug
      (add_node-other primaries d k s slug (
          ground (
            arith,
            text_beq_iff s slug,
            u.0,
            contains-node_slug n slug nodes m,
            ap (contains (map node_slug nodes)) {x = s} {y = slug},
          ))
        ∙ h)
      u.1 m

-- The row maps its slug to the node, as the node's primary.
abbrev pub makes_primary : ℕ → SlugMapRow → Bool
makes_primary n r = elim r.action [ map_to k ↦ r.is_primary && n == k | _ ↦ false ]

contains-primary_of :
    (n : ℕ) (r : SlugMapRow) (rest : List ℕ)
    → contains (primary_of r.action r.is_primary ++ rest) n ≡ (makes_primary n r || contains rest n)
unfolding contains
contains-primary_of n r rest = elim (Bool-cases r.is_primary) [
  | inl e ↦ ground arith
  | inr e ↦ ground arith
]

contains-explicit_primary_nodes :
    (n : ℕ) (rows : List SlugMapRow)
    → contains (explicit_primary_nodes rows) n ≡ any_of (makes_primary n) rows
unfolding explicit_primary_nodes contains any_of
contains-explicit_primary_nodes n [] = refl
contains-explicit_primary_nodes n (r ∷ rows) =
    contains-primary_of n r (explicit_primary_nodes rows)
    ∙ ap (λ b. makes_primary n r || b) (contains-explicit_primary_nodes n rows)

-- A node's own slug maps to the node where no row of slug_map has the slug and node slugs are
-- distinct; the mapping is implicit, and it is the node's primary exactly if no row of slug_map
-- maps a slug to the node as its primary.
pub node_slugs_mapped :
    (slug_map : List SlugMapRow) (nodes : List (ℕ × Text)) (extras : List (Text × Text)) (n : ℕ)
    (slug : Text)
    → contains (map row_slug slug_map) slug ≡ false
    → Distinct (map node_slug nodes)
    → Among (n, slug) nodes
    → lookup slug (load_dispositions slug_map nodes extras)
      ≡ some (record {
        action = map_to n;
        is_primary = not (any_of (makes_primary n) slug_map);
        implicit = true;
      })
unfolding load_dispositions lookup
node_slugs_mapped slug_map nodes extras n slug free u m =
    let primaries = explicit_primary_nodes slug_map in
    let explicit : Dict Text Disposition = explicit_from [] slug_map in
    add_extras-keeps (add_nodes primaries explicit nodes) extras slug (implicit_of primaries n) (
      add_nodes-implicit primaries explicit nodes n slug (explicit_from-other [] slug_map slug free)
        u m)
    ∙ ap (λ b. some (record { action = map_to n; is_primary = not b; implicit = true }))
        (contains-explicit_primary_nodes n slug_map)
