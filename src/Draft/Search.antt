-- ===== src/Draft/Search.antt =====
-- The search for a free web address always finds one (logo-admin/categories_draft.py: create_node).
use arb_data_warehouse.Outcomes.{Ensures-gives, gives}
use arb_data_warehouse.Prelude.{
  Bool, Bool-cases, List, Option-cases, Text, [], any_of, ap, arith, contains, contains-append,
  count_if, false, if◌then◌else◌, inl, inr, length, none, not, refl, some, suc, sym, text_beq_iff,
  true, zero, ℕ, ◌++◌, ◌+◌, ◌<◌, ◌==◌, ◌||◌, ◌∙◌, ◌∷◌, ◌≡◌, ◌≤◌, nat_eq, text_eq, pair_eq,
}
use arb_data_warehouse.Draft.Nodes.{Node}
use arb_data_warehouse.Draft.Slugs.{slugify}
use arb_data_warehouse.Draft.Edits.{
  DraftTables, Override, choose_slug, free_slug, has_slug, is_extra, is_extra_owner, is_node_owner,
  owners, slug_owner,
}
use arb_data_warehouse.Draft.Apart.{choose_slug-free, slugs_of}
use arb_data_warehouse.Draft.Suffixes.{suffixed, tried, untried}

extra_slugs : List Override → List Text
extra_slugs [] = []
extra_slugs (o ∷ os) =
    let rest = extra_slugs os in
    if is_extra o.kind then (elim o.slug [ none ↦ rest | some s ↦ s ∷ rest ]) else rest

abbrev owned : DraftTables → List Text
owned t = slugs_of t.nodes ++ extra_slugs t.overrides

nodes-owned :
    (s : Text) (nodes : List Node)
    → any_of (is_node_owner s none) nodes ≡ true
    → contains (slugs_of nodes) s ≡ true
unfolding any_of is_node_owner contains
nodes-owned s [] h = absurd (cc)
nodes-owned s (n ∷ ns) h =
    ground (arith, nodes-owned s ns, text_beq_iff s n.slug, text_beq_iff n.slug s)

extras-owned :
    (s : Text) (os : List Override)
    → any_of (is_extra_owner s) os ≡ true
    → contains (extra_slugs os) s ≡ true
unfolding any_of is_extra_owner contains extra_slugs
extras-owned s [] h = absurd (cc)
extras-owned s (o ∷ os) h = elim (Bool-cases (is_extra o.kind)) [
  | inl e ↦ elim (Option-cases o.slug) [
    | inl q ↦ rw (e, q) (extras-owned s os (ground (arith, ap (has_slug s) q)))
    | inr (x, q) ↦
        let either : (x == s || any_of (is_extra_owner s) os) ≡ true =
          ground (arith, ap (has_slug s) q) in
        rw (e, q) (ground (arith, extras-owned s os, text_beq_iff s x, text_beq_iff x s))
  ]
  | inr e ↦ rw e (extras-owned s os (ground arith))
]

slug_owner-owned :
    (s : Text) (t : DraftTables) → slug_owner s none t ≡ true → contains (owned t) s ≡ true
unfolding slug_owner
slug_owner-owned s t h = ground (
  arith,
  contains-append (slugs_of t.nodes) (extra_slugs t.overrides) s,
  nodes-owned s t.nodes,
  extras-owned s t.overrides,
)

not_tried : List Text → Text → Bool
not_tried tr s = not (contains tr s)

count-not_tried :
    (s : Text) (tr xs : List Text) → count_if (not_tried (s ∷ tr)) xs ≤ count_if (not_tried tr) xs
unfolding count_if not_tried contains
count-not_tried s tr [] = omega arith
count-not_tried s tr (x ∷ xs) = ground (arith, count-not_tried s tr xs)

-- An address that is owned and tried for the first time leaves fewer to try.
one_less :
    (s : Text) (tr xs : List Text)
    → contains xs s ≡ true
    → contains tr s ≡ false
    → count_if (not_tried (s ∷ tr)) xs < count_if (not_tried tr) xs
unfolding count_if not_tried contains
one_less s tr [] c new = absurd (cc)
one_less s tr (x ∷ xs) c new = elim (Bool-cases (s == x)) [
  | inl e ↦
      let same : contains tr x ≡ false = ap (contains tr) (sym ((text_beq_iff s x).0 e)) ∙ new in
      let back : (x == s) ≡ true = (text_beq_iff x s).1 (sym ((text_beq_iff s x).0 e)) in
      ground (arith, count-not_tried s tr xs)
  | inr e ↦ ground (arith, one_less s tr xs (ground arith) new)
]

finds :
    (fuel k : ℕ) (base : Text) (t : DraftTables)
    → count_if (not_tried (tried base k)) (owned t) < fuel
    → (slug : Text) × (free_slug fuel base (suc (suc (suc k))) (suffixed base (suc (suc k))) t
        ≡ gives slug)
unfolding free_slug tried
finds zero k base t h = absurd (omega arith)
finds (suc fuel) k base t h = elim (Bool-cases (slug_owner (suffixed base (suc (suc k))) none t)) [
  | inl e ↦
      let rest = finds fuel (suc k) base t (
        omega (
          arith,
          one_less (suffixed base (suc (suc k))) (tried base k) (owned t)
              (slug_owner-owned (suffixed base (suc (suc k))) t e) (untried base k k (omega arith)),
        )) in
      (rest.0, rw e rest.1)
  | inr e ↦ (suffixed base (suc (suc k)), rw e refl)
]

count-all : (xs : List Text) → count_if (not_tried []) xs ≡ length xs
unfolding count_if not_tried contains
count-all [] = refl
count-all (x ∷ xs) = omega (arith, count-all xs)

length-owned :
    (nodes : List Node) (os : List Override)
    → length (slugs_of nodes ++ extra_slugs os) ≤ length nodes + length os
unfolding extra_slugs
length-owned [] [] = omega arith
length-owned [] (o ∷ os) = elim (Bool-cases (is_extra o.kind)) [
  | inl e ↦ elim (Option-cases o.slug) [
    | inl q ↦ rw (e, q) (omega (arith, length-owned [] os))
    | inr (x, q) ↦ rw (e, q) (omega (arith, length-owned [] os))
  ]
  | inr e ↦ rw e (omega (arith, length-owned [] os))
]
length-owned (n ∷ ns) os = omega (arith, length-owned ns os)

-- For a category without a given web address the search ends with one, whatever the name and the draft:
-- the rounds that the model allows are enough.
pub choose_slug-finds :
    (unescape lower : Text → Text) (name : Text) (t : DraftTables)
    → (slug : Text) × (choose_slug unescape lower name none t ≡ gives slug)
      × (slug_owner slug none t ≡ false)
unfolding choose_slug free_slug tried contains
choose_slug-finds unescape lower name t =
    let base : Text = slugify unescape lower name in
    elim (Bool-cases (slug_owner base none t)) [
      | inl e ↦
          let rest = finds (owners t) 0 base t (
            omega (
              arith,
              one_less base [] (owned t) (slug_owner-owned base t e) refl,
              count-all (owned t),
              length-owned t.nodes t.overrides,
            )) in
          let found : choose_slug unescape lower name none t ≡ gives rest.0 =
            rw (choose_slug, e) rest.1 in
          (
            rest.0,
            found,
            Ensures-gives (λ s. slug_owner s none t ≡ false)
                (choose_slug unescape lower name none t) rest.0 found
                (choose_slug-free unescape lower name none t),
          )
      | inr e ↦ (base, rw (choose_slug, e) refl, e)
    ]
