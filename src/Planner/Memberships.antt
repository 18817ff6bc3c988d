-- ===== src/Planner/Memberships.antt =====
-- The membership rows of build_blog_plan (logo-admin/categories_planner.py).
pub mod Laws
use arb_data_warehouse.Prelude.{
  Bool, Dict, List, Option, Text, [], any_of, contains, has_key, if◌then◌else◌, is_empty, leb,
  lookup, none, not, set_add, set_eq, set_minus, set_union, some, sort_by, sorted_texts, ℕ, ◌&&◌,
  ◌||◌, ◌∷◌, nat_eq, text_eq, pair_eq,
}
use arb_data_warehouse.Planner.Types.{Desired}
use arb_data_warehouse.Planner.Terms.{PlanState}

-- A product of the snapshot, with the logical slugs and the ids of its terms.
pub record Product : Type 0 where
  pub product_id : ℕ
  pub sku : Text
  pub slugs : List Text
  pub term_ids : List ℕ

-- One node's rule matches, explicit adds and explicit removes.
pub record Buckets : Type 0 where
  pub rule : List Text
  pub add : List Text
  pub remove : List Text

pub record Membership : Type 0 where
  pub product_id : ℕ
  pub expected_sku : Text
  pub expected_term_ids : List ℕ
  pub final_slugs : List Text

pub record ZeroCategory : Type 0 where
  pub product_id : ℕ
  pub sku : Text
  pub key : Text

-- The final slugs that the buckets of the kept nodes add to a sku.
unfoldable pub sku_extra_add : Dict ℕ Desired → List (ℕ × Buckets) → Text → List Text
sku_extra_add kept [] sku = []
sku_extra_add kept ((n, b) ∷ rest) sku =
    let later = sku_extra_add kept rest sku in
    elim (lookup n kept) [
      | none ↦ later
      | some d ↦
          if contains (set_minus (set_union b.rule b.add) b.remove) sku
          then set_add later d.slug
          else later
    ]

-- The final slugs that they remove from it.
unfoldable pub sku_remove : Dict ℕ Desired → List (ℕ × Buckets) → Text → List Text
sku_remove kept [] sku = []
sku_remove kept ((n, b) ∷ rest) sku =
    let later = sku_remove kept rest sku in
    elim (lookup n kept) [
      | none ↦ later
      | some d ↦ if contains b.remove sku then set_add later d.slug else later
    ]

-- Where a slug of a product ends: kept under its final slug, or carried to a merge target.
unfoldable pub carried_slug : PlanState → Text → Option Text
carried_slug st slug = elim (lookup slug st.kept_current) [
  | some kept_slug ↦ some kept_slug
  | none ↦ elim (lookup slug st.merge_target_slug) [
    | some (some target_slug) ↦ if is_empty target_slug then none else some target_slug
    | _ ↦ none
  ]
]

abbrev pub add_option : Option Text → List Text → List Text
add_option none xs = xs
add_option (some s) xs = set_add xs s

unfoldable pub after_term_ops : PlanState → List Text → List Text
after_term_ops st [] = []
after_term_ops st (s ∷ slugs) = add_option (lookup s st.kept_current) (after_term_ops st slugs)

unfoldable pub carried_slugs : PlanState → List Text → List Text
carried_slugs st [] = []
carried_slugs st (s ∷ slugs) = add_option (carried_slug st s) (carried_slugs st slugs)

-- What the extra memberships of the blog say of one sku.
pub record SkuChange : Type 0 where
  pub extra_add : List Text
  pub removed : List Text

unfoldable pub sku_change : Dict ℕ Desired → List (ℕ × Buckets) → Text → SkuChange
sku_change kept memberships sku = record {
  extra_add = sku_extra_add kept memberships sku;
  removed = sku_remove kept memberships sku;
}

unfoldable pub final_slugs : PlanState → SkuChange → Product → List Text
final_slugs st ch p = set_minus (set_union (carried_slugs st p.slugs) ch.extra_add) ch.removed

unfoldable pub touches_doomed : PlanState → List Text → Bool
touches_doomed st slugs = any_of (λ s. has_key s st.merge_target_slug) slugs

-- `sku in sku_remove`: a sku has an entry exactly if some slug is removed from it.
unfoldable pub is_zero_category : PlanState → SkuChange → Product → Bool
is_zero_category st ch p =
    is_empty (final_slugs st ch p) && (not (is_empty p.slugs) || not (is_empty ch.removed))

unfoldable pub needs_row : PlanState → SkuChange → Product → Bool
needs_row st ch p =
    not (set_eq (final_slugs st ch p) (after_term_ops st p.slugs)) || touches_doomed st p.slugs

unfoldable pub row_of : PlanState → SkuChange → Product → Membership
row_of st ch p = record {
  product_id = p.product_id;
  expected_sku = p.sku;
  expected_term_ids = sort_by leb p.term_ids;
  final_slugs = sorted_texts (final_slugs st ch p);
}

-- The rows before their sort by product_id.
unfoldable pub rows_from : PlanState → (Text → SkuChange) → List Product → List Membership
rows_from st changes [] = []
rows_from st changes (p ∷ products) =
    let rest = rows_from st changes products in
    if needs_row st (changes p.sku) p then row_of st (changes p.sku) p ∷ rest else rest

unfoldable pub memberships_of : PlanState → (Text → SkuChange) → List Product → List Membership
memberships_of st changes products =
    sort_by (λ (a : Membership) (b : Membership). leb a.product_id b.product_id)
      (rows_from st changes products)
