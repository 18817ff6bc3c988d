-- ===== src/Planner/Memberships/Laws.antt =====
-- Where products end (logo-admin/categories_planner.py).
use arb_data_warehouse.Prelude.{
  Among, Bool, Bool-cases, Dict, List, Option-cases, Text, [], any_of, any_of-sort_by, ap, arith,
  beq_refl, contains, contains-set_add, contains-set_minus, contains-set_union, false, has_key, inl,
  inr, is_empty, lookup, none, not, refl, set_union, some, sym, text_eq, true, ℕ, ◌&&◌, ◌==◌, ◌||◌,
  ◌∙◌, ◌∷◌, ◌≡◌, nat_eq, pair_eq,
}
use arb_data_warehouse.Planner.Types.{Desired}
use arb_data_warehouse.Planner.Terms.{PlanState}
use arb_data_warehouse.Planner.Memberships.{
  Buckets, Membership, Product, SkuChange, add_option, carried_slug, carried_slugs, final_slugs,
  memberships_of, needs_row, row_of, rows_from, sku_change, sku_extra_add, sku_remove,
  touches_doomed,
}

-- The product's slug is kept under the final slug, or no term keeps it and it is merged into it.
abbrev pub leads_to : PlanState → Text → Text → Bool
leads_to st final slug = elim (lookup slug st.kept_current) [
  | some s ↦ final == s
  | none ↦ elim (lookup slug st.merge_target_slug) [
    | some (some s) ↦ not (is_empty s) && final == s
    | _ ↦ false
  ]
]

-- The node is kept under the final slug.
abbrev pub ends_as : Dict ℕ Desired → Text → ℕ → Bool
ends_as kept final n = elim (lookup n kept) [ none ↦ false | some d ↦ final == d.slug ]

-- The buckets of a node that ends as the final slug name the sku, by rule or by hand, and do not
-- exclude it.
abbrev pub adds : Dict ℕ Desired → Text → Text → ℕ × Buckets → Bool
adds kept sku final e =
    ends_as kept final e.0
    && ((contains e.1.rule sku || contains e.1.add sku) && not (contains e.1.remove sku))

-- The buckets of a node that ends as the final slug exclude the sku.
abbrev pub excludes : Dict ℕ Desired → Text → Text → ℕ × Buckets → Bool
excludes kept sku final e = ends_as kept final e.0 && contains e.1.remove sku

contains-carried_slug :
    (st : PlanState) (final slug : Text) (later : List Text)
    → contains (add_option (carried_slug st slug) later) final
      ≡ (leads_to st final slug || contains later final)
unfolding carried_slug
contains-carried_slug st final slug later = elim (Option-cases (lookup slug st.kept_current)) [
  | inr (k, e) ↦ ground (arith, contains-set_add later k final)
  | inl e ↦ elim (Option-cases (lookup slug st.merge_target_slug)) [
    | inl n ↦ ground arith
    | inr (none, m) ↦ ground arith
    | inr (some s, m) ↦ elim (Bool-cases (is_empty s)) [
      | inl b ↦ ground arith
      | inr b ↦ ground (arith, contains-set_add later s final)
    ]
  ]
]

contains-carried_slugs :
    (st : PlanState) (final : Text) (slugs : List Text)
    → contains (carried_slugs st slugs) final ≡ any_of (leads_to st final) slugs
unfolding carried_slugs contains any_of
contains-carried_slugs st final [] = refl
contains-carried_slugs st final (s ∷ slugs) =
    contains-carried_slug st final s (carried_slugs st slugs)
    ∙ ap (λ b. leads_to st final s || b) (contains-carried_slugs st final slugs)

contains-sku_extra_add :
    (kept : Dict ℕ Desired) (buckets : List (ℕ × Buckets)) (sku final : Text)
    → contains (sku_extra_add kept buckets sku) final ≡ any_of (adds kept sku final) buckets
unfolding sku_extra_add contains any_of
contains-sku_extra_add kept [] sku final = refl
contains-sku_extra_add kept ((n, b) ∷ rest) sku final = elim (Option-cases (lookup n kept)) [
  | inl e ↦ ground (arith, contains-sku_extra_add kept rest sku final)
  | inr (d, e) ↦ ground (
    arith,
    contains-sku_extra_add kept rest sku final,
    contains-set_add (sku_extra_add kept rest sku) d.slug final,
    contains-set_minus (set_union b.rule b.add) b.remove sku,
    contains-set_union b.rule b.add sku,
  )
]

contains-sku_remove :
    (kept : Dict ℕ Desired) (buckets : List (ℕ × Buckets)) (sku final : Text)
    → contains (sku_remove kept buckets sku) final ≡ any_of (excludes kept sku final) buckets
unfolding sku_remove contains any_of
contains-sku_remove kept [] sku final = refl
contains-sku_remove kept ((n, b) ∷ rest) sku final = elim (Option-cases (lookup n kept)) [
  | inl e ↦ ground (arith, contains-sku_remove kept rest sku final)
  | inr (d, e) ↦ ground (
    arith,
    contains-sku_remove kept rest sku final,
    contains-set_add (sku_remove kept rest sku) d.slug final,
  )
]

-- The slugs computed for a product have a final slug exactly if one of the product's slugs is kept
-- under it, or is kept by no term and is merged into it, or the buckets of a node that is kept under
-- it name the sku without excluding it; and no buckets of such a node exclude the sku.
pub final_slugs_exact :
    (st : PlanState) (kept : Dict ℕ Desired) (buckets : List (ℕ × Buckets)) (p : Product)
    (final : Text)
    → contains (final_slugs st (sku_change kept buckets p.sku) p) final ≡ (
        (any_of (leads_to st final) p.slugs || any_of (adds kept p.sku final) buckets)
        && not (any_of (excludes kept p.sku final) buckets))
unfolding final_slugs sku_change
final_slugs_exact st kept buckets p final = rw (
  contains-set_minus, contains-set_union, contains-carried_slugs, contains-sku_extra_add,
  contains-sku_remove,
)

abbrev pub row_for : ℕ → Membership → Bool
row_for id m = m.product_id == id

touches_doomed-contains :
    (st : PlanState) (slug : Text) (slugs : List Text)
    → has_key slug st.merge_target_slug ≡ true
    → contains slugs slug ≡ true
    → touches_doomed st slugs ≡ true
unfolding touches_doomed contains any_of
touches_doomed-contains st slug [] k h = absurd (cc)
touches_doomed-contains st slug (s ∷ slugs) k h =
    ground (arith, touches_doomed-contains st slug slugs k, text_eq.same_iff slug s)

any_row-rows_from :
    (st : PlanState) (changes : Text → SkuChange) (p : Product) (products : List Product)
    → Among p products
    → needs_row st (changes p.sku) p ≡ true
    → any_of (row_for p.product_id) (rows_from st changes products) ≡ true
unfolding rows_from any_of row_of
any_row-rows_from st changes p [] a h = absurd a
any_row-rows_from st changes p (q ∷ products) (inl e) h =
    let n : needs_row st (changes q.sku) q ≡ true =
      sym (ap (λ r. needs_row st (changes r.sku) r) e) ∙ h in
    rw n (ground (arith, ap (λ (r : Product). r.product_id) e, beq_refl p.product_id))
any_row-rows_from st changes p (q ∷ products) (inr a) h =
    elim (Bool-cases (needs_row st (changes q.sku) q)) [
      | inl n ↦ rw n (ground (arith, any_row-rows_from st changes p products a h))
      | inr n ↦ rw n (any_row-rows_from st changes p products a h)
    ]

-- A product on a doomed slug has a membership row.
pub doomed_product_has_row :
    (st : PlanState) (changes : Text → SkuChange) (p : Product) (products : List Product)
    (slug : Text)
    → Among p products
    → contains p.slugs slug ≡ true
    → has_key slug st.merge_target_slug ≡ true
    → any_of (row_for p.product_id) (memberships_of st changes products) ≡ true
unfolding memberships_of needs_row
doomed_product_has_row st changes p products slug a h k =
    any_of-sort_by _ (row_for p.product_id) (rows_from st changes products)
    ∙ any_row-rows_from st changes p products a
        (unfold needs_row in ground (arith, touches_doomed-contains st slug p.slugs k h))
