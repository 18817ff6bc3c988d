-- ===== src/Draft/Primaries.antt =====
-- Re-slugging a category and its explicit mappings (logo-admin/categories_draft.py:
-- _carry_identity_mapping).
use arb_data_warehouse.Prelude.{
  Bool, Bool-cases, List, Option-cases, Text, [], any_of, ap, arith, beq_refl, count_if,
  count_if-append, false, inl, inr, nat_beq_iff, none, not, refl, some, sym, true, ℕ, ◌&&◌, ◌++◌,
  ◌+◌, ◌<◌, ◌==◌, ◌||◌, ◌∙◌, ◌∷◌, ◌≡◌, ◌≤◌, nat_eq, text_eq, pair_eq,
}
use arb_data_warehouse.Draft.Nodes.{same_parent}
use arb_data_warehouse.Draft.Edits.{
  MapRow, carried_row, carry_identity_mapping, demote, first_primary, is_primary_of, is_row_of,
}

-- No category has two primary mappings.
abbrev pub OnePrimary : List MapRow → Type 0
OnePrimary rows = (id : ℕ) → count_if (is_primary_of id) rows ≤ 1

no_primary :
    (id : ℕ) (rows : List MapRow)
    → first_primary id rows ≡ none
    → count_if (is_primary_of id) rows ≡ 0
unfolding first_primary count_if
no_primary id [] h = refl
no_primary id (m ∷ ms) h = ground (arith, no_primary id ms)

count-demote :
    (id : ℕ) (slug : Text) (rows : List MapRow)
    → count_if (is_primary_of id) (demote slug rows) ≤ count_if (is_primary_of id) rows
unfolding demote count_if is_primary_of
count-demote id slug [] = omega arith
count-demote id slug (m ∷ ms) = ground (arith, count-demote id slug ms)

-- Demoting the rows of a category's primary slug takes one primary away at least.
demoted_primary :
    (id : ℕ) (slug : Text) (rows : List MapRow)
    → first_primary id rows ≡ some slug
    → count_if (is_primary_of id) (demote slug rows) < count_if (is_primary_of id) rows
unfolding first_primary demote count_if is_primary_of is_row_of
demoted_primary id slug [] h = absurd (cc)
demoted_primary id slug (m ∷ ms) h =
    elim (Bool-cases (same_parent m.target_node_id (some id) && m.is_primary)) [
      | inl e ↦
          let row : (m.old_slug == slug) ≡ true =
            ground (arith, beq_refl slug, ap (λ s. s == slug)) in
          ground (arith, count-demote id slug ms)
      | inr e ↦ ground (arith, demoted_primary id slug ms (ground arith))
    ]

one_more :
    (k id : ℕ) (slug : Text) (primary : Bool) (rows : List MapRow)
    → count_if (is_primary_of k) rows ≤ 1
    → count_if (is_primary_of id) rows ≡ 0
    → count_if (is_primary_of k) (rows ++ carried_row id slug primary ∷ []) ≤ 1
unfolding count_if is_primary_of
one_more k id slug primary rows h free =
    let counts : count_if (is_primary_of k) (rows ++ carried_row id slug primary ∷ [])
        ≡ count_if (is_primary_of k) rows
          + count_if (is_primary_of k) (carried_row id slug primary ∷ []) =
      count_if-append (is_primary_of k) rows (carried_row id slug primary ∷ []) in
    elim (Bool-cases (id == k)) [
      | inl e ↦
          let none_yet : count_if (is_primary_of k) rows ≡ 0 =
            ap (λ i. count_if (is_primary_of i) rows) (sym ((nat_beq_iff id k).0 e)) ∙ free in
          ground arith
      | inr e ↦ ground arith
    ]

plain_row :
    (k id : ℕ) (slug : Text) (rows : List MapRow)
    → count_if (is_primary_of k) rows ≤ 1
    → count_if (is_primary_of k) (rows ++ carried_row id slug false ∷ []) ≤ 1
unfolding count_if is_primary_of
plain_row k id slug rows h =
    ground (arith, count_if-append (is_primary_of k) rows (carried_row id slug false ∷ []))

pub carry_identity_mapping-OnePrimary :
    (live : Text → Bool) (id : ℕ) (old_slug : Text) (rows : List MapRow)
    → OnePrimary rows
    → OnePrimary (carry_identity_mapping live id old_slug rows)
unfolding carry_identity_mapping count_if
carry_identity_mapping-OnePrimary live id old_slug rows h k =
    elim (Bool-cases (not (live old_slug) || any_of (is_row_of old_slug) rows)) [
      | inl e ↦ rw (e, carry_identity_mapping) (h k)
      | inr e ↦ elim (Option-cases (first_primary id rows)) [
        | inl q ↦
            rw (e, carry_identity_mapping, q)
              (one_more k id old_slug true rows (h k) (no_primary id rows q))
        | inr (primary, q) ↦ elim (Bool-cases (live primary)) [
          | inl lives ↦
              rw (e, carry_identity_mapping, q, lives) (plain_row k id old_slug rows (h k))
          | inr gone ↦
              rw (e, carry_identity_mapping, q, gone)
                (one_more k id old_slug true (demote primary rows)
                  (omega (arith, h k, count-demote k primary rows))
                  (omega (arith, h id, demoted_primary id primary rows q)))
        ]
      ]
    ]
