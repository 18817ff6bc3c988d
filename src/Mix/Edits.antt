-- ===== src/Mix/Edits.antt =====
-- What adding and removing styles do to every item (logo-admin/mix_service.py: add_styles,
-- remove_styles).
use arb_data_warehouse.Outcomes.{Ensures-bind, Ensures-check, Ensures-gives, anything, gives}
use arb_data_warehouse.Prelude.{
  Bool, Bool-cases, List, Text, [], ap, arith, bit, contains, count_if, has_key, if◌then◌else◌, inl,
  inr, keys, length, lookup, ltb, none, not, set_default, some, ℕ, ◌&&◌, ◌+◌, ◌==◌, ◌∷◌, ◌≡◌,
  nat_eq, text_eq, pair_eq,
}
use arb_data_warehouse.Mix.Types.{Letters, MixTables, follows_fdm4, is_list, would_be_empty}
use arb_data_warehouse.Mix.Seeds.{item_count}
use arb_data_warehouse.Mix.Service.{
  AddOutcome, add_styles, drop_keys, insert_styles, is_named, manual_item, registry, remove_styles,
  require_list_mode,
}
use arb_data_warehouse.Mix.Counts.{Items, lookup-drop_keys, lookup-insert_styles}
use arb_data_warehouse.Mix.Contracts.{contains-added, length-set_default}

length-insert_styles :
    (store : Text) (styles : List Text) (items : Items)
    → length (insert_styles store styles items).0
      ≡ length items + length (insert_styles store styles items).1
unfolding insert_styles
length-insert_styles store [] items = omega arith
length-insert_styles store (style ∷ styles) items =
    elim (Bool-cases (has_key (store, style) items)) [
      | inl h ↦ rw h (
          omega (
            arith,
            ap (λ b. bit (not b)) h,
            length-set_default (store, style) manual_item items,
            length-insert_styles store styles (set_default (store, style) manual_item items),
          ))
      | inr h ↦ rw h (
          omega (
            arith,
            ap (λ b. bit (not b)) h,
            length-set_default (store, style) manual_item items,
            length-insert_styles store styles (set_default (store, style) manual_item items),
          ))
    ]

length-drop_keys :
    (p : Text × Text → Bool) (items : Items)
    → length (drop_keys p items) + count_if p (keys items) ≡ length items
unfolding drop_keys count_if
length-drop_keys p [] = omega arith
length-drop_keys p ((key, item) ∷ items) = elim (Bool-cases (p key)) [
  | inl h ↦ rw h (omega (arith, length-drop_keys p items))
  | inr h ↦ rw h (omega (arith, length-drop_keys p items))
]

-- What an addition has done.
pub record HasAdded (store : Text) (styles : List Text) (t : MixTables)
    (out : MixTables × AddOutcome) : Type 0 where
  pub listed :
      (key : Text × Text)
      → lookup key out.0.items ≡ (
          if has_key key t.items
          then lookup key t.items
          else if is_named store styles key
          then some manual_item
          else none)
  pub reported :
      (s : Text) → contains out.1.added s ≡ (contains styles s && not (has_key (store, s) t.items))
  pub counted : length out.0.items ≡ length t.items + out.1.saved

-- When styles are added to a store's list: an item that was there, of whatever store, is as it was; each
-- named style of the store that was not listed is now, by hand and with all its colors, and no other; the
-- styles reported as added are those; and as many are reported saved as there are new items.
pub add_styles-HasAdded :
    (l : Letters) (store : Text) (styles : List Text) (t : MixTables) (out : MixTables × AddOutcome)
    → add_styles l store styles t ≡ gives out
    → HasAdded store styles t out
unfolding add_styles require_list_mode
add_styles-HasAdded l store styles t out gave =
    let P : MixTables × AddOutcome → Type 0 = HasAdded store styles t in
    Ensures-gives P (add_styles l store styles t) out gave (
      Ensures-bind P (λ row. Unit) (registry store t) _ (anything (registry store t))
        (λ row u. Ensures-check P (is_list row.mode) follows_fdm4 _ (λ list. record {
          listed = lookup-insert_styles store styles t.items;
          reported = contains-added store styles t.items;
          counted = length-insert_styles store styles t.items;
        })))

-- When styles are removed from a store's list: exactly the named items of the store are gone, every
-- other item of any store is as it was, and the number returned is that of the items gone.
pub remove_styles-drops :
    (store : Text) (styles : List Text) (t : MixTables) (out : MixTables × ℕ)
    → remove_styles store styles t ≡ gives out
    → ((key : Text × Text)
        → lookup key out.0.items ≡ (if is_named store styles key then none else lookup key t.items))
      × (length out.0.items + out.1 ≡ length t.items)
unfolding remove_styles require_list_mode
remove_styles-drops store styles t out gave =
    let P : MixTables × ℕ → Type 0 = λ o.
      ((key : Text × Text)
        → lookup key o.0.items ≡ (if is_named store styles key then none else lookup key t.items))
      × (length o.0.items + o.1 ≡ length t.items) in
    let named : Text × Text → Bool = is_named store styles in
    let removed : ℕ = count_if named (keys t.items) in
    let after : MixTables = record t { items = drop_keys named t.items } in
    Ensures-gives P (remove_styles store styles t) out gave (
      Ensures-bind P (λ row. Unit) (registry store t) _ (anything (registry store t))
        (λ row u. Ensures-check P (is_list row.mode) follows_fdm4 _ (λ list.
          Ensures-check P (not (ltb 0 removed && item_count store after == 0)) would_be_empty _
            (λ left. (λ key. lookup-drop_keys named key t.items, length-drop_keys named t.items)))))
