-- ===== src/Mix/Preserved.antt =====
-- Every function of logo-admin/mix_service.py that writes keeps the active custom lists nonempty.
use mathlib.Core.Path.{subst}
use arb_data_warehouse.Outcomes.{Ensures, Ensures-bind, Ensures-check, anything}
use arb_data_warehouse.Prelude.{
  Bool, Bool-cases, List, Option, Option-cases, Text, [], ap, arith, bit, contains, count_if, false,
  inl, inr, insert, keys, lookup, ltb, nat_beq_iff, none, not, refl, some, sym, text_beq_iff, true,
  ℕ, ◌&&◌, ◌+◌, ◌==◌, ◌∷◌, ◌≡◌, ◌≤◌, nat_eq, text_eq, pair_eq,
}
use arb_data_warehouse.Mix.Types.{
  Letters, MixMode, MixStore, MixTables, follows_fdm4, is_list, mode_of, nothing_to_seed,
  unknown_store, would_be_empty,
}
use arb_data_warehouse.Mix.Seeds.{is_item_of, item_count, seed_items, seed_rows}
use arb_data_warehouse.Mix.Service.{
  add_styles, disable, drop_keys, enable, insert_styles, is_named, known_store, registry,
  remove_styles, require_list_mode, seed_enabled, seed_some, stamp_import, upsert_store,
}
use arb_data_warehouse.Mix.Counts.{count-drop_keys, count-insert_missing, count-insert_styles}
use arb_data_warehouse.Mix.Nonempty.{
  HasSeeded, IsNonempty, IsNonempty-grown, IsNonempty-items, IsNonempty-registry, IsNonempty-update,
  bit-below, drop_keys-IsNonempty, follows, follows-insert, seed_some-HasSeeded,
}

-- What an operation gives, the tables first.
abbrev pub GivesNonempty : {A : Type 0} → MixTables × A → Type 0
GivesNonempty out = IsNonempty out.0

pub stamp_import-IsNonempty :
    (now : ℕ) (store : Text) (t : MixTables) → IsNonempty t → IsNonempty (stamp_import now store t)
unfolding stamp_import
stamp_import-IsNonempty now store t h =
    IsNonempty-update store (λ (row : MixStore). record row { imported_at = some now }) t h
      (λ row. omega arith)

-- Seeding with the registry row written first, which alone may break what the seeding mends.
pub seeded-IsNonempty :
    (l : Letters) (store : Text) (row : MixStore) (t : MixTables) (out : MixTables × ℕ)
    → IsNonempty t
    → HasSeeded l store (record t { stores = insert store row t.stores }) out
    → IsNonempty out.0
unfolding item_count seed_items
seeded-IsNonempty l store row t out h done =
    let before : MixTables = record t { stores = insert store row t.stores } in
    let after : MixTables = (seed_items l store before).0 in
    let tables : out.0 ≡ after = ap (λ (p : MixTables × ℕ). p.0) done.same in
    subst IsNonempty (sym tables) (
      IsNonempty-grown store t after h
        (λ s other. count-insert_missing (is_item_of s) (seed_rows l store before) t.items)
        (follows-insert store row t)
        (bit-below (follows store after) (item_count store after)
          (subst (λ x. 1 ≤ item_count store x) tables done.some_items)))

abbrev pub upserted_row : MixMode → Bool → Text → Option MixStore → MixStore
upserted_row mode active note old = record {
  mode = mode;
  is_active = active;
  note = note;
  imported_at = elim old [ none ↦ none | some row ↦ row.imported_at ];
}

pub seed_enabled-IsNonempty :
    (l : Letters) (now : ℕ) (store : Text) (mode : MixMode) (active : Bool) (note : Text)
    (t : MixTables)
    → IsNonempty t
    → Ensures GivesNonempty
        (seed_enabled l now store (is_list mode && active) (upsert_store store mode active note t))
unfolding seed_enabled upsert_store
seed_enabled-IsNonempty l now store mode active note t h =
    let row : MixStore = upserted_row mode active note (lookup store t.stores) in
    let upserted : MixTables = record t { stores = insert store row t.stores } in
    elim (Bool-cases (is_list mode && active)) [
      | inl e ↦
          rw (e, seed_enabled)
            (Ensures-bind GivesNonempty (HasSeeded l store upserted)
              (seed_some l store nothing_to_seed upserted) _
              (seed_some-HasSeeded l store upserted nothing_to_seed)
              (λ out done.
                stamp_import-IsNonempty now store out.0
                  (seeded-IsNonempty l store row t out h done)))
      | inr e ↦ rw (e, seed_enabled) (IsNonempty-registry store row t h (ground arith))
    ]

pub enable-IsNonempty :
    (l : Letters) (now : ℕ) (store mode_text note : Text) (active : Bool) (t : MixTables)
    → IsNonempty t
    → Ensures GivesNonempty (enable l now store mode_text note active t)
unfolding enable known_store
enable-IsNonempty l now store mode_text note active t h = elim (Option-cases (mode_of mode_text)) [
  | inl e ↦ rw (e, enable) tt
  | inr (mode, e) ↦
      rw (e, enable)
        (Ensures-check GivesNonempty (contains t.catalog store) unknown_store _ (λ known.
          Ensures-bind GivesNonempty GivesNonempty
            (seed_enabled l now store (is_list mode && active)
              (upsert_store store mode active note t))
            _ (seed_enabled-IsNonempty l now store mode active note t h)
            (λ out nonempty. nonempty)))
]

pub disable-IsNonempty :
    (store : Text) (t : MixTables) → IsNonempty t → Ensures IsNonempty (disable store t)
unfolding disable
disable-IsNonempty store t h =
    Ensures-bind IsNonempty (λ row. Unit) (registry store t) _ (anything (registry store t))
      (λ row u.
        IsNonempty-update store (λ (r : MixStore). record r { is_active = false }) t h
          (λ r. omega arith))

pub add_styles-IsNonempty :
    (l : Letters) (store : Text) (styles : List Text) (t : MixTables)
    → IsNonempty t
    → Ensures GivesNonempty (add_styles l store styles t)
unfolding add_styles require_list_mode
add_styles-IsNonempty l store styles t h =
    Ensures-bind GivesNonempty (λ row. Unit) (registry store t) _ (anything (registry store t))
      (λ row u. Ensures-check GivesNonempty (is_list row.mode) follows_fdm4 _ (λ list.
        IsNonempty-items t (insert_styles store styles t.items).0 h
          (λ s. count-insert_styles (is_item_of s) store styles t.items)))

is_named-other :
    (store s : Text) (styles : List Text) (k : Text × Text)
    → (store == s) ≡ false
    → (is_item_of s k && is_named store styles k) ≡ false
unfolding is_item_of is_named
is_named-other store s styles k other =
    ground (arith, text_beq_iff k.0 s, text_beq_iff k.0 store, text_beq_iff store s)

is_named-own :
    (store : Text) (styles : List Text) (k : Text × Text)
    → (is_item_of store k && is_named store styles k) ≡ is_named store styles k
unfolding is_item_of is_named
is_named-own store styles k = ground arith

pub count_none :
    (p : Text × Text → Bool) (ks : List (Text × Text))
    → ((k : Text × Text) → p k ≡ false)
    → count_if p ks ≡ 0
unfolding count_if
count_none p [] never = refl
count_none p (k ∷ ks) never = omega (arith, ap bit (never k), count_none p ks never)

pub count_same :
    (p q : Text × Text → Bool) (ks : List (Text × Text))
    → ((k : Text × Text) → p k ≡ q k)
    → count_if p ks ≡ count_if q ks
unfolding count_if
count_same p q [] same = refl
count_same p q (k ∷ ks) same = omega (arith, ap bit (same k), count_same p q ks same)

-- After a removal that took nothing or left something, the store has what it needs.
left_over :
    (store : Text) (styles : List Text) (t : MixTables)
    → IsNonempty t
    → not (
        ltb 0 (count_if (is_named store styles) (keys t.items))
        && item_count store (record t { items = drop_keys (is_named store styles) t.items }) == 0)
      ≡ true
    → bit (follows store t)
      ≤ item_count store (record t { items = drop_keys (is_named store styles) t.items })
unfolding item_count
left_over store styles t h left =
    let named : Text × Text → Bool = is_named store styles in
    let own : count_if (λ k. is_item_of store k && named k) (keys t.items)
        ≡ count_if named (keys t.items) =
      count_same (λ k. is_item_of store k && named k) named (keys t.items)
        (is_named-own store styles) in
    let rest : count_if (is_item_of store) (keys (drop_keys named t.items))
          + count_if (λ k. is_item_of store k && named k) (keys t.items)
        ≡ count_if (is_item_of store) (keys t.items) =
      count-drop_keys (is_item_of store) named t.items in
    elim (Bool-cases (ltb 0 (count_if named (keys t.items)))) [
      | inl e ↦
          bit-below (follows store t) (count_if (is_item_of store) (keys (drop_keys named t.items)))
            (ground
              (arith, nat_beq_iff (count_if (is_item_of store) (keys (drop_keys named t.items))) 0))
      | inr e ↦
          let none_gone : count_if named (keys t.items) ≡ 0 = ground arith in
          omega (arith, h store, rest, own, none_gone)
    ]

pub remove_styles-IsNonempty :
    (store : Text) (styles : List Text) (t : MixTables)
    → IsNonempty t
    → Ensures GivesNonempty (remove_styles store styles t)
unfolding remove_styles require_list_mode item_count
remove_styles-IsNonempty store styles t h =
    let named : Text × Text → Bool = is_named store styles in
    let removed : ℕ = count_if named (keys t.items) in
    let after : MixTables = record t { items = drop_keys named t.items } in
    Ensures-bind GivesNonempty (λ row. Unit) (registry store t) _ (anything (registry store t))
      (λ row u. Ensures-check GivesNonempty (is_list row.mode) follows_fdm4 _ (λ list.
        Ensures-check GivesNonempty (not (ltb 0 removed && item_count store after == 0))
          would_be_empty _
          (λ left.
            drop_keys-IsNonempty store named t h
              (λ s other.
                count_none (λ k. is_item_of s k && named k) (keys t.items)
                  (λ k. is_named-other store s styles k other))
              (left_over store styles t h left))))
