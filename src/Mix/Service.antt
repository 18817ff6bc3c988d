-- ===== src/Mix/Service.antt =====
-- logo-admin/mix_service.py. The lock on the registry row has no effect of its own in the model, whose
-- transactions run one after the other.
use mathlib.Core.Option
use arb_data_warehouse.Outcomes.{check, fails, gives, ◌>>=◌, ◌>>◌}
use arb_data_warehouse.Prelude.{
  Bool, Dict, List, Option, Text, [], contains, count_if, false, has_key, if◌then◌else◌, insert,
  keys, length, lookup, ltb, none, not, set_default, some, true, ℕ, ◌&&◌, ◌==◌, ◌∷◌, nat_eq,
  text_eq, pair_eq,
}
use arb_data_warehouse.Mix.Seeds.{code_of, item_count, seed_items}
use arb_data_warehouse.Mix.Types.{
  Letters, MixError, MixItem, MixMode, MixResult, MixStore, MixTables, StateRow, follows_fdm4,
  is_list, manual, mode_of, no_custom_list, nothing_to_seed, unknown_mode, unknown_store,
  would_be_empty,
}

unfoldable pub known_store : Text → MixTables → MixResult (Unit {0})
known_store store t = check (contains t.catalog store) unknown_store

-- `registry(cursor, store)`; with `required=False` it is a lookup.
unfoldable pub registry : Text → MixTables → MixResult MixStore
registry store t = elim (lookup store t.stores) [
  | none ↦ fails no_custom_list
  | some row ↦ if row.is_active then gives row else fails no_custom_list
]

unfoldable pub require_list_mode : MixStore → MixResult (Unit {0})
require_list_mode row = check (is_list row.mode) follows_fdm4

abbrev pub is_some {ℓ} : {A : Type ℓ} → Option A → Bool
is_some none = false
is_some (some a) = true

-- A live variation of the style in the store.
unfoldable pub is_product_of : Letters → Text → Text → StateRow → Bool
is_product_of l store style r =
    r.store == store
    && (r.is_active
        && (r.is_variation && (is_some r.style_code && code_of l r.style_code == style)))

unfoldable pub product_counts : Letters → Text → List Text → MixTables → List (Text × ℕ)
product_counts l store [] t = []
product_counts l store (style ∷ styles) t =
    (style, count_if (is_product_of l store style) t.state) ∷ product_counts l store styles t

pub record EnableOutcome : Type 0 where
  pub mode : MixMode
  pub is_active : Bool
  pub imported_count : ℕ
  pub previous_mode : Option MixMode
  pub was_active : Bool

-- The upsert of the registry row.
unfoldable pub upsert_store : Text → MixMode → Bool → Text → MixTables → MixTables
upsert_store store mode active note t = record t {
  stores =
      insert store
        (record {
          mode = mode;
          is_active = active;
          note = note;
          imported_at = elim (lookup store t.stores) [ none ↦ none | some row ↦ row.imported_at ];
        })
        t.stores;
}

-- `UPDATE woo.store_mix_store SET ... WHERE fdm4_store = %s`
unfoldable pub update_store : Text → (MixStore → MixStore) → MixTables → MixTables
update_store store f t = elim (lookup store t.stores) [
  | none ↦ t
  | some row ↦ record t { stores = insert store (f row) t.stores }
]

unfoldable pub stamp_import : ℕ → Text → MixTables → MixTables
stamp_import now store =
    update_store store (λ (row : MixStore). record row { imported_at = some now })

-- Seeding that must leave the store with items.
unfoldable pub seed_some : Letters → Text → MixError → MixTables → MixResult (MixTables × ℕ)
seed_some l store empty t = do
  check (not (item_count store (seed_items l store t).0 == 0)) empty
  gives (seed_items l store t)

abbrev pub was_active : Option MixStore → Bool
was_active none = false
was_active (some row) = row.is_active

-- In list mode the store is seeded before the override holds.
unfoldable pub seed_enabled : Letters → ℕ → Text → Bool → MixTables → MixResult (MixTables × ℕ)
seed_enabled l now store seeds t = elim seeds [
  | false ↦ gives (t, 0)
  | true ↦ (do
    out ← seed_some l store nothing_to_seed t
    gives (stamp_import now store out.0, out.1))
]

abbrev pub enable_outcome : MixMode → Bool → ℕ → Option MixStore → EnableOutcome
enable_outcome mode active count existing = record {
  mode = mode;
  is_active = active;
  imported_count = count;
  previous_mode = Option.map (λ (row : MixStore). row.mode) existing;
  was_active = was_active existing;
}

unfoldable pub enable :
    Letters → ℕ → Text → Text → Text → Bool → MixTables → MixResult (MixTables × EnableOutcome)
enable l now store mode_text note active t = elim (mode_of mode_text) [
  | none ↦ fails unknown_mode
  | some mode ↦ (do
    known_store store t
    out ← seed_enabled l now store (is_list mode && active) (upsert_store store mode active note t)
    gives (out.0, enable_outcome mode active out.1 (lookup store t.stores)))
]

unfoldable pub disable : Text → MixTables → MixResult MixTables
disable store t = do
  row ← registry store t
  gives (update_store store (λ (row : MixStore). record row { is_active = false }) t)

-- `for style in styles: INSERT ... ON CONFLICT DO NOTHING`: the styles added and those already listed.
abbrev pub manual_item : MixItem
manual_item = record { colors = none; size_excludes = []; source = manual }

unfoldable pub insert_styles :
    Text
    → List Text
    → Dict (Text × Text) MixItem
    → Dict (Text × Text) MixItem × List Text × List Text
insert_styles store [] items = (items, [], [])
insert_styles store (style ∷ styles) items =
    let rest = insert_styles store styles (set_default (store, style) manual_item items) in
    if has_key (store, style) items
    then (rest.0, rest.1, style ∷ rest.2)
    else (rest.0, style ∷ rest.1, rest.2)

pub record AddOutcome : Type 0 where
  pub saved : ℕ
  pub per_style : List (Text × ℕ)
  pub added : List Text
  pub already_listed : List Text
  pub no_live_products : List Text

unfoldable pub without_products : List (Text × ℕ) → List Text
without_products [] = []
without_products ((style, n) ∷ rest) =
    let others = without_products rest in if n == 0 then style ∷ others else others

unfoldable pub add_styles :
    Letters → Text → List Text → MixTables → MixResult (MixTables × AddOutcome)
add_styles l store styles t = do
  row ← registry store t
  require_list_mode row
  let out = insert_styles store styles t.items
  gives (
    record t { items = out.0 },
    record {
      saved = length out.1;
      per_style = product_counts l store styles t;
      added = out.1;
      already_listed = out.2;
      no_live_products = without_products (product_counts l store styles t);
    },
  )

-- `fdm4_store = %s AND style_code = ANY(%s)`
unfoldable pub is_named : Text → List Text → Text × Text → Bool
is_named store styles key = key.0 == store && contains styles key.1

unfoldable pub drop_keys :
    (Text × Text → Bool) → Dict (Text × Text) MixItem → Dict (Text × Text) MixItem
drop_keys p [] = []
drop_keys p ((key, item) ∷ items) =
    let rest = drop_keys p items in if p key then rest else (key, item) ∷ rest

-- The new tables and how many rows went.
unfoldable pub remove_styles : Text → List Text → MixTables → MixResult (MixTables × ℕ)
remove_styles store styles t = do
  row ← registry store t
  require_list_mode row
  let removed = count_if (is_named store styles) (keys t.items)
  let after = record t { items = drop_keys (is_named store styles) t.items }
  check (not (ltb 0 removed && item_count store after == 0)) would_be_empty
  gives (after, removed)
