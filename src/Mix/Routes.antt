-- ===== src/Mix/Routes.antt =====
-- The product-mix routes that write (logo-admin/routes_api.py), on the bodies that the web framework
-- has read. Their answers are reduced to what they report of the tables.
use arb_data_warehouse.Outcomes.{check, fails, gives, ◌>>=◌, ◌>>◌}
use arb_data_warehouse.Planner.Names.{strip}
use arb_data_warehouse.Prelude.{
  Bool, Dict, List, Option, Text, false, if◌then◌else◌, insert, is_empty, length, lookup, none, not,
  some, text, true, ℕ, ◌==◌, nat_eq, text_eq, pair_eq,
}
use arb_data_warehouse.Mix.Types.{
  ItemSource, Letters, MixItem, MixMode, MixResult, MixStore, MixTables, all_styles,
  already_overridden, is_list, list_styles, manual, mode_of, no_styles, norm, nothing_to_seed,
  unknown_mode,
}
use arb_data_warehouse.Mix.Seeds.{is_item_of, item_count}
use arb_data_warehouse.Mix.Service.{
  disable, drop_keys, insert_styles, known_store, product_counts, registry, remove_styles,
  require_list_mode, seed_enabled, seed_some, stamp_import, update_store, upsert_store, was_active,
}
use arb_data_warehouse.Mix.Styles.{clean_list, clean_style_config, mix_style_universe}

-- `body.mode.strip().lower()`
abbrev pub mode_word : Letters → Text → Text
mode_word l s = l.lower (strip s)

unfoldable pub enable_mix_store :
    Letters → ℕ → Text → Text → Text → MixTables → MixResult (MixTables × MixMode × ℕ)
enable_mix_store l now store_text mode_text note t = elim (mode_of (mode_word l mode_text)) [
  | none ↦ fails unknown_mode
  | some mode ↦ (do
    let store = norm l store_text
    known_store store t
    check (not (was_active (lookup store t.stores))) already_overridden
    out ← seed_enabled l now store (is_list mode) (upsert_store store mode true (strip note) t)
    gives (out.0, mode, out.1))
]

-- Seeds before the mode flips; leaving list mode keeps the items.
unfoldable pub seed_switched : Letters → Text → MixMode → MixTables → MixResult (MixTables × ℕ)
seed_switched l store all_styles t = gives (t, 0)
seed_switched l store list_styles t = seed_some l store nothing_to_seed t

unfoldable pub switched : ℕ → MixMode → MixStore → MixStore
switched now all_styles row = record row { mode = all_styles }
switched now list_styles row = record row { mode = list_styles; imported_at = some now }

abbrev pub same_mode : MixMode → MixMode → Bool
same_mode all_styles all_styles = true
same_mode list_styles list_styles = true
same_mode a b = false

unfoldable pub switch_to :
    Letters → ℕ → Text → MixMode → Bool → MixTables → MixResult (MixTables × ℕ)
switch_to l now store mode true t = gives (t, 0)
switch_to l now store mode false t = do
  out ← seed_switched l store mode t
  gives (update_store store (switched now mode) out.0, out.1)

unfoldable pub switch_mix_mode : Letters → ℕ → Text → Text → MixTables → MixResult (MixTables × ℕ)
switch_mix_mode l now store_text mode_text t = elim (mode_of (mode_word l mode_text)) [
  | none ↦ fails unknown_mode
  | some mode ↦ (do
    row ← registry (norm l store_text) t
    switch_to l now (norm l store_text) mode (same_mode row.mode mode) t)
]

unfoldable pub disable_mix_store : Letters → Text → MixTables → MixResult MixTables
disable_mix_store l store_text t = disable (norm l store_text) t

abbrev pub source_of : Option MixItem → ItemSource
source_of none = manual
source_of (some item) = item.source

-- A new item is a manual one, an old one keeps its source.
unfoldable pub save_mix_style :
    Letters
    → Text
    → Text
    → Option (List Text)
    → Dict Text (List Text)
    → MixTables
    → MixResult MixTables
save_mix_style l store_text style_text colors size_excludes t = do
  let store = norm l store_text
  let style = norm l style_text
  row ← registry store t
  require_list_mode row
  config ← clean_style_config l colors size_excludes (mix_style_universe l store style t)
  gives (record t {
    items =
        insert (store, style)
          (record {
            colors = config.0;
            size_excludes = config.1;
            source = source_of (lookup (store, style) t.items);
          })
          t.items;
  })

-- PUT /product-mix, the route add_mix_styles.
unfoldable pub put_mix_styles :
    Letters → Text → List Text → MixTables → MixResult (MixTables × ℕ × List (Text × ℕ))
put_mix_styles l store_text styles_raw t = do
  let store = norm l store_text
  styles ← clean_list l 5000 styles_raw
  check (not (is_empty styles)) no_styles
  row ← registry store t
  require_list_mode row
  let out = insert_styles store styles t.items
  gives (record t { items = out.0 }, length out.1, product_counts l store styles t)

-- DELETE /product-mix, the route remove_mix_styles.
unfoldable pub delete_mix_styles :
    Letters → Text → List Text → MixTables → MixResult (MixTables × ℕ)
delete_mix_styles l store_text styles_raw t = do
  styles ← clean_list l 500 styles_raw
  check (not (is_empty styles)) no_styles
  remove_styles (norm l store_text) styles t

-- `merge` or `reset`: true for `reset`.
unfoldable pub import_mode_of : Text → Option Bool
import_mode_of s =
    if s == text "merge" then some false else if s == text "reset" then some true else none

unfoldable pub clear_items : Bool → Text → MixTables → MixTables × ℕ
clear_items false store t = (t, 0)
clear_items true store t =
    (record t { items = drop_keys (is_item_of store) t.items }, item_count store t)

-- The new tables, how many items were added and how many removed before.
unfoldable pub import_mix : Letters → ℕ → Text → Text → MixTables → MixResult (MixTables × ℕ × ℕ)
import_mix l now store_text mode_text t = elim (import_mode_of (mode_word l mode_text)) [
  | none ↦ fails unknown_mode
  | some reset ↦ (do
    let store = norm l store_text
    row ← registry store t
    require_list_mode row
    let cleared = clear_items reset store t
    out ← seed_some l store nothing_to_seed cleared.0
    gives (stamp_import now store out.0, out.1, cleared.1))
]
