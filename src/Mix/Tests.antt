-- ===== src/Mix/Tests.antt =====
-- Runs of the product-mix operations of logo-admin at concrete tables, and the theorems at them.
use arb_data_warehouse.Outcomes.{check, fails, gives, map_gives, ◌>>=◌, ◌>>◌}
use arb_data_warehouse.Planner.Names.{is_space, lstrip, rstrip, strip}
use arb_data_warehouse.Prelude.{
  All, Dict, List, Option, Text, [], any_of, contains, count_if, false, has_key, if◌then◌else◌,
  insert, insert_by, is_empty, is_subset, keep_if, leb, length, lookup, map, none, not, pair_beq,
  refl, set_add, set_default, set_union, some, sort_by, sorted_texts, text, text_beq, text_le, true,
  ℕ, ◌&&◌, ◌+◌, ◌-◌, ◌∷◌, ◌≡◌, ◌≤◌, nat_eq, text_eq, pair_eq,
}
use arb_data_warehouse.Mix.Types.{
  Letters, MixItem, MixMode, MixResult, MixStore, MixTables, StateRow, excludes_all_sizes,
  first_word, flush, imported, join_words, list_styles, mode_of, no_styles, norm, nothing_to_seed,
  single_spaced, split_words, would_be_empty,
}
use arb_data_warehouse.Mix.Seeds.{
  candidate_rows, code_of, color_codes, group_rows, insert_missing, is_candidate_of, is_item_of,
  is_live_style, item_count, null_if_empty, seed_items, seed_rows, state_colors, style_groups,
}
use arb_data_warehouse.Mix.Service.{
  AddOutcome, EnableOutcome, add_styles, drop_keys, enable, insert_styles, is_named, is_product_of,
  known_store, manual_item, product_counts, registry, remove_styles, require_list_mode,
  seed_enabled, seed_some, stamp_import, update_store, upsert_store, was_active, without_products,
}
use arb_data_warehouse.Mix.Styles.{
  Channel, add_channels, candidate_colors, channels_of, clean_colors, clean_entries, clean_exclude,
  clean_excludes, clean_list, clean_sizes, clean_style_config, included, is_variation_of,
  known_sizes, mix_style_universe, row_colors,
}
use arb_data_warehouse.Mix.Routes.{enable_mix_store, mode_word, put_mix_styles, save_mix_style}
use arb_data_warehouse.Mix.Steps.{MixReach, enables, no_overrides, writes}
use arb_data_warehouse.Mix.Reachable.{active_lists_have_items}
use arb_data_warehouse.Mix.Contracts.{seed_items-merges}
use arb_data_warehouse.Mix.Edits.{HasAdded, add_styles-HasAdded, remove_styles-drops}
use arb_data_warehouse.Mix.Config.{LeavesSizes, clean_style_config-LeavesSizes}
use arb_data_warehouse.Mix.Agrees.{enable_mix_store-enable, put_mix_styles-add_styles}

-- The letters of ASCII.
abbrev big_letters : Text → Text
big_letters s = map (λ c. if leb 97 c && leb c 122 then c - 32 else c) s

abbrev ascii : Letters
ascii = record { upper = big_letters; lower = λ s. s; canonical = λ s. s }

abbrev some_store : Text
some_store = text "ARB"

abbrev some_product : Text → Text → StateRow
some_product color size = record {
  store = some_store;
  style_code = some (text "K500");
  color_code = some color;
  size_code = some size;
  is_variation = true;
  is_active = true;
}

abbrev some_tables : MixTables
some_tables = record {
  catalog = some_store ∷ [];
  virtual_stores = [];
  stores = [];
  items = [];
  candidates = [];
  state = some_product (text "RED") (text "S") ∷ some_product (text "RED") (text "M") ∷ [];
}

abbrev seeded_item : MixItem
seeded_item = record { colors = some (text "RED" ∷ []); size_excludes = []; source = imported }

abbrev listed_store : MixStore
listed_store = record { mode = list_styles; is_active = true; note = []; imported_at = some 5 }

abbrev listed_tables : MixTables
listed_tables = record some_tables {
  stores = (some_store, listed_store) ∷ [];
  items = ((some_store, text "K500"), seeded_item) ∷ [];
}

unfoldable run_enable : Text → Text → MixTables → MixResult (MixTables × MixMode × ℕ)
unfolding enable_mix_store mode_of strip lstrip rstrip is_space norm single_spaced join_words
    split_words first_word flush known_store seed_enabled seed_some seed_items seed_rows
    insert_missing group_rows candidate_rows style_groups color_codes state_colors null_if_empty
    is_live_style is_candidate_of code_of item_count is_item_of upsert_store update_store
    stamp_import lookup insert set_default has_key contains set_add set_union keep_if any_of
    count_if sort_by insert_by text_le sorted_texts pair_beq text_beq
run_enable store mode t = enable_mix_store ascii 5 store mode [] t

test-enable :
    run_enable (text " arb ") (text "list") some_tables ≡ gives (listed_tables, list_styles, 1)
unfolding run_enable
test-enable = refl

test-no_products :
    run_enable (text "ARB") (text "list") (record some_tables { state = [] })
    ≡ fails nothing_to_seed
unfolding run_enable
test-no_products = refl

first_enable :
    enable_mix_store ascii 5 (text " arb ") (text "list") [] some_tables
    ≡ gives (listed_tables, list_styles, 1)
unfolding run_enable
first_enable = test-enable

listed_reach : MixReach ascii listed_tables
listed_reach =
    writes (text " arb ") (no_overrides some_tables.catalog [] [] some_tables.state)
      (enables 5 (text "list") [] (listed_tables, list_styles, 1) first_enable)

listed_found : lookup some_store listed_tables.stores ≡ some listed_store
unfolding lookup text_beq
listed_found = refl

active_lists_have_items_example : 1 ≤ item_count some_store listed_tables
active_lists_have_items_example =
    active_lists_have_items ascii listed_tables some_store listed_store listed_reach listed_found
      refl refl

seed_items-merges_example :
    ((key : Text × Text)
      → lookup key ((seed_items ascii some_store listed_tables).0).items ≡ (
          if has_key key listed_tables.items
          then lookup key listed_tables.items
          else lookup key (seed_rows ascii some_store listed_tables)))
    × (length ((seed_items ascii some_store listed_tables).0).items
        ≡ 1 + (seed_items ascii some_store listed_tables).1)
seed_items-merges_example = seed_items-merges ascii some_store listed_tables

unfoldable run_add : List Text → MixTables → MixResult (MixTables × AddOutcome)
unfolding add_styles registry require_list_mode insert_styles product_counts without_products
    is_product_of code_of set_default lookup insert has_key count_if pair_beq text_beq
run_add styles t = add_styles ascii some_store styles t

abbrev some_added : MixTables × AddOutcome
some_added = (
  record listed_tables {
    items =
        ((some_store, text "K500"), seeded_item) ∷ ((some_store, text "L100"), manual_item) ∷ [];
  },
  record {
    saved = 1;
    per_style = (text "K500", 2) ∷ (text "L100", 0) ∷ [];
    added = text "L100" ∷ [];
    already_listed = text "K500" ∷ [];
    no_live_products = text "L100" ∷ [];
  },
)

test-add : run_add (text "K500" ∷ text "L100" ∷ []) listed_tables ≡ gives some_added
unfolding run_add
test-add = refl

some_add :
    add_styles ascii some_store (text "K500" ∷ text "L100" ∷ []) listed_tables ≡ gives some_added
unfolding run_add
some_add = test-add

add_styles-HasAdded_example :
    HasAdded some_store (text "K500" ∷ text "L100" ∷ []) listed_tables some_added
add_styles-HasAdded_example =
    add_styles-HasAdded ascii some_store (text "K500" ∷ text "L100" ∷ []) listed_tables some_added
      some_add

unfoldable run_remove : List Text → MixTables → MixResult (MixTables × ℕ)
unfolding remove_styles registry require_list_mode drop_keys is_named item_count is_item_of contains
    lookup count_if text_beq
run_remove styles t = remove_styles some_store styles t

abbrev added_tables : MixTables
added_tables = record listed_tables {
  items = ((some_store, text "K500"), seeded_item) ∷ ((some_store, text "L100"), manual_item) ∷ [];
}

test-remove : run_remove (text "L100" ∷ []) added_tables ≡ gives (listed_tables, 1)
unfolding run_remove
test-remove = refl

test-remove_last : run_remove (text "K500" ∷ []) listed_tables ≡ fails would_be_empty
unfolding run_remove
test-remove_last = refl

some_removal : remove_styles some_store (text "L100" ∷ []) added_tables ≡ gives (listed_tables, 1)
unfolding run_remove
some_removal = test-remove

remove_styles-drops_example :
    ((key : Text × Text)
      → lookup key listed_tables.items ≡ (
          if is_named some_store (text "L100" ∷ []) key
          then none
          else lookup key added_tables.items))
    × (length listed_tables.items + 1 ≡ 2)
remove_styles-drops_example =
    remove_styles-drops some_store (text "L100" ∷ []) added_tables (listed_tables, 1) some_removal

abbrev red_channel : List Channel
red_channel = record { color = text "RED"; sizes = text "S" ∷ text "M" ∷ [] } ∷ []

unfoldable run_config :
    Dict Text (List Text) → MixResult (Option (List Text) × Dict Text (List Text))
unfolding clean_style_config clean_colors clean_excludes clean_exclude clean_sizes clean_list
    clean_entries known_sizes norm single_spaced is_space join_words split_words first_word flush
    is_subset contains set_add insert text_beq
run_config size_excludes = clean_style_config ascii none size_excludes red_channel

test-config_all :
    run_config ((text "red", text "s" ∷ text "m" ∷ []) ∷ []) ≡ fails excludes_all_sizes
unfolding run_config
test-config_all = refl

test-config :
    run_config ((text "red", text "s" ∷ []) ∷ []) ≡ gives (none, (text "RED", text "S" ∷ []) ∷ [])
unfolding run_config
test-config = refl

some_config :
    clean_style_config ascii none ((text "red", text "s" ∷ []) ∷ []) red_channel
    ≡ gives (none, (text "RED", text "S" ∷ []) ∷ [])
unfolding run_config
some_config = test-config

clean_style_config-LeavesSizes_example :
    Unit {0}
    × All (LeavesSizes red_channel (included red_channel none)) ((text "RED", text "S" ∷ []) ∷ [])
clean_style_config-LeavesSizes_example =
    clean_style_config-LeavesSizes ascii none ((text "red", text "s" ∷ []) ∷ []) red_channel
      (none, (text "RED", text "S" ∷ []) ∷ []) some_config

no_row : was_active (lookup (norm ascii (text "ARB")) some_tables.stores) ≡ false
unfolding lookup
no_row = refl

enable_mix_store-enable_example :
    enable_mix_store ascii 5 (text "ARB") (text "list") [] some_tables
    ≡ map_gives
        (λ (out : MixTables × EnableOutcome). (out.0, (out.1).mode, (out.1).imported_count))
        (enable ascii 5
          (norm ascii (text "ARB"))
          (mode_word ascii (text "list"))
          (strip [])
          true
          some_tables)
enable_mix_store-enable_example =
    enable_mix_store-enable ascii 5 (text "ARB") (text "list") [] some_tables no_row

put_mix_styles-add_styles_example :
    put_mix_styles ascii some_store (text "l100" ∷ []) listed_tables ≡ (
      clean_list ascii 5000 (text "l100" ∷ []) >>= λ styles.
      check (not (is_empty styles)) no_styles
      >> map_gives
          (λ (out : MixTables × AddOutcome). (out.0, (out.1).saved, (out.1).per_style))
          (add_styles ascii (norm ascii some_store) styles listed_tables))
put_mix_styles-add_styles_example =
    put_mix_styles-add_styles ascii some_store (text "l100" ∷ []) listed_tables

unfoldable run_save : Text → MixTables → MixResult MixTables
unfolding save_mix_style registry require_list_mode mix_style_universe is_variation_of row_colors
    channels_of candidate_colors add_channels clean_style_config clean_colors clean_excludes norm
    single_spaced is_space join_words split_words first_word flush keep_if sort_by insert_by text_le
    sorted_texts set_union set_add contains code_of lookup insert text_beq pair_beq
run_save style t = save_mix_style ascii some_store style none [] t

-- A style of spaces is saved as an item with an empty style code.
test-blank_style :
    run_save (text "  ") listed_tables
    ≡ gives (record listed_tables {
      items = ((some_store, text "K500"), seeded_item) ∷ ((some_store, []), manual_item) ∷ [];
    })
unfolding run_save
test-blank_style = refl

-- After that, the last style that has products can go.
test-only_blank_left :
    run_remove (text "K500" ∷ []) (record listed_tables {
      items = ((some_store, text "K500"), seeded_item) ∷ ((some_store, []), manual_item) ∷ [];
    })
    ≡ gives (record listed_tables { items = ((some_store, []), manual_item) ∷ [] }, 1)
unfolding run_remove
test-only_blank_left = refl
