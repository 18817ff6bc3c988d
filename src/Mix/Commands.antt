-- ===== src/Mix/Commands.antt =====
-- The assistant's and the operators' commands on product mixes (logo-admin/mutations.py): their cleaning
-- and the functions that apply them. What the command object guards before, as the length of its
-- fields, and the scopes that a result names are left out.
use arb_data_warehouse.Outcomes.{check, fails, gives, ◌>>=◌, ◌>>◌}
use arb_data_warehouse.Planner.Names.{strip}
use arb_data_warehouse.Prelude.{
  Bool, Dict, List, Option, Text, [], contains, false, has_key, if◌then◌else◌, insert, is_empty,
  length, lookup, ltb, map, none, not, set_add, set_union, some, take, text, true, ℕ, ◌&&◌, ◌++◌,
  ◌==◌, ◌||◌, ◌∷◌, nat_eq, text_eq, pair_eq,
}
use arb_data_warehouse.Mix.Types.{
  Letters, MixResult, MixStore, MixTables, VirtualStore, all_styles, already_external, invalid_text,
  is_list, no_styles, none_listed, norm, not_external, single_spaced, too_many_entries, uses_list,
}
use arb_data_warehouse.Mix.Seeds.{item_count}
use arb_data_warehouse.Mix.Service.{
  AddOutcome, EnableOutcome, add_styles, disable, enable, known_store, remove_styles, upsert_store,
}

unfoldable pub clean : Letters → ℕ → Text → MixResult Text
clean l maximum s =
    let cleaned = strip s in
    if is_empty cleaned || (ltb maximum (length cleaned) || contains cleaned 0)
    then fails invalid_text
    else gives cleaned

unfoldable pub optional_text : Letters → ℕ → Option Text → MixResult Text
optional_text l maximum none = gives []
optional_text l maximum (some s) =
    let cleaned = strip s in
    if ltb maximum (length cleaned) || contains cleaned 0 then fails invalid_text else gives cleaned

unfoldable pub clean_each : Letters → List Text → List Text → MixResult (List Text)
clean_each l cleaned [] = gives cleaned
clean_each l cleaned (s ∷ rest) = do
  style ← clean l 100 s
  clean_each l (set_add cleaned style) rest

unfoldable pub clean_styles : Letters → List Text → MixResult (List Text)
clean_styles l styles = do
  cleaned ← clean_each l [] styles
  check (not (is_empty cleaned)) no_styles
  check (not (ltb 50 (length cleaned))) too_many_entries
  gives cleaned

-- `list(dict.fromkeys(norm(s) for s in styles))`
unfoldable pub norm_all : Letters → List Text → List Text
norm_all l styles = set_union [] (map (norm l) styles)

unfoldable pub set_product_mix :
    Letters → ℕ → Text → Text → Option Text → MixTables → MixResult (MixTables × EnableOutcome × ℕ)
set_product_mix l now store_text mode note_text t = do
  let store = norm l store_text
  note ← optional_text l 1000 note_text
  out ← enable l now store mode (single_spaced note) true t
  gives (out.0, out.1, if is_list (out.1).mode then item_count store out.0 else 0)

unfoldable pub disable_product_mix : Letters → Text → MixTables → MixResult MixTables
disable_product_mix l store_text t = disable (norm l store_text) t

unfoldable pub add_mix_styles :
    Letters → Text → List Text → MixTables → MixResult (MixTables × AddOutcome)
add_mix_styles l store_text styles t = do
  cleaned ← clean_styles l styles
  add_styles l (norm l store_text) (norm_all l cleaned) t

unfoldable pub remove_mix_styles :
    Letters → Text → List Text → MixTables → MixResult (MixTables × ℕ)
remove_mix_styles l store_text styles t = do
  cleaned ← clean_styles l styles
  out ← remove_styles (norm l store_text) (norm_all l cleaned) t
  check (not (out.1 == 0)) none_listed
  gives out

-- `f"{store}_Woo_1"`
abbrev pub catalog_of : Text → Text
catalog_of store = store ++ text "_Woo_1"

-- `registry and registry["active"] and registry["mode"] == "list"`
unfoldable pub follows_list : Option MixStore → Bool
follows_list none = false
follows_list (some row) = row.is_active && is_list row.mode

-- The upsert leaves a note that is there.
abbrev pub note_of : Option MixStore → Text
note_of none = text "External store: all products, always in stock"
note_of (some row) = row.note

-- `note` is the text that names who enrolled the store and from where.
unfoldable pub set_external_mix_store :
    Letters → Text → Text → MixTables → MixResult (MixTables × Text)
set_external_mix_store l store_text note t = do
  let store = norm l store_text
  known_store store t
  check (not (has_key store t.virtual_stores)) already_external
  check (not (follows_list (lookup store t.stores))) uses_list
  gives (
    upsert_store store all_styles true (note_of (lookup store t.stores)) (record t {
      virtual_stores =
          insert store (record { catalog_id = catalog_of store; note = take 500 note })
            t.virtual_stores;
    }),
    catalog_of store,
  )

unfoldable pub drop_store : Text → Dict Text VirtualStore → Dict Text VirtualStore
drop_store store [] = []
drop_store store ((k, v) ∷ d) =
    let rest = drop_store store d in if k == store then rest else (k, v) ∷ rest

unfoldable pub remove_external_mix_store : Letters → Text → MixTables → MixResult MixTables
remove_external_mix_store l store_text t = do
  let store = norm l store_text
  check (has_key store t.virtual_stores) not_external
  gives (record t { virtual_stores = drop_store store t.virtual_stores })
