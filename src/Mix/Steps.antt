-- ===== src/Mix/Steps.antt =====
-- The product-mix tables under any sequence of the operators' routes (logo-admin/routes_api.py) and of
-- the commands (logo-admin/mutations.py).
use arb_data_warehouse.Outcomes.{gives}
use arb_data_warehouse.Prelude.{Dict, List, Option, Text, [], ℕ, ◌≡◌, nat_eq, text_eq, pair_eq}
use arb_data_warehouse.Mix.Types.{Candidate, Letters, MixMode, MixTables, StateRow, VirtualStore}
use arb_data_warehouse.Mix.Service.{AddOutcome, EnableOutcome}
use arb_data_warehouse.Mix.Commands.{
  add_mix_styles, disable_product_mix, remove_external_mix_store, remove_mix_styles,
  set_external_mix_store, set_product_mix,
}
use arb_data_warehouse.Mix.Routes.{
  delete_mix_styles, disable_mix_store, enable_mix_store, import_mix, put_mix_styles,
  save_mix_style, switch_mix_mode,
}

-- One write, of the store that its text names, that commits.
pub data MixStep (l : Letters) (store : Text) (t : MixTables) : MixTables → Type 0 where
  enables :
      (now : ℕ) (mode note : Text) (out : MixTables × MixMode × ℕ)
      → enable_mix_store l now store mode note t ≡ gives out
      → MixStep l store t out.0
  switches :
      (now : ℕ) (mode : Text) (out : MixTables × ℕ)
      → switch_mix_mode l now store mode t ≡ gives out
      → MixStep l store t out.0
  disables :
      (after : MixTables) → disable_mix_store l store t ≡ gives after → MixStep l store t after
  saves :
      (style : Text) (colors : Option (List Text)) (size_excludes : Dict Text (List Text))
      (after : MixTables)
      → save_mix_style l store style colors size_excludes t ≡ gives after
      → MixStep l store t after
  puts :
      (styles : List Text) (out : MixTables × ℕ × List (Text × ℕ))
      → put_mix_styles l store styles t ≡ gives out
      → MixStep l store t out.0
  deletes :
      (styles : List Text) (out : MixTables × ℕ)
      → delete_mix_styles l store styles t ≡ gives out
      → MixStep l store t out.0
  imports :
      (now : ℕ) (mode : Text) (out : MixTables × ℕ × ℕ)
      → import_mix l now store mode t ≡ gives out
      → MixStep l store t out.0
  sets :
      (now : ℕ) (mode : Text) (note : Option Text) (out : MixTables × EnableOutcome × ℕ)
      → set_product_mix l now store mode note t ≡ gives out
      → MixStep l store t out.0
  disables_by_command :
      (after : MixTables) → disable_product_mix l store t ≡ gives after → MixStep l store t after
  adds :
      (styles : List Text) (out : MixTables × AddOutcome)
      → add_mix_styles l store styles t ≡ gives out
      → MixStep l store t out.0
  removes :
      (styles : List Text) (out : MixTables × ℕ)
      → remove_mix_styles l store styles t ≡ gives out
      → MixStep l store t out.0
  enrolls :
      (note : Text) (out : MixTables × Text)
      → set_external_mix_store l store note t ≡ gives out
      → MixStep l store t out.0
  unenrolls :
      (after : MixTables)
      → remove_external_mix_store l store t ≡ gives after
      → MixStep l store t after

-- The tables that writes lead to, from tables without overrides; the warehouse refresh may at any time
-- bring other products, candidates and stores.
pub data MixReach (l : Letters) : MixTables → Type 0 where
  no_overrides :
      (catalog : List Text) (virtual_stores : Dict Text VirtualStore) (candidates : List Candidate)
      (state : List StateRow)
      → MixReach l (record {
        catalog = catalog;
        virtual_stores = virtual_stores;
        stores = [];
        items = [];
        candidates = candidates;
        state = state;
      })
  writes :
      (store : Text) {t after : MixTables}
      → MixReach l t
      → MixStep l store t after
      → MixReach l after
  refreshes :
      (catalog : List Text) (candidates : List Candidate) (state : List StateRow) {t : MixTables}
      → MixReach l t
      → MixReach l (record t { catalog = catalog; candidates = candidates; state = state })
