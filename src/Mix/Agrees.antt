-- ===== src/Mix/Agrees.antt =====
-- The routes of logo-admin/routes_api.py that write what logo-admin/mix_service.py also writes.
use mathlib.Core.Option
use arb_data_warehouse.Outcomes.{Fallible-cases, check, fails, gives, map_gives, ◌>>=◌, ◌>>◌}
use arb_data_warehouse.Planner.Names.{strip}
use arb_data_warehouse.Prelude.{
  Bool, Bool-cases, List, Option, Option-cases, Text, contains, false, inl, inr, is_empty, lookup,
  not, refl, true, ℕ, ◌≡◌, nat_eq, text_eq, pair_eq,
}
use arb_data_warehouse.Mix.Types.{
  Letters, MixMode, MixResult, MixStore, MixTables, is_list, mode_of, no_styles, norm,
}
use arb_data_warehouse.Mix.Service.{
  AddOutcome, EnableOutcome, add_styles, enable, known_store, registry, require_list_mode,
  seed_enabled, upsert_store, was_active,
}
use arb_data_warehouse.Mix.Styles.{clean_list}
use arb_data_warehouse.Mix.Routes.{enable_mix_store, mode_word, put_mix_styles}
use arb_data_warehouse.Mix.Kept.{list_and_true}

abbrev with_mode : MixMode → MixTables × ℕ → MixResult (MixTables × MixMode × ℕ)
with_mode mode out = gives (out.0, mode, out.1)

abbrev with_outcome :
    MixMode → Option MixMode → Bool → MixTables × ℕ → MixResult (MixTables × EnableOutcome)
with_outcome mode previous was out = gives (
  out.0,
  record {
    mode = mode;
    is_active = true;
    imported_count = out.1;
    previous_mode = previous;
    was_active = was;
  },
)

gives_same :
    (mode : MixMode) (previous : Option MixMode) (was : Bool) (seeds : MixResult (MixTables × ℕ))
    → (seeds >>= with_mode mode)
      ≡ map_gives
          (λ (out : MixTables × EnableOutcome). (out.0, (out.1).mode, (out.1).imported_count))
          (seeds >>= with_outcome mode previous was)
gives_same mode previous was (gives out) = refl
gives_same mode previous was (fails e) = refl

-- For a store without an active override, the route that enables one does what the service's enable does,
-- error for error, on the cleaned store, mode and note.
pub enable_mix_store-enable :
    (l : Letters) (now : ℕ) (store_text mode_text note : Text) (t : MixTables)
    → was_active (lookup (norm l store_text) t.stores) ≡ false
    → enable_mix_store l now store_text mode_text note t
      ≡ map_gives
          (λ (out : MixTables × EnableOutcome). (out.0, (out.1).mode, (out.1).imported_count))
          (enable l now (norm l store_text) (mode_word l mode_text) (strip note) true t)
unfolding enable_mix_store enable known_store
enable_mix_store-enable l now store_text mode_text note t free =
    let store : Text = norm l store_text in
    elim (Option-cases (mode_of (mode_word l mode_text))) [
      | inl e ↦ rw (e, enable_mix_store, enable) refl
      | inr (mode, e) ↦
          rw (e, enable_mix_store, enable)
            (elim (Bool-cases (contains t.catalog store)) [
              | inl known ↦
                  rw (known, free, list_and_true mode)
                    (gives_same mode
                      (Option.map (λ (row : MixStore). row.mode) (lookup store t.stores)) false
                      (seed_enabled l now store (is_list mode)
                        (upsert_store store mode true (strip note) t)))
              | inr unknown ↦ rw unknown refl
            ])
    ]

-- The route that adds styles does to the tables what the service's add_styles does, on the cleaned styles,
-- and refuses what it refuses; the route wants at least one style.
pub put_mix_styles-add_styles :
    (l : Letters) (store_text : Text) (styles_raw : List Text) (t : MixTables)
    → put_mix_styles l store_text styles_raw t ≡ (
        clean_list l 5000 styles_raw >>= λ styles.
        check (not (is_empty styles)) no_styles
        >> map_gives
            (λ (out : MixTables × AddOutcome). (out.0, (out.1).saved, (out.1).per_style))
            (add_styles l (norm l store_text) styles t))
unfolding put_mix_styles add_styles require_list_mode
put_mix_styles-add_styles l store_text styles_raw t =
    elim (Fallible-cases (clean_list l 5000 styles_raw)) [
      | inl (error, e) ↦ rw (e, put_mix_styles) refl
      | inr (styles, e) ↦
          rw (e, put_mix_styles)
            (elim (Bool-cases (is_empty styles)) [
              | inl none_given ↦ rw none_given refl
              | inr given ↦ rw given (elim (Fallible-cases (registry (norm l store_text) t)) [
                | inl (error, no_row) ↦ rw (no_row, add_styles) refl
                | inr (row, found) ↦
                    rw (found, add_styles)
                      (elim (Bool-cases (is_list row.mode)) [
                        | inl list ↦ rw list refl
                        | inr other ↦ rw other refl
                      ])
              ])
            ])
    ]
