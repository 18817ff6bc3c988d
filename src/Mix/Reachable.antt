-- ===== src/Mix/Reachable.antt =====
-- At any time an active custom list has items (logo-admin/mix_service.py and its callers).
use arb_data_warehouse.Outcomes.{Ensures, Ensures-bind, Ensures-check, Ensures-gives, anything}
use arb_data_warehouse.Prelude.{
  List, Option, Option-cases, Text, ap, arith, bit, contains, has_key, inl, inr, insert, lookup,
  not, some, take, true, ℕ, ◌==◌, ◌∙◌, ◌≡◌, ◌≤◌, nat_eq, text_eq, pair_eq,
}
use arb_data_warehouse.Mix.Types.{
  Letters, MixMode, MixStore, MixTables, all_styles, already_external, follows_fdm4, is_list,
  list_styles, none_listed, norm, not_external, nothing_to_seed, single_spaced, unknown_store,
  uses_list,
}
use arb_data_warehouse.Mix.Seeds.{item_count}
use arb_data_warehouse.Mix.Service.{
  EnableOutcome, disable, enable, known_store, registry, remove_styles, require_list_mode,
  seed_some, upsert_store,
}
use arb_data_warehouse.Mix.Commands.{
  add_mix_styles, catalog_of, clean_styles, disable_product_mix, follows_list, norm_all, note_of,
  optional_text, remove_external_mix_store, remove_mix_styles, set_external_mix_store,
  set_product_mix,
}
use arb_data_warehouse.Mix.Routes.{
  clear_items, delete_mix_styles, disable_mix_store, enable_mix_store, import_mix, import_mode_of,
  mode_word, put_mix_styles, save_mix_style, switch_mix_mode,
}
use arb_data_warehouse.Mix.Nonempty.{
  HasSeeded, IsNonempty, IsNonempty-registry, follows, seed_some-HasSeeded,
}
use arb_data_warehouse.Mix.Preserved.{
  GivesNonempty, add_styles-IsNonempty, disable-IsNonempty, enable-IsNonempty,
  remove_styles-IsNonempty, stamp_import-IsNonempty, upserted_row,
}
use arb_data_warehouse.Mix.Kept.{
  cleared_seed-IsNonempty, delete_mix_styles-IsNonempty, enable_mix_store-IsNonempty,
  put_mix_styles-IsNonempty, save_mix_style-IsNonempty, switch_mix_mode-IsNonempty,
}
use arb_data_warehouse.Mix.Steps.{
  MixReach, MixStep, adds, deletes, disables, disables_by_command, enables, enrolls, imports,
  no_overrides, puts, refreshes, removes, saves, sets, switches, unenrolls, writes,
}

module _ (l : Letters) (store_text : Text) (t : MixTables) (h : IsNonempty t) where
  import_mix-IsNonempty :
      (now : ℕ) (mode_text : Text)
      → Ensures
          (λ (out : MixTables × ℕ × ℕ). IsNonempty out.0)
          (import_mix l now store_text mode_text t)
  unfolding import_mix require_list_mode
  import_mix-IsNonempty now mode_text =
      elim (Option-cases (import_mode_of (mode_word l mode_text))) [
        | inl e ↦ rw (e, import_mix) tt
        | inr (reset, e) ↦
            let store : Text = norm l store_text in
            let cleared : MixTables = (clear_items reset store t).0 in
            let P : MixTables × ℕ × ℕ → Type 0 = λ out. IsNonempty out.0 in
            rw (e, import_mix)
              (Ensures-bind P (λ row. Unit) (registry store t) _ (anything (registry store t))
                (λ row u. Ensures-check P (is_list row.mode) follows_fdm4 _ (λ list.
                  Ensures-bind P (HasSeeded l store cleared)
                    (seed_some l store nothing_to_seed cleared) _
                    (seed_some-HasSeeded l store cleared nothing_to_seed)
                    (λ out done.
                      stamp_import-IsNonempty now store out.0
                        (cleared_seed-IsNonempty l store_text t h store reset out done)))))
      ]

  set_product_mix-IsNonempty :
      (now : ℕ) (mode : Text) (note_text : Option Text)
      → Ensures
          (λ (out : MixTables × EnableOutcome × ℕ). IsNonempty out.0)
          (set_product_mix l now store_text mode note_text t)
  unfolding set_product_mix
  set_product_mix-IsNonempty now mode note_text =
      let store : Text = norm l store_text in
      let P : MixTables × EnableOutcome × ℕ → Type 0 = λ out. IsNonempty out.0 in
      Ensures-bind P (λ n. Unit) (optional_text l 1000 note_text) _
        (anything (optional_text l 1000 note_text))
        (λ note u.
          Ensures-bind P GivesNonempty (enable l now store mode (single_spaced note) true t) _
            (enable-IsNonempty l now store mode (single_spaced note) true t h)
            (λ out nonempty. nonempty))

  add_mix_styles-IsNonempty :
      (styles : List Text) → Ensures GivesNonempty (add_mix_styles l store_text styles t)
  unfolding add_mix_styles
  add_mix_styles-IsNonempty styles =
      Ensures-bind GivesNonempty (λ c. Unit) (clean_styles l styles) _
        (anything (clean_styles l styles))
        (λ cleaned u. add_styles-IsNonempty l (norm l store_text) (norm_all l cleaned) t h)

  remove_mix_styles-IsNonempty :
      (styles : List Text) → Ensures GivesNonempty (remove_mix_styles l store_text styles t)
  unfolding remove_mix_styles
  remove_mix_styles-IsNonempty styles =
      Ensures-bind GivesNonempty (λ c. Unit) (clean_styles l styles) _
        (anything (clean_styles l styles))
        (λ cleaned u.
          Ensures-bind GivesNonempty GivesNonempty
            (remove_styles (norm l store_text) (norm_all l cleaned) t) _
            (remove_styles-IsNonempty (norm l store_text) (norm_all l cleaned) t h)
            (λ out nonempty.
              Ensures-check GivesNonempty (not (out.1 == 0)) none_listed _ (λ some_gone. nonempty)))

  set_external_mix_store-IsNonempty :
      (note : Text) → Ensures GivesNonempty (set_external_mix_store l store_text note t)
  unfolding set_external_mix_store known_store upsert_store item_count
  set_external_mix_store-IsNonempty note =
      let store : Text = norm l store_text in
      Ensures-check GivesNonempty (contains t.catalog store) unknown_store _ (λ known.
        Ensures-check GivesNonempty (not (has_key store t.virtual_stores)) already_external _
          (λ free.
            Ensures-check GivesNonempty (not (follows_list (lookup store t.stores))) uses_list _
              (λ no_list.
                IsNonempty-registry store
                  (upserted_row all_styles true (note_of (lookup store t.stores))
                    (lookup store t.stores))
                  (record t {
                    virtual_stores =
                        insert store
                          (record { catalog_id = catalog_of store; note = take 500 note })
                          t.virtual_stores;
                  })
                  h (omega arith))))

  remove_external_mix_store-IsNonempty :
      Ensures IsNonempty (remove_external_mix_store l store_text t)
  unfolding remove_external_mix_store item_count
  remove_external_mix_store-IsNonempty =
      Ensures-check IsNonempty (has_key (norm l store_text) t.virtual_stores) not_external _
        (λ there. h)

step-IsNonempty :
    (l : Letters) (store : Text) (t after : MixTables)
    → MixStep l store t after
    → IsNonempty t
    → IsNonempty after
unfolding disable_mix_store disable_product_mix
step-IsNonempty l store t after (enables now mode note out gave) h =
    Ensures-gives (λ (o : MixTables × MixMode × ℕ). IsNonempty o.0)
      (enable_mix_store l now store mode note t) out gave
      (enable_mix_store-IsNonempty l store t h now mode note)
step-IsNonempty l store t after (switches now mode out gave) h =
    Ensures-gives GivesNonempty (switch_mix_mode l now store mode t) out gave
      (switch_mix_mode-IsNonempty l store t h now mode)
step-IsNonempty l store t after (disables out gave) h =
    Ensures-gives IsNonempty (disable (norm l store) t) after gave
      (disable-IsNonempty (norm l store) t h)
step-IsNonempty l store t after (saves style colors excludes out gave) h =
    Ensures-gives IsNonempty (save_mix_style l store style colors excludes t) after gave
      (save_mix_style-IsNonempty l store t h style colors excludes)
step-IsNonempty l store t after (puts styles out gave) h =
    Ensures-gives (λ (o : MixTables × ℕ × List (Text × ℕ)). IsNonempty o.0)
      (put_mix_styles l store styles t) out gave (put_mix_styles-IsNonempty l store t h styles)
step-IsNonempty l store t after (deletes styles out gave) h =
    Ensures-gives GivesNonempty (delete_mix_styles l store styles t) out gave
      (delete_mix_styles-IsNonempty l store t h styles)
step-IsNonempty l store t after (imports now mode out gave) h =
    Ensures-gives (λ (o : MixTables × ℕ × ℕ). IsNonempty o.0) (import_mix l now store mode t) out
      gave (import_mix-IsNonempty l store t h now mode)
step-IsNonempty l store t after (sets now mode note out gave) h =
    Ensures-gives (λ (o : MixTables × EnableOutcome × ℕ). IsNonempty o.0)
      (set_product_mix l now store mode note t) out gave
      (set_product_mix-IsNonempty l store t h now mode note)
step-IsNonempty l store t after (disables_by_command out gave) h =
    Ensures-gives IsNonempty (disable (norm l store) t) after gave
      (disable-IsNonempty (norm l store) t h)
step-IsNonempty l store t after (adds styles out gave) h =
    Ensures-gives GivesNonempty (add_mix_styles l store styles t) out gave
      (add_mix_styles-IsNonempty l store t h styles)
step-IsNonempty l store t after (removes styles out gave) h =
    Ensures-gives GivesNonempty (remove_mix_styles l store styles t) out gave
      (remove_mix_styles-IsNonempty l store t h styles)
step-IsNonempty l store t after (enrolls note out gave) h =
    Ensures-gives GivesNonempty (set_external_mix_store l store note t) out gave
      (set_external_mix_store-IsNonempty l store t h note)
step-IsNonempty l store t after (unenrolls out gave) h =
    Ensures-gives IsNonempty (remove_external_mix_store l store t) after gave
      (remove_external_mix_store-IsNonempty l store t h)

reach-IsNonempty : (l : Letters) (t : MixTables) → MixReach l t → IsNonempty t
unfolding item_count follows_list lookup
reach-IsNonempty l t (no_overrides catalog virtual_stores candidates state) = λ s. omega arith
reach-IsNonempty l t (writes store {t = before} reached step) =
    step-IsNonempty l store before t step (reach-IsNonempty l before reached)
reach-IsNonempty l t (refreshes catalog candidates state {t = before} reached) =
    reach-IsNonempty l before reached

-- Whatever writes of the routes and commands have committed, from tables without overrides, and however the
-- warehouse refreshed between them: a store whose override is active and in list mode has an item.
pub active_lists_have_items :
    (l : Letters) (t : MixTables) (store : Text) (row : MixStore)
    → MixReach l t
    → lookup store t.stores ≡ some row
    → row.is_active ≡ true
    → row.mode ≡ list_styles
    → 1 ≤ item_count store t
unfolding follows_list
active_lists_have_items l t store row reached found active list =
    let follows_one : follows store t ≡ true =
      ap follows_list found ∙ ground (arith, ap is_list list) in
    omega (arith, reach-IsNonempty l t reached store, ap bit follows_one)
