-- ===== src/Mix/Kept.antt =====
-- The routes and commands keep the active custom lists nonempty (logo-admin/routes_api.py, mutations.py).
use mathlib.Core.Path.{subst}
use arb_data_warehouse.Outcomes.{Ensures, Ensures-bind, Ensures-check, anything}
use arb_data_warehouse.Planner.Names.{strip}
use arb_data_warehouse.Prelude.{
  Bool, Dict, List, Option, Option-cases, Text, ap, arith, bit, contains, count_if, false, inl, inr,
  is_empty, keys, lookup, not, refl, sym, text_beq_iff, true, ℕ, ◌&&◌, ◌+◌, ◌==◌, ◌≡◌, ◌≤◌, nat_eq,
  text_eq, pair_eq,
}
use arb_data_warehouse.Mix.Types.{
  Letters, MixMode, MixResult, MixTables, all_styles, already_overridden, follows_fdm4, is_list,
  list_styles, mode_of, no_styles, norm, nothing_to_seed, unknown_store,
}
use arb_data_warehouse.Mix.Seeds.{is_item_of, item_count, seed_items, seed_rows}
use arb_data_warehouse.Mix.Service.{
  insert_styles, known_store, registry, require_list_mode, seed_enabled, seed_some, upsert_store,
  was_active,
}
use arb_data_warehouse.Mix.Styles.{clean_list, clean_style_config, mix_style_universe}
use arb_data_warehouse.Mix.Routes.{
  clear_items, delete_mix_styles, enable_mix_store, mode_word, put_mix_styles, same_mode,
  save_mix_style, seed_switched, switch_mix_mode, switch_to, switched,
}
use arb_data_warehouse.Mix.Counts.{
  count-drop_keys, count-insert, count-insert_missing, count-insert_styles,
}
use arb_data_warehouse.Mix.Nonempty.{
  HasSeeded, IsNonempty, IsNonempty-grown, IsNonempty-items, IsNonempty-update,
  IsNonempty-update_some, bit-below, follows, seed_items-IsNonempty, seed_some-HasSeeded,
}
use arb_data_warehouse.Mix.Preserved.{
  GivesNonempty, count_none, remove_styles-IsNonempty, seed_enabled-IsNonempty,
}

pub list_and_true : (mode : MixMode) → (is_list mode && true) ≡ is_list mode
list_and_true all_styles = refl
list_and_true list_styles = refl

item_of_one :
    (store s : Text) (k : Text × Text)
    → (store == s) ≡ false
    → (is_item_of s k && is_item_of store k) ≡ false
unfolding is_item_of
item_of_one store s k other =
    ground (arith, text_beq_iff k.0 s, text_beq_iff k.0 store, text_beq_iff store s)

module _ (l : Letters) (store_text : Text) (t : MixTables) (h : IsNonempty t) where
  pub enable_mix_store-IsNonempty :
      (now : ℕ) (mode_text note : Text)
      → Ensures
          (λ (out : MixTables × MixMode × ℕ). IsNonempty out.0)
          (enable_mix_store l now store_text mode_text note t)
  unfolding enable_mix_store known_store
  enable_mix_store-IsNonempty now mode_text note =
      elim (Option-cases (mode_of (mode_word l mode_text))) [
        | inl e ↦ rw (e, enable_mix_store) tt
        | inr (mode, e) ↦
            let store : Text = norm l store_text in
            let P : MixTables × MixMode × ℕ → Type 0 = λ out. IsNonempty out.0 in
            rw (e, enable_mix_store)
              (Ensures-check P (contains t.catalog store) unknown_store _ (λ known.
                Ensures-check P (not (was_active (lookup store t.stores))) already_overridden _
                  (λ fresh.
                    Ensures-bind P GivesNonempty
                      (seed_enabled l now store (is_list mode)
                        (upsert_store store mode true (strip note) t))
                      _
                      (subst
                        (λ b. Ensures GivesNonempty (
                          seed_enabled l now store b (upsert_store store mode true (strip note) t)))
                        (list_and_true mode)
                        (seed_enabled-IsNonempty l now store mode true (strip note) t h))
                      (λ out nonempty. nonempty))))
      ]

  pub save_mix_style-IsNonempty :
      (style_text : Text) (colors : Option (List Text)) (size_excludes : Dict Text (List Text))
      → Ensures IsNonempty (save_mix_style l store_text style_text colors size_excludes t)
  unfolding save_mix_style require_list_mode
  save_mix_style-IsNonempty style_text colors size_excludes =
      let store : Text = norm l store_text in
      let style : Text = norm l style_text in
      let config : MixResult (Option (List Text) × Dict Text (List Text)) =
        clean_style_config l colors size_excludes (mix_style_universe l store style t) in
      Ensures-bind IsNonempty (λ row. Unit) (registry store t) _ (anything (registry store t))
        (λ row u. Ensures-check IsNonempty (is_list row.mode) follows_fdm4 _ (λ list.
          Ensures-bind IsNonempty (λ c. Unit) config _ (anything config)
            (λ c u.
              IsNonempty-items t _ h (λ s. count-insert (is_item_of s) (store, style) _ t.items))))

  pub put_mix_styles-IsNonempty :
      (styles_raw : List Text)
      → Ensures
          (λ (out : MixTables × ℕ × List (Text × ℕ)). IsNonempty out.0)
          (put_mix_styles l store_text styles_raw t)
  unfolding put_mix_styles require_list_mode
  put_mix_styles-IsNonempty styles_raw =
      let store : Text = norm l store_text in
      let P : MixTables × ℕ × List (Text × ℕ) → Type 0 = λ out. IsNonempty out.0 in
      Ensures-bind P (λ x. Unit) (clean_list l 5000 styles_raw) _
        (anything (clean_list l 5000 styles_raw))
        (λ styles u. Ensures-check P (not (is_empty styles)) no_styles _ (λ some_styles.
          Ensures-bind P (λ row. Unit) (registry store t) _ (anything (registry store t))
            (λ row u. Ensures-check P (is_list row.mode) follows_fdm4 _ (λ list.
              IsNonempty-items t (insert_styles store styles t.items).0 h
                (λ s. count-insert_styles (is_item_of s) store styles t.items)))))

  pub delete_mix_styles-IsNonempty :
      (styles_raw : List Text) → Ensures GivesNonempty (delete_mix_styles l store_text styles_raw t)
  unfolding delete_mix_styles
  delete_mix_styles-IsNonempty styles_raw =
      Ensures-bind GivesNonempty (λ x. Unit) (clean_list l 500 styles_raw) _
        (anything (clean_list l 500 styles_raw))
        (λ styles u.
          Ensures-check GivesNonempty (not (is_empty styles)) no_styles _
            (λ some_styles. remove_styles-IsNonempty (norm l store_text) styles t h))

  pub switch_to-IsNonempty :
      (now : ℕ) (store : Text) (mode : MixMode) (same : Bool)
      → Ensures GivesNonempty (switch_to l now store mode same t)
  unfolding switch_to seed_switched switched
  switch_to-IsNonempty now store mode true = h
  switch_to-IsNonempty now store all_styles false =
      IsNonempty-update store (switched now all_styles) t h (λ row. ground arith)
  switch_to-IsNonempty now store list_styles false =
      Ensures-bind GivesNonempty (HasSeeded l store t) (seed_some l store nothing_to_seed t) _
        (seed_some-HasSeeded l store t nothing_to_seed)
        (λ out done.
          IsNonempty-update_some store (switched now list_styles) out.0
            (subst IsNonempty (ap (λ (p : MixTables × ℕ). p.0) (sym done.same))
              (seed_items-IsNonempty l store t h))
            done.some_items)

  pub switch_mix_mode-IsNonempty :
      (now : ℕ) (mode_text : Text)
      → Ensures GivesNonempty (switch_mix_mode l now store_text mode_text t)
  unfolding switch_mix_mode
  switch_mix_mode-IsNonempty now mode_text = elim (Option-cases (mode_of (mode_word l mode_text))) [
    | inl e ↦ rw (e, switch_mix_mode) tt
    | inr (mode, e) ↦
        let store : Text = norm l store_text in
        rw (e, switch_mix_mode)
          (Ensures-bind GivesNonempty (λ row. Unit) (registry store t) _
            (anything (registry store t))
            (λ row u. switch_to-IsNonempty now store mode (same_mode row.mode mode)))
  ]

  pub cleared-others :
      (store : Text) (reset : Bool) (s : Text)
      → (store == s) ≡ false
      → count_if (is_item_of s) (keys t.items)
        ≤ count_if (is_item_of s) (keys ((clear_items reset store t).0).items)
  unfolding clear_items
  cleared-others store false s other = omega arith
  cleared-others store true s other = omega (
    arith,
    count-drop_keys (is_item_of s) (is_item_of store) t.items,
    count_none (λ k. is_item_of s k && is_item_of store k) (keys t.items)
        (λ k. item_of_one store s k other),
  )

  pub cleared-follows :
      (store : Text) (reset : Bool) (s : Text)
      → bit (follows s (seed_items l store (clear_items reset store t).0).0)
        ≤ bit (follows s t) + bit (store == s)
  unfolding clear_items seed_items
  cleared-follows store false s = omega arith
  cleared-follows store true s = omega arith

  -- Clearing the store's items and seeding it again.
  pub cleared_seed-IsNonempty :
      (store : Text) (reset : Bool) (out : MixTables × ℕ)
      → HasSeeded l store (clear_items reset store t).0 out
      → IsNonempty out.0
  unfolding clear_items seed_items item_count
  cleared_seed-IsNonempty store reset out done =
      let before : MixTables = (clear_items reset store t).0 in
      let after : MixTables = (seed_items l store before).0 in
      let tables : out.0 ≡ after = ap (λ (p : MixTables × ℕ). p.0) done.same in
      subst IsNonempty (sym tables) (
        IsNonempty-grown store t after h
          (λ s other. omega (
            arith,
            cleared-others store reset s other,
            count-insert_missing (is_item_of s) (seed_rows l store before) before.items,
          ))
          (cleared-follows store reset)
          (bit-below (follows store after) (item_count store after)
            (subst (λ x. 1 ≤ item_count store x) tables done.some_items)))
