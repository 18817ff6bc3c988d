-- ===== src/Mix/Nonempty.antt =====
-- An active custom list is never empty: what each function of logo-admin/mix_service.py and each write of
-- the routes does to that.
use mathlib.Core.Path.{subst}
use arb_data_warehouse.Outcomes.{Ensures, Ensures-check, gives}
use arb_data_warehouse.Prelude.{
  Bool, Bool-cases, Option-cases, Text, ap, arith, beq_refl, bit, count_if, false, inl, inr, insert,
  keys, lookup, lookup-insert, nat_beq_iff, not, refl, text_beq_iff, true, ℕ, ◌&&◌, ◌+◌, ◌==◌, ◌≡◌,
  ◌≤◌, nat_eq, text_eq, pair_eq,
}
use arb_data_warehouse.Mix.Types.{Letters, MixError, MixStore, MixTables, is_list}
use arb_data_warehouse.Mix.Seeds.{insert_missing, is_item_of, item_count, seed_items, seed_rows}
use arb_data_warehouse.Mix.Service.{drop_keys, seed_some, update_store}
use arb_data_warehouse.Mix.Commands.{follows_list}
use arb_data_warehouse.Mix.Counts.{Items, count-drop_keys, count-insert_missing}

abbrev pub follows : Text → MixTables → Bool
follows s t = follows_list (lookup s t.stores)

-- Each store that follows a custom list has an item.
abbrev pub IsNonempty : MixTables → Type 0
IsNonempty t = (s : Text) → bit (follows s t) ≤ item_count s t

-- No other store lost an item, none but the given one follows a list that did not, and that one has items if
-- it does.
pub IsNonempty-grown :
    (store : Text) (t after : MixTables)
    → IsNonempty t
    → ((s : Text) → (store == s) ≡ false → item_count s t ≤ item_count s after)
    → ((s : Text) → bit (follows s after) ≤ bit (follows s t) + bit (store == s))
    → bit (follows store after) ≤ item_count store after
    → IsNonempty after
IsNonempty-grown store t after h more kept here s = elim (Bool-cases (store == s)) [
  | inl e ↦
      subst (λ x. bit (follows x after) ≤ item_count x after) ((text_beq_iff store s).0 e) here
  | inr e ↦ omega (arith, h s, more s e, kept s, ap bit e)
]

pub bit-below : (b : Bool) (n : ℕ) → 1 ≤ n → bit b ≤ n
bit-below true n h = h
bit-below false n h = omega arith

-- Writes to the registry alone.
pub follows-insert :
    (store : Text) (row : MixStore) (t : MixTables) (s : Text)
    → bit (follows s (record t { stores = insert store row t.stores }))
      ≤ bit (follows s t) + bit (store == s)
unfolding follows_list
follows-insert store row t s = ground (arith, lookup-insert store s row t.stores)

pub follows-inserted :
    (store : Text) (row : MixStore) (t : MixTables)
    → follows store (record t { stores = insert store row t.stores })
      ≡ (row.is_active && is_list row.mode)
unfolding follows_list
follows-inserted store row t =
    ground (arith, lookup-insert store store row t.stores, beq_refl store)

pub IsNonempty-registry :
    (store : Text) (row : MixStore) (t : MixTables)
    → IsNonempty t
    → bit (row.is_active && is_list row.mode) ≤ item_count store t
    → IsNonempty (record t { stores = insert store row t.stores })
unfolding item_count
IsNonempty-registry store row t h fits =
    IsNonempty-grown store t (record t { stores = insert store row t.stores }) h
      (λ s other. omega arith) (follows-insert store row t)
      (omega (arith, fits, ap bit (follows-inserted store row t)))

-- Writes to the items alone.
pub IsNonempty-items :
    (t : MixTables) (items : Items)
    → IsNonempty t
    → ((s : Text) → count_if (is_item_of s) (keys t.items) ≤ count_if (is_item_of s) (keys items))
    → IsNonempty (record t { items = items })
unfolding item_count
IsNonempty-items t items h more s = omega (arith, h s, more s)

pub IsNonempty-update :
    (store : Text) (f : MixStore → MixStore) (t : MixTables)
    → IsNonempty t
    → ((row : MixStore)
        → bit ((f row).is_active && is_list (f row).mode) ≤ bit (row.is_active && is_list row.mode))
    → IsNonempty (update_store store f t)
unfolding update_store follows_list
IsNonempty-update store f t h less = elim (Option-cases (lookup store t.stores)) [
  | inl e ↦ rw (e, update_store) h
  | inr (row, e) ↦
      rw (e, update_store)
        (IsNonempty-registry store (f row) t h
          (omega (arith, h store, less row, ap (λ o. bit (follows_list o)) e)))
]

pub IsNonempty-update_some :
    (store : Text) (f : MixStore → MixStore) (t : MixTables)
    → IsNonempty t
    → 1 ≤ item_count store t
    → IsNonempty (update_store store f t)
unfolding update_store
IsNonempty-update_some store f t h enough = elim (Option-cases (lookup store t.stores)) [
  | inl e ↦ rw (e, update_store) h
  | inr (row, e) ↦
      rw (e, update_store)
        (IsNonempty-registry store (f row) t h
          (bit-below ((f row).is_active && is_list (f row).mode) (item_count store t) enough))
]

pub seed_items-IsNonempty :
    (l : Letters) (store : Text) (t : MixTables)
    → IsNonempty t
    → IsNonempty (seed_items l store t).0
unfolding seed_items
seed_items-IsNonempty l store t h =
    IsNonempty-items t (insert_missing (seed_rows l store t) t.items).0 h
      (λ s. count-insert_missing (is_item_of s) (seed_rows l store t) t.items)

module _ (l : Letters) (store : Text) (t : MixTables) where
  -- Seeding that is not refused leaves the store with items, and the registry and the other stores'
  -- items as they were.
  pub record HasSeeded (out : MixTables × ℕ) : Type 0 where
    pub same : out ≡ seed_items l store t
    pub some_items : 1 ≤ item_count store out.0

  pub seed_some-HasSeeded : (e : MixError) → Ensures HasSeeded (seed_some l store e t)
  unfolding seed_some
  seed_some-HasSeeded e =
      Ensures-check HasSeeded (not (item_count store (seed_items l store t).0 == 0)) e
        (gives (seed_items l store t))
        (λ nonzero. record {
          same = refl;
          some_items = ground (arith, nat_beq_iff (item_count store (seed_items l store t).0) 0);
        })

-- A removal that took nothing, or left something.
pub drop_keys-IsNonempty :
    (store : Text) (p : Text × Text → Bool) (t : MixTables)
    → IsNonempty t
    → ((s : Text) → (store == s) ≡ false → count_if (λ k. is_item_of s k && p k) (keys t.items) ≡ 0)
    → bit (follows store t) ≤ item_count store (record t { items = drop_keys p t.items })
    → IsNonempty (record t { items = drop_keys p t.items })
unfolding item_count
drop_keys-IsNonempty store p t h others here s = elim (Bool-cases (store == s)) [
  | inl e ↦
      subst (λ x. bit (follows x t) ≤ item_count x (record t { items = drop_keys p t.items }))
        ((text_beq_iff store s).0 e) here
  | inr e ↦ omega (arith, h s, others s e, count-drop_keys (is_item_of s) p t.items)
]
