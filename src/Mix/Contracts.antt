-- ===== src/Mix/Contracts.antt =====
-- What seeding, adding and removing styles do to every item (logo-admin/mix_service.py).
use arb_data_warehouse.Prelude.{
  Bool-cases, List, Option-cases, Text, [], ap, arith, beq_refl, bit, contains, false, has_key,
  has_key-insert, if◌then◌else◌, inl, inr, insert, length, lookup, none, not, pair_beq, refl,
  set_default, suc, text_beq_iff, true, ◌&&◌, ◌+◌, ◌==◌, ◌∙◌, ◌∷◌, ◌≡◌, nat_eq, text_eq, pair_eq,
}
use arb_data_warehouse.Mix.Types.{Letters, MixItem, MixTables}
use arb_data_warehouse.Mix.Seeds.{insert_missing, seed_items, seed_rows}
use arb_data_warehouse.Mix.Service.{insert_styles, manual_item}
use arb_data_warehouse.Mix.Counts.{Items, has_key-some, lookup-insert_missing}

length-insert_new :
    (key : Text × Text) (item : MixItem) (items : Items)
    → lookup key items ≡ none
    → length (insert key item items) ≡ suc (length items)
unfolding insert lookup
length-insert_new key item [] new = refl
length-insert_new key item ((k, i) ∷ items) new = elim (Bool-cases (k == key)) [
  | inl e ↦ absurd (ground arith)
  | inr e ↦ rw e (omega (arith, length-insert_new key item items (ground arith)))
]

pub length-set_default :
    (key : Text × Text) (item : MixItem) (items : Items)
    → length (set_default key item items) ≡ length items + bit (not (has_key key items))
unfolding set_default has_key
length-set_default key item items = elim (Option-cases (lookup key items)) [
  | inl new ↦ rw (new, set_default, has_key) (omega (arith, length-insert_new key item items new))
  | inr (w, old) ↦ rw (old, set_default, has_key) (omega arith)
]

length-insert_missing :
    (rows : List ((Text × Text) × MixItem)) (items : Items)
    → length (insert_missing rows items).0 ≡ length items + (insert_missing rows items).1
unfolding insert_missing
length-insert_missing [] items = omega arith
length-insert_missing ((key, item) ∷ rows) items = omega (
  arith,
  length-set_default key item items,
  length-insert_missing rows (set_default key item items),
)

-- Seeding a store never touches an item that is there, of this store or another; an item that was
-- missing is the first seed row of its key, if there is one; and the number it returns is that of the new
-- items.
pub seed_items-merges :
    (l : Letters) (store : Text) (t : MixTables)
    → ((key : Text × Text)
        → lookup key ((seed_items l store t).0).items
          ≡ (if has_key key t.items then lookup key t.items else lookup key (seed_rows l store t)))
      × (length ((seed_items l store t).0).items ≡ length t.items + (seed_items l store t).1)
unfolding seed_items
seed_items-merges l store t = (
  lookup-insert_missing (seed_rows l store t) t.items,
  length-insert_missing (seed_rows l store t) t.items,
)

has_key-set_default :
    (key : Text × Text) (item : MixItem) (items : Items)
    → has_key key (set_default key item items) ≡ true
unfolding set_default
has_key-set_default key item items = elim (Option-cases (lookup key items)) [
  | inl new ↦
      rw (new, set_default) (has_key-insert key key item items ∙ ground (arith, beq_refl key))
  | inr (w, old) ↦ rw (old, set_default) (has_key-some key w items old)
]

has_key-set_default_other :
    (store style s : Text) (items : Items)
    → (s == style) ≡ false
    → has_key (store, s) (set_default (store, style) manual_item items) ≡ has_key (store, s) items
unfolding set_default pair_beq
has_key-set_default_other store style s items other =
    elim (Option-cases (lookup (store, style) items)) [
      | inl new ↦
          rw (new, set_default)
            (has_key-insert (store, style) (store, s) manual_item items
              ∙ ground (arith, text_beq_iff style s, text_beq_iff s style))
      | inr (w, old) ↦ rw (old, set_default) refl
    ]

-- Which of the named styles are reported as added.
pub contains-added :
    (store : Text) (styles : List Text) (items : Items) (s : Text)
    → contains (insert_styles store styles items).1 s
      ≡ (contains styles s && not (has_key (store, s) items))
unfolding insert_styles contains
contains-added store [] items s = refl
contains-added store (style ∷ styles) items s =
    let rest : contains
          (insert_styles store styles (set_default (store, style) manual_item items)).1 s
        ≡ (contains styles s
            && not (has_key (store, s) (set_default (store, style) manual_item items))) =
      contains-added store styles (set_default (store, style) manual_item items) s in
    elim (Bool-cases (s == style)) [
      | inl e ↦
          let there : has_key (store, style) (set_default (store, style) manual_item items) ≡ true =
            has_key-set_default (store, style) manual_item items in
          let same : s ≡ style = (text_beq_iff s style).0 e in
          let at_style : has_key (store, s) items ≡ has_key (store, style) items =
            ap (λ x. has_key (store, x) items) same in
          let after : has_key (store, s) (set_default (store, style) manual_item items) ≡ true =
            ap (λ x. has_key (store, x) (set_default (store, style) manual_item items)) same
            ∙ there in
          elim (Bool-cases (has_key (store, style) items)) [
            | inl h ↦ rw h (ground arith)
            | inr h ↦ rw h (ground arith)
          ]
      | inr e ↦
          let unmoved : has_key (store, s) (set_default (store, style) manual_item items)
              ≡ has_key (store, s) items =
            has_key-set_default_other store style s items e in
          elim (Bool-cases (has_key (store, style) items)) [
            | inl h ↦ rw h (ground arith)
            | inr h ↦ rw h (ground arith)
          ]
    ]
