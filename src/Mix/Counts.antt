-- ===== src/Mix/Counts.antt =====
-- How the writes to woo.store_mix_item move its lookups and the numbers of a store's items
-- (logo-admin/mix_service.py).
use arb_data_warehouse.Prelude.{
  Bool, Bool-cases, Dict, Eq, List, Option-cases, Text, [], ap, arith, contains, count_if, false,
  has_key, if◌then◌else◌, inl, inr, insert, keys, lookup, lookup-insert, none, pair_beq,
  pair_beq_iff, refl, set_default, some, sym, text_beq_iff, true, ◌&&◌, ◌+◌, ◌==◌, ◌||◌, ◌∙◌, ◌∷◌,
  ◌≡◌, ◌≤◌, nat_eq, text_eq, pair_eq,
}
use arb_data_warehouse.Mix.Types.{MixItem}
use arb_data_warehouse.Mix.Seeds.{insert_missing}
use arb_data_warehouse.Mix.Service.{drop_keys, insert_styles, is_named, manual_item}

module _ {K V : Type 0} ⦃e : Eq K⦄ where
  pub count-insert :
      (p : K → Bool) (k : K) (v : V) (d : Dict K V)
      → count_if p (keys d) ≤ count_if p (keys (insert k v d))
  unfolding count_if insert
  count-insert p k v [] = omega arith
  count-insert p k v ((j, w) ∷ d) = elim (Bool-cases (j == k)) [
    | inl h ↦ rw h (omega arith)
    | inr h ↦ rw h (omega (arith, count-insert p k v d))
  ]

  -- The key that a write wrote is there to be counted.
  pub count-inserted :
      (p : K → Bool) (k : K) (v : V) (d : Dict K V)
      → p k ≡ true
      → 1 ≤ count_if p (keys (insert k v d))
  unfolding count_if insert
  count-inserted p k v [] h = rw h (omega arith)
  count-inserted p k v ((j, w) ∷ d) h = elim (Bool-cases (j == k)) [
    | inl same ↦
        let here : p j ≡ true = ap p ((e.same_iff j k).0 same) ∙ h in rw (same, here) (omega arith)
    | inr other ↦ rw other (omega (arith, count-inserted p k v d h))
  ]

  pub count-set_default :
      (p : K → Bool) (k : K) (v : V) (d : Dict K V)
      → count_if p (keys d) ≤ count_if p (keys (set_default k v d))
  unfolding set_default
  count-set_default p k v d = elim (Option-cases (lookup k d)) [
    | inl new ↦ rw (new, set_default) (count-insert p k v d)
    | inr (w, old) ↦ rw (old, set_default) (omega arith)
  ]

  pub lookup-set_default :
      (k j : K) (v : V) (d : Dict K V)
      → lookup j (set_default k v d)
        ≡ (if has_key j d then lookup j d else if k == j then some v else none)
  unfolding set_default has_key
  lookup-set_default k j v d = elim (Option-cases (lookup k d)) [
    | inl new ↦
        rw (new, set_default)
          (elim (Bool-cases (k == j)) [
            | inl same ↦
                let gone : lookup j d ≡ none =
                  ap (λ i. lookup i d) (sym ((e.same_iff k j).0 same)) ∙ new in
                ground (arith, lookup-insert k j v d)
            | inr other ↦ ground (arith, lookup-insert k j v d)
          ])
    | inr (w, old) ↦
        rw (old, set_default)
          (elim (Bool-cases (k == j)) [
            | inl same ↦
                let there : lookup j d ≡ some w =
                  ap (λ i. lookup i d) (sym ((e.same_iff k j).0 same)) ∙ old in
                ground arith
            | inr other ↦ ground arith
          ])
  ]

  pub has_key-none : (k : K) (d : Dict K V) → lookup k d ≡ none → has_key k d ≡ false
  unfolding has_key
  has_key-none k d h = rw (h, has_key)

  pub has_key-some : (k : K) (v : V) (d : Dict K V) → lookup k d ≡ some v → has_key k d ≡ true
  unfolding has_key
  has_key-some k v d h = rw (h, has_key)

abbrev pub Items : Type 0
Items = Dict (Text × Text) MixItem

pub count-insert_missing :
    (p : Text × Text → Bool) (rows : List ((Text × Text) × MixItem)) (items : Items)
    → count_if p (keys items) ≤ count_if p (keys (insert_missing rows items).0)
unfolding insert_missing
count-insert_missing p [] items = omega arith
count-insert_missing p ((key, item) ∷ rows) items = omega (
  arith,
  count-set_default p key item items,
  count-insert_missing p rows (set_default key item items),
)

pub count-insert_styles :
    (p : Text × Text → Bool) (store : Text) (styles : List Text) (items : Items)
    → count_if p (keys items) ≤ count_if p (keys (insert_styles store styles items).0)
unfolding insert_styles
count-insert_styles p store [] items = omega arith
count-insert_styles p store (style ∷ styles) items =
    elim (Bool-cases (has_key (store, style) items)) [
      | inl h ↦ rw h (
          omega (
            arith,
            count-set_default p (store, style) manual_item items,
            count-insert_styles p store styles (set_default (store, style) manual_item items),
          ))
      | inr h ↦ rw h (
          omega (
            arith,
            count-set_default p (store, style) manual_item items,
            count-insert_styles p store styles (set_default (store, style) manual_item items),
          ))
    ]

-- Of the keys that a test counts, dropping takes those that it is to drop.
pub count-drop_keys :
    (q p : Text × Text → Bool) (items : Items)
    → count_if q (keys (drop_keys p items)) + count_if (λ k. q k && p k) (keys items)
      ≡ count_if q (keys items)
unfolding count_if drop_keys
count-drop_keys q p [] = omega arith
count-drop_keys q p ((key, item) ∷ items) = elim (Bool-cases (p key)) [
  | inl h ↦ rw h (ground (arith, count-drop_keys q p items))
  | inr h ↦ rw h (ground (arith, count-drop_keys q p items))
]

pub lookup-drop_keys :
    (p : Text × Text → Bool) (key : Text × Text) (items : Items)
    → lookup key (drop_keys p items) ≡ (if p key then none else lookup key items)
unfolding drop_keys lookup
lookup-drop_keys p key [] = ground arith
lookup-drop_keys p key ((k, item) ∷ items) = elim (Bool-cases (k == key)) [
  | inl same ↦
      let here : p k ≡ p key = ap p ((pair_beq_iff k key).0 same) in
      elim (Bool-cases (p key)) [
        | inl h ↦
            let gone : p k ≡ true = here ∙ h in rw (gone, lookup-drop_keys p key items, h) refl
        | inr h ↦ let kept : p k ≡ false = here ∙ h in rw (kept, h, same) refl
      ]
  | inr other ↦ elim (Bool-cases (p k)) [
    | inl h ↦ rw (h, other) (lookup-drop_keys p key items)
    | inr h ↦ rw (h, other) (lookup-drop_keys p key items)
  ]
]

-- Seeding leaves what is there, adds what is missing, and the first row of a key counts.
pub lookup-insert_missing :
    (rows : List ((Text × Text) × MixItem)) (items : Items) (key : Text × Text)
    → lookup key (insert_missing rows items).0
      ≡ (if has_key key items then lookup key items else lookup key rows)
unfolding insert_missing has_key lookup
lookup-insert_missing [] items key = ground arith
lookup-insert_missing ((k, item) ∷ rows) items key = ground (
  arith,
  lookup-insert_missing rows (set_default k item items) key,
  lookup-set_default k key item items,
)

insert_styles-first :
    (store style : Text) (styles : List Text) (items : Items)
    → (insert_styles store (style ∷ styles) items).0
      ≡ (insert_styles store styles (set_default (store, style) manual_item items)).0
unfolding insert_styles
insert_styles-first store style styles items = elim (Bool-cases (has_key (store, style) items)) [
  | inl h ↦ rw h refl
  | inr h ↦ rw h refl
]

is_named-cons :
    (store style : Text) (styles : List Text) (key : Text × Text)
    → is_named store (style ∷ styles) key ≡ ((store, style) == key || is_named store styles key)
unfolding is_named contains pair_beq
is_named-cons store style styles (s, c) =
    ground (
      arith,
      text_beq_iff s store,
      text_beq_iff store s,
      text_beq_iff c style,
      text_beq_iff style c,
    )

pub lookup-insert_styles :
    (store : Text) (styles : List Text) (items : Items) (key : Text × Text)
    → lookup key (insert_styles store styles items).0 ≡ (
        if has_key key items
        then lookup key items
        else if is_named store styles key
        then some manual_item
        else none)
unfolding insert_styles is_named contains
lookup-insert_styles store [] items key = elim (Option-cases (lookup key items)) [
  | inl new ↦ ground (arith, has_key-none key items new)
  | inr (w, old) ↦ ground (arith, has_key-some key w items old)
]
lookup-insert_styles store (style ∷ styles) items key =
    ap (lookup key) (insert_styles-first store style styles items)
    ∙ lookup-insert_styles store styles (set_default (store, style) manual_item items) key
    ∙ (elim (Option-cases (lookup key items)) [
      | inl new ↦
          let was : has_key key items ≡ false = has_key-none key items new in
          elim (Bool-cases ((store, style) == key)) [
            | inl same ↦
                let now : lookup key (set_default (store, style) manual_item items)
                    ≡ some manual_item =
                  ground (arith, lookup-set_default (store, style) key manual_item items) in
                rw (
                  has_key-some key manual_item (set_default (store, style) manual_item items) now,
                  now,
                  was,
                  is_named-cons store style styles key,
                  same,
                )
            | inr other ↦
                let now : lookup key (set_default (store, style) manual_item items) ≡ none =
                  ground (arith, lookup-set_default (store, style) key manual_item items) in
                rw (
                  has_key-none key (set_default (store, style) manual_item items) now,
                  was,
                  is_named-cons store style styles key,
                  other,
                )
          ]
      | inr (w, old) ↦
          let was : has_key key items ≡ true = has_key-some key w items old in
          let now : lookup key (set_default (store, style) manual_item items) ≡ some w =
            ground (arith, lookup-set_default (store, style) key manual_item items) in
          rw (has_key-some key w (set_default (store, style) manual_item items) now, now, was, old)
    ])
