-- ===== src/Mix/Config.antt =====
-- What a style's configuration leaves to sell (logo-admin/routes_api.py: _mix_clean_style_config).
use mathlib.Core.Path.{subst}
use arb_data_warehouse.Outcomes.{
  Ensures, Ensures-bind, Ensures-check, Ensures-gives, anything, gives,
}
use arb_data_warehouse.Prelude.{
  All, Bool-cases, Dict, List, Option, Text, [], arith, contains, false, inl, inr, insert, is_empty,
  is_subset, map, none, not, some, sym, text_beq_iff, true, ◌&&◌, ◌==◌, ◌∷◌, ◌≡◌, nat_eq, text_eq,
  pair_eq,
}
use arb_data_warehouse.Mix.Types.{
  Letters, excluded_color, excludes_all_sizes, no_colors, norm, unknown_color, unknown_size,
}
use arb_data_warehouse.Mix.Styles.{
  Channel, clean_colors, clean_exclude, clean_excludes, clean_list, clean_sizes, clean_style_config,
  color_of, included, known_sizes,
}

-- An exclusion of an included color takes known sizes, at least one of them and not all.
pub record LeavesSizes (available : List Channel) (allowed : List Text) (entry : Text × List Text)
    : Type 0 where
  pub color_included : contains allowed entry.0 ≡ true
  pub some_excluded : is_empty entry.1 ≡ false
  pub sizes_known : is_subset entry.1 (known_sizes available entry.0) ≡ true
  pub some_left : is_subset (known_sizes available entry.0) entry.1 ≡ false

-- Colors that are named are known, and there is one.
abbrev pub ColorsFit : List Channel → Option (List Text) → Type 0
ColorsFit available none = Unit
ColorsFit available (some colors) =
    (is_empty colors ≡ false) × (is_subset colors (map color_of available) ≡ true)

All-insert_pair :
    (P : Text × List Text → Type 0) (k : Text) (v : List Text) (d : Dict Text (List Text))
    → All P d
    → P (k, v)
    → All P (insert k v d)
unfolding insert
All-insert_pair P k v [] a h = (h, tt)
All-insert_pair P k v ((j, w) ∷ d) a h = elim (Bool-cases (j == k)) [
  | inl e ↦ rw e (subst (λ x. P (x, v)) (sym ((text_beq_iff j k).0 e)) h, a.1)
  | inr e ↦ rw e (a.0, All-insert_pair P k v d a.1 h)
]

some_size_left :
    (known sizes : List Text)
    → is_empty sizes ≡ false
    → is_subset sizes known ≡ true
    → not (is_subset known sizes && not (is_empty known)) ≡ true
    → is_subset known sizes ≡ false
unfolding is_subset contains
some_size_left [] [] some_sizes sub h = absurd (cc)
some_size_left [] (s ∷ sizes) some_sizes sub h = absurd (cc)
some_size_left (k ∷ known) sizes some_sizes sub h = ground arith

module _ (l : Letters) (available : List Channel) (allowed : List Text) where
  FitsAll : Dict Text (List Text) → Type 0
  FitsAll = All (LeavesSizes available allowed)

  clean_sizes-LeavesSizes :
      (color : Text) (sizes : List Text)
      → contains allowed color ≡ true
      → is_empty sizes ≡ false
      → Ensures
          (λ kept. LeavesSizes available allowed (color, kept))
          (clean_sizes (known_sizes available color) sizes)
  unfolding clean_sizes
  clean_sizes-LeavesSizes color sizes included_one some_sizes =
      let known : List Text = known_sizes available color in
      let P : List Text → Type 0 = λ kept. LeavesSizes available allowed (color, kept) in
      Ensures-check P (is_subset sizes known) unknown_size _ (λ all_known.
        Ensures-check P (not (is_subset known sizes && not (is_empty known))) excludes_all_sizes _
          (λ left. record {
            color_included = included_one;
            some_excluded = some_sizes;
            sizes_known = all_known;
            some_left = some_size_left known sizes some_sizes all_known left;
          }))

  clean_exclude-FitsAll :
      (color : Text) (raw_sizes : List Text) (out : Dict Text (List Text))
      → FitsAll out
      → Ensures FitsAll (clean_exclude l available allowed color raw_sizes out)
  unfolding FitsAll clean_exclude
  clean_exclude-FitsAll color raw_sizes out h = elim (Bool-cases (is_empty color)) [
    | inl blank ↦ rw (blank, clean_exclude) h
    | inr named ↦
        rw (named, clean_exclude)
          (Ensures-check FitsAll (contains allowed color) excluded_color _ (λ included_one.
            Ensures-bind FitsAll (λ s. Unit) (clean_list l 5000 raw_sizes) _
              (anything (clean_list l 5000 raw_sizes))
              (λ sizes u. elim (Bool-cases (is_empty sizes)) [
                | inl nothing ↦ rw nothing h
                | inr some_sizes ↦ rw some_sizes (
                    Ensures-bind FitsAll (λ kept. LeavesSizes available allowed (color, kept))
                      (clean_sizes (known_sizes available color) sizes) _
                      (clean_sizes-LeavesSizes color sizes included_one some_sizes)
                      (λ kept fits.
                        All-insert_pair (LeavesSizes available allowed) color kept out h fits))
              ])))
  ]

  clean_excludes-FitsAll :
      (raw out : Dict Text (List Text))
      → FitsAll out
      → Ensures FitsAll (clean_excludes l available allowed raw out)
  unfolding clean_excludes
  clean_excludes-FitsAll [] out h = h
  clean_excludes-FitsAll ((raw_color, raw_sizes) ∷ raw) out h =
      Ensures-bind FitsAll FitsAll
        (clean_exclude l available allowed (norm l raw_color) raw_sizes out) _
        (clean_exclude-FitsAll (norm l raw_color) raw_sizes out h)
        (λ out' h'. clean_excludes-FitsAll raw out' h')

clean_colors-ColorsFit :
    (l : Letters) (available : List Channel) (colors : Option (List Text))
    → Ensures (ColorsFit available) (clean_colors l available colors)
unfolding clean_colors
clean_colors-ColorsFit l available none = tt
clean_colors-ColorsFit l available (some colors) =
    let P : Option (List Text) → Type 0 = ColorsFit available in
    Ensures-bind P (λ c. Unit) (clean_list l 5000 colors) _ (anything (clean_list l 5000 colors))
      (λ cleaned u. Ensures-check P (not (is_empty cleaned)) no_colors _ (λ some_colors.
        Ensures-check P (is_subset cleaned (map color_of available)) unknown_color _
          (λ known. (ground arith, known))))

-- A configuration that is accepted keeps every channel sellable: colors that are named are known and not
-- none; each exclusion is of an included color, takes known sizes only and at least one, and leaves a size.
pub clean_style_config-LeavesSizes :
    (l : Letters) (colors : Option (List Text)) (size_excludes : Dict Text (List Text))
    (available : List Channel) (out : Option (List Text) × Dict Text (List Text))
    → clean_style_config l colors size_excludes available ≡ gives out
    → ColorsFit available out.0 × All (LeavesSizes available (included available out.0)) out.1
unfolding clean_style_config FitsAll
clean_style_config-LeavesSizes l colors size_excludes available out gave =
    let P : Option (List Text) × Dict Text (List Text) → Type 0 =
      λ o. ColorsFit available o.0 × All (LeavesSizes available (included available o.0)) o.1 in
    Ensures-gives P (clean_style_config l colors size_excludes available) out gave (
      Ensures-bind P (ColorsFit available) (clean_colors l available colors) _
        (clean_colors-ColorsFit l available colors)
        (λ cleaned fit.
          Ensures-bind P (FitsAll l available (included available cleaned))
            (clean_excludes l available (included available cleaned) size_excludes []) _
            (clean_excludes-FitsAll l available (included available cleaned) size_excludes [] tt)
            (λ excludes fits. (fit, fits))))
