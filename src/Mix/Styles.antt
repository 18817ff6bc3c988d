-- ===== src/Mix/Styles.antt =====
-- The configuration of one style: its known colors and sizes (mix_style_universe of
-- logo-admin/queries.py) and the check of what an operator asks for (routes_api.py:
-- _mix_clean_style_config, with _clean_list of mutations.py). Names and labels are left out.
use arb_data_warehouse.Outcomes.{check, gives, ◌>>=◌, ◌>>◌}
use arb_data_warehouse.Prelude.{
  Bool, Dict, List, Option, Text, [], contains, false, if◌then◌else◌, insert, is_empty, is_subset,
  keep_if, length, ltb, map, none, not, set_add, set_union, some, sorted_texts, true, values, ℕ,
  ◌&&◌, ◌++◌, ◌==◌, ◌||◌, ◌∷◌, nat_eq, text_eq, pair_eq,
}
use arb_data_warehouse.Mix.Types.{
  Candidate, Letters, MixResult, MixTables, StateRow, entry_too_long, excluded_color,
  excludes_all_sizes, no_colors, norm, single_spaced, too_many_entries, unknown_color, unknown_size,
}
use arb_data_warehouse.Mix.Seeds.{code_of}
use arb_data_warehouse.Mix.Service.{is_some}

unfoldable pub clean_entries : Letters → List Text → List Text → MixResult (List Text)
clean_entries l out [] = gives out
clean_entries l out (s ∷ rest) = do
  let v = single_spaced s
  check (not (ltb 100 (length v))) entry_too_long
  let u = l.upper v
  clean_entries l (if is_empty u then out else set_add out u) rest

-- `_clean_list(values, upper=True, maxitems=...)`
unfoldable pub clean_list : Letters → ℕ → List Text → MixResult (List Text)
clean_list l most values = do
  out ← clean_entries l [] values
  check (not (ltb most (length out))) too_many_entries
  gives out

-- A color channel of a style, with the codes of its sizes.
pub record Channel : Type 0 where
  pub color : Text
  pub sizes : List Text

abbrev pub color_of : Channel → Text
color_of c = c.color

-- A variation of the style that has a color.
unfoldable pub is_variation_of : Letters → Text → Text → StateRow → Bool
is_variation_of l store style r =
    r.store == store
    && (is_some r.style_code
        && (code_of l r.style_code == style
            && (r.is_variation && not (is_empty (code_of l r.color_code)))))

unfoldable pub sizes_of : Letters → Text → List StateRow → List Text
sizes_of l color [] = []
sizes_of l color (r ∷ rs) =
    let rest = sizes_of l color rs in
    if code_of l r.color_code == color && not (is_empty (code_of l r.size_code))
    then set_add rest (code_of l r.size_code)
    else rest

unfoldable pub row_colors : Letters → List StateRow → List Text
row_colors l [] = []
row_colors l (r ∷ rs) = code_of l r.color_code ∷ row_colors l rs

unfoldable pub channels_of : Letters → List StateRow → List Text → List Channel
channels_of l rows [] = []
channels_of l rows (color ∷ colors) =
    record { color = color; sizes = sizes_of l color rows } ∷ channels_of l rows colors

-- Colors of the candidate that no row has.
unfoldable pub add_channels : Letters → List Text → List Channel → List Channel
add_channels l [] channels = channels
add_channels l (c ∷ cs) channels =
    let color = norm l c in
    add_channels l cs (
      if is_empty color || contains (map color_of channels) color
      then channels
      else channels ++ record { color = color; sizes = [] } ∷ [])

unfoldable pub candidate_colors : Letters → Text → Text → List Candidate → List Text
candidate_colors l store style [] = []
candidate_colors l store style (c ∷ cs) =
    let rest = candidate_colors l store style cs in
    if c.store == store && l.canonical c.style_code == style
    then (elim c.colors [ none ↦ [] | some colors ↦ colors ])
    else rest

unfoldable pub mix_style_universe : Letters → Text → Text → MixTables → List Channel
mix_style_universe l store style t =
    let rows = keep_if (is_variation_of l store style) t.state in
    add_channels l (candidate_colors l store style t.candidates)
      (channels_of l rows (sorted_texts (set_union [] (row_colors l rows))))

-- `known_sizes.get(color)`
unfoldable pub known_sizes : List Channel → Text → List Text
known_sizes [] color = []
known_sizes (c ∷ cs) color =
    let rest = known_sizes cs color in if c.color == color then c.sizes else rest

-- One color's sizes, once the color is an included one.
unfoldable pub clean_sizes : List Text → List Text → MixResult (List Text)
clean_sizes known sizes = do
  check (is_subset sizes known) unknown_size
  check (not (is_subset known sizes && not (is_empty known))) excludes_all_sizes
  gives sizes

unfoldable pub clean_exclude :
    Letters
    → List Channel
    → List Text
    → Text
    → List Text
    → Dict Text (List Text)
    → MixResult (Dict Text (List Text))
clean_exclude l available allowed color raw_sizes out = elim (is_empty color) [
  | true ↦ gives out
  | false ↦ (do
    check (contains allowed color) excluded_color
    sizes ← clean_list l 5000 raw_sizes
    elim (is_empty sizes) [
      | true ↦ gives out
      | false ↦ (do
        kept ← clean_sizes (known_sizes available color) sizes
        gives (insert color kept out))
    ])
]

unfoldable pub clean_excludes :
    Letters
    → List Channel
    → List Text
    → Dict Text (List Text)
    → Dict Text (List Text)
    → MixResult (Dict Text (List Text))
clean_excludes l available allowed [] out = gives out
clean_excludes l available allowed ((raw_color, raw_sizes) ∷ rest) out = do
  out' ← clean_exclude l available allowed (norm l raw_color) raw_sizes out
  clean_excludes l available allowed rest out'

unfoldable pub clean_colors :
    Letters → List Channel → Option (List Text) → MixResult (Option (List Text))
clean_colors l available none = gives none
clean_colors l available (some colors) = do
  cleaned ← clean_list l 5000 colors
  check (not (is_empty cleaned)) no_colors
  check (is_subset cleaned (map color_of available)) unknown_color
  gives (some cleaned)

abbrev pub included : List Channel → Option (List Text) → List Text
included available none = map color_of available
included available (some colors) = colors

unfoldable pub clean_style_config :
    Letters
    → Option (List Text)
    → Dict Text (List Text)
    → List Channel
    → MixResult (Option (List Text) × Dict Text (List Text))
clean_style_config l colors size_excludes available = do
  cleaned ← clean_colors l available colors
  excludes ← clean_excludes l available (included available cleaned) size_excludes []
  gives (cleaned, excludes)
