-- ===== src/Mix/Seeds.antt =====
-- seed_items and item_count of logo-admin/mix_service.py.
use arb_data_warehouse.Prelude.{
  Bool, Dict, List, Option, Text, [], any_of, bit, count_if, has_key, if◌then◌else◌, is_empty,
  keep_if, keys, none, not, set_default, set_union, some, sorted_texts, ℕ, ◌&&◌, ◌+◌, ◌==◌, ◌∷◌,
  nat_eq, text_eq, pair_eq,
}
use arb_data_warehouse.Mix.Types.{Candidate, Letters, MixItem, MixTables, StateRow, imported}

-- `INSERT ... ON CONFLICT (fdm4_store, style_code) DO NOTHING`, row after row, and how many went in.
unfoldable pub insert_missing :
    List ((Text × Text) × MixItem) → Dict (Text × Text) MixItem → Dict (Text × Text) MixItem × ℕ
insert_missing [] items = (items, 0)
insert_missing ((key, item) ∷ rows) items =
    let rest = insert_missing rows (set_default key item items) in
    (rest.0, bit (not (has_key key items)) + rest.1)

-- `upper(btrim(s))`, and nothing where it is blank or NULL.
unfoldable pub code_of : Letters → Option Text → Text
code_of l none = []
code_of l (some s) = l.canonical s

abbrev pub seeded : Bool → Option (List Text) → MixItem
seeded is_virtual colors = record {
  colors = if is_virtual then none else colors;
  size_excludes = [];
  source = imported;
}

unfoldable pub is_candidate_of : Text → Candidate → Bool
is_candidate_of store c = c.store == store

unfoldable pub candidate_rows :
    Letters → Bool → Text → List Candidate → List ((Text × Text) × MixItem)
candidate_rows l is_virtual store [] = []
candidate_rows l is_virtual store (c ∷ cs) =
    let rest = candidate_rows l is_virtual store cs in
    if is_candidate_of store c && not (is_empty (l.canonical c.style_code))
    then ((store, l.canonical c.style_code), seeded is_virtual c.colors) ∷ rest
    else rest

-- A live product of the store that has a style.
unfoldable pub is_live_style : Letters → Text → StateRow → Bool
is_live_style l store r =
    r.store == store && (r.is_active && not (is_empty (code_of l r.style_code)))

-- `array_agg(DISTINCT upper(btrim(color_code))) FILTER (...)`: NULL when there is none.
-- The order is that of code points, where the database has its collation.
unfoldable pub color_codes : Letters → Text → List StateRow → List Text
color_codes l style [] = []
color_codes l style (r ∷ rs) =
    let rest = color_codes l style rs in
    if code_of l r.style_code == style
      && (r.is_variation && not (is_empty (code_of l r.color_code)))
    then code_of l r.color_code ∷ rest
    else rest

unfoldable pub null_if_empty : List Text → Option (List Text)
null_if_empty [] = none
null_if_empty (x ∷ xs) = some (x ∷ xs)

unfoldable pub state_colors : Letters → Text → List StateRow → Option (List Text)
state_colors l style rows = null_if_empty (sorted_texts (set_union [] (color_codes l style rows)))

-- `GROUP BY fdm4_store, upper(btrim(style_code))`, over the live rows.
unfoldable pub style_groups : Letters → List StateRow → List Text
style_groups l [] = []
style_groups l (r ∷ rs) = code_of l r.style_code ∷ style_groups l rs

unfoldable pub group_rows :
    Letters → Bool → Text → List StateRow → List Text → List ((Text × Text) × MixItem)
group_rows l is_virtual store live [] = []
group_rows l is_virtual store live (style ∷ styles) =
    ((store, style), seeded is_virtual (state_colors l style live))
    ∷ group_rows l is_virtual store live styles

unfoldable pub seed_rows : Letters → Text → MixTables → List ((Text × Text) × MixItem)
seed_rows l store t =
    let is_virtual = has_key store t.virtual_stores in
    let live = keep_if (is_live_style l store) t.state in
    if any_of (is_candidate_of store) t.candidates
    then candidate_rows l is_virtual store t.candidates
    else group_rows l is_virtual store live (set_union [] (style_groups l live))

unfoldable pub seed_items : Letters → Text → MixTables → MixTables × ℕ
seed_items l store t =
    let out = insert_missing (seed_rows l store t) t.items in (record t { items = out.0 }, out.1)

unfoldable pub is_item_of : Text → Text × Text → Bool
is_item_of store key = key.0 == store

unfoldable pub item_count : Text → MixTables → ℕ
item_count store t = count_if (is_item_of store) (keys t.items)
