-- ===== src/Mix/Types.antt =====
-- The tables of the product mixes (sql/migrations/2026-08-01-store-mix-overrides.sql) and the texts
-- that logo-admin/mix_service.py, mutations.py and routes_api.py clean. The columns that only say who
-- changed a row, and when, are left out.
use arb_data_warehouse.Outcomes.{Fallible}
use arb_data_warehouse.Planner.Names.{is_space}
use arb_data_warehouse.Prelude.{
  Bool, Dict, List, Option, Text, [], false, if◌then◌else◌, is_empty, none, some, text, true, ℕ,
  ◌++◌, ◌==◌, ◌∷◌, nat_eq, text_eq, pair_eq,
}

-- What the program takes from its runtimes: str.upper and str.lower in Python, and upper(btrim(s)) in the
-- database.
pub record Letters : Type 0 where
  pub upper : Text → Text
  pub lower : Text → Text
  pub canonical : Text → Text

-- The words of a text: the word that it starts with, empty if it starts with a space, and the others.
unfoldable pub flush : Text → List Text → List Text
flush [] words = words
flush (c ∷ cs) words = (c ∷ cs) ∷ words

unfoldable pub first_word : Text → Text × List Text
first_word [] = ([], [])
first_word (c ∷ cs) =
    let rest = first_word cs in
    if is_space c then ([], flush rest.0 rest.1) else (c ∷ rest.0, rest.1)

-- `s.split()`
unfoldable pub split_words : Text → List Text
split_words s = flush (first_word s).0 (first_word s).1

-- `" ".join(words)`
unfoldable pub join_words : List Text → Text
join_words [] = []
join_words (w ∷ ws) = let rest = join_words ws in if is_empty ws then w else w ++ 32 ∷ rest

-- `" ".join(s.split())`
unfoldable pub single_spaced : Text → Text
single_spaced s = join_words (split_words s)

unfoldable pub norm : Letters → Text → Text
norm l s = l.upper (single_spaced s)

pub data MixMode : Type 0 where
  all_styles : MixMode
  list_styles : MixMode

-- A row of woo.store_mix_store.
pub record MixStore : Type 0 where
  pub mode : MixMode
  pub is_active : Bool
  pub note : Text
  pub imported_at : Option ℕ

pub data ItemSource : Type 0 where
  imported : ItemSource
  manual : ItemSource

-- A row of woo.store_mix_item: no colors stand for all of them, and no excludes for NULL.
pub record MixItem : Type 0 where
  pub colors : Option (List Text)
  pub size_excludes : Dict Text (List Text)
  pub source : ItemSource

-- A row of woo.store_mix_candidate.
pub record Candidate : Type 0 where
  pub store : Text
  pub style_code : Text
  pub colors : Option (List Text)

-- What of a row of woo.store_product_state is read.
pub record StateRow : Type 0 where
  pub store : Text
  pub style_code : Option Text
  pub color_code : Option Text
  pub size_code : Option Text
  pub is_variation : Bool
  pub is_active : Bool

-- A row of woo.virtual_catalog_store.
pub record VirtualStore : Type 0 where
  pub catalog_id : Text
  pub note : Text

pub record MixTables : Type 0 where
  pub catalog : List Text
  pub virtual_stores : Dict Text VirtualStore
  pub stores : Dict Text MixStore
  pub items : Dict (Text × Text) MixItem
  pub candidates : List Candidate
  pub state : List StateRow

-- The errors, by what they say. The routes answer them with a status, the commands raise them.
pub data MixError : Type 0 where
  unknown_mode : MixError
  unknown_store : MixError
  no_custom_list : MixError
  follows_fdm4 : MixError
  nothing_to_seed : MixError
  would_be_empty : MixError
  invalid_text : MixError
  entry_too_long : MixError
  too_many_entries : MixError
  no_styles : MixError
  none_listed : MixError
  already_overridden : MixError
  already_external : MixError
  uses_list : MixError
  not_external : MixError
  no_colors : MixError
  unknown_color : MixError
  excluded_color : MixError
  unknown_size : MixError
  excludes_all_sizes : MixError

-- An error rolls the transaction back.
abbrev pub MixResult {ℓ} : Type ℓ → Type ℓ
MixResult A = Fallible MixError A

abbrev pub is_list : MixMode → Bool
is_list all_styles = false
is_list list_styles = true

-- `mode in MIX_MODES`, and which one it is.
unfoldable pub mode_of : Text → Option MixMode
mode_of s =
    if s == text "all" then some all_styles else if s == text "list" then some list_styles else none
