-- ===== src/Draft/Slugs.antt =====
-- Names and web addresses of categories (logo-admin/categories_draft.py: clean_category_name, slugify,
-- _validate_slug). html.unescape and str.lower are parameters.
use arb_data_warehouse.Planner.Names.{collapse, decode, is_space, strip}
use arb_data_warehouse.Prelude.{
  Bool, Bool-cases, Text, [], ap, arith, false, if◌then◌else◌, inl, inr, is_empty, leb, not,
  or_else, refl, text, true, ℕ, ◌&&◌, ◌+◌, ◌==◌, ◌||◌, ◌∷◌, ◌≡◌, ◌⊎◌, nat_eq, text_eq, pair_eq,
}

-- Where a text stands in `(\s*&\s*(amp;?)*)+`: before an ampersand, behind one, within `amp`, behind it.
pub data Debris : Type 0 where
  wants_ampersand : Debris
  after_ampersand : Debris
  wants_m : Debris
  wants_p : Debris
  after_amp : Debris
  after_semicolon : Debris
  no_debris : Debris

abbrev pub either_case : ℕ → ℕ → Bool
either_case lower c = c == lower || c + 32 == lower

-- What may follow when a further `amp` or a further ampersand may.
abbrev pub debris_next : ℕ → Debris → Debris
debris_next c spaced =
    if c == b'&'
    then after_ampersand
    else if either_case b'a' c
    then wants_m
    else if is_space c
    then spaced
    else no_debris

unfoldable pub debris_step : ℕ → Debris → Debris
debris_step c wants_ampersand =
    if c == b'&' then after_ampersand else if is_space c then wants_ampersand else no_debris
debris_step c after_ampersand = debris_next c after_ampersand
debris_step c wants_m = if either_case b'm' c then wants_p else no_debris
debris_step c wants_p = if either_case b'p' c then after_amp else no_debris
debris_step c after_amp = if c == b';' then after_semicolon else debris_next c wants_ampersand
debris_step c after_semicolon = debris_next c wants_ampersand
debris_step c no_debris = no_debris

abbrev pub is_whole : Debris → Bool
is_whole after_ampersand = true
is_whole after_amp = true
is_whole after_semicolon = true
is_whole _ = false

unfoldable pub is_debris : Debris → Text → Bool
unfolding debris_step
is_debris state [] = is_whole state
is_debris state (c ∷ cs) = is_debris (debris_step c state) cs

-- `re.sub(r"(\s*&\s*(amp;?)*)+$", "", name)` on a text without space at its end.
unfoldable pub drop_debris : Text → Text
drop_debris [] = []
drop_debris (c ∷ cs) =
    let rest = drop_debris cs in if is_debris wants_ampersand (c ∷ cs) then [] else c ∷ rest

unfoldable pub clean_category_name : (Text → Text) → Text → Text
clean_category_name unescape name =
    let spaced = strip (collapse false (decode unescape 5 name)) in
    or_else (strip (drop_debris spaced)) spaced

-- `[a-z0-9]`
unfoldable pub is_slug_char : ℕ → Bool
is_slug_char c = (leb b'a' c && leb c b'z') || (leb b'0' c && leb c b'9')

-- `re.sub(r"['’]", "", value)`
unfoldable pub drop_apostrophes : Text → Text
drop_apostrophes [] = []
drop_apostrophes (c ∷ cs) =
    let rest = drop_apostrophes cs in if c == 39 || c == 0x2019 then rest else c ∷ rest

-- `re.sub(r"[^a-z0-9]+", "-", value)`; the flag says that the character before was replaced.
unfoldable pub hyphenate : Bool → Text → Text
hyphenate after [] = []
hyphenate after (c ∷ cs) =
    let rest = hyphenate (not (is_slug_char c)) cs in
    if is_slug_char c then c ∷ rest else if after then rest else b'-' ∷ rest

-- `value.strip("-")`
unfoldable pub lstrip_hyphens : Text → Text
lstrip_hyphens [] = []
lstrip_hyphens (c ∷ cs) = let rest = lstrip_hyphens cs in if c == b'-' then rest else c ∷ cs

unfoldable pub rstrip_hyphens : Text → Text
rstrip_hyphens [] = []
rstrip_hyphens (c ∷ cs) =
    let rest = rstrip_hyphens cs in if is_empty rest && c == b'-' then [] else c ∷ rest

unfoldable pub slugify : (Text → Text) → (Text → Text) → Text → Text
slugify unescape lower value =
    or_else
      (rstrip_hyphens (
        lstrip_hyphens
          (hyphenate false (drop_apostrophes (lower (clean_category_name unescape value))))))
      (text "category")

-- `^[a-z0-9]+(-[a-z0-9]+)*$`; the flag says that a letter or a digit must come.
unfoldable pub slug_from : Bool → Text → Bool
slug_from must [] = not must
slug_from must (c ∷ cs) =
    let rest = slug_from (not (is_slug_char c)) cs in
    if is_slug_char c then rest else (c == b'-' && not must) && rest

unfoldable pub is_slug : Text → Bool
is_slug s = slug_from true s

-- Words of slug characters joined by single hyphens, whatever stands at the end.
tidy : Bool → Text → Bool
tidy must [] = true
tidy must (c ∷ cs) =
    let rest = tidy (not (is_slug_char c)) cs in
    if is_slug_char c then rest else (c == b'-' && not must) && rest

hyphenate-tidy : (after : Bool) (s : Text) → tidy after (hyphenate after s) ≡ true
unfolding tidy hyphenate is_slug_char
hyphenate-tidy after [] = refl
hyphenate-tidy after (c ∷ cs) = ground (arith, hyphenate-tidy true cs, hyphenate-tidy false cs)

lstrip_hyphens-kept : (s : Text) → tidy true s ≡ true → lstrip_hyphens s ≡ s
unfolding tidy lstrip_hyphens is_slug_char
lstrip_hyphens-kept [] h = refl
lstrip_hyphens-kept (c ∷ cs) h = ground arith

lstrip_hyphens-tidy : (s : Text) → tidy false s ≡ true → tidy true (lstrip_hyphens s) ≡ true
unfolding tidy lstrip_hyphens is_slug_char
lstrip_hyphens-tidy [] h = refl
lstrip_hyphens-tidy (c ∷ cs) h = ground (arith, lstrip_hyphens-kept cs, ap (tidy true))

rstrip_hyphens-slug :
    (must : Bool) (s : Text)
    → tidy must s ≡ true
    → (rstrip_hyphens s ≡ []) ⊎ (slug_from must (rstrip_hyphens s) ≡ true)
unfolding tidy rstrip_hyphens slug_from is_slug_char
rstrip_hyphens-slug must [] h = inl refl
rstrip_hyphens-slug must (c ∷ cs) h = elim (Bool-cases (is_slug_char c)) [
  | inl e ↦ elim (rstrip_hyphens-slug false cs (ground arith)) [
    | inl q ↦ inr (ground arith)
    | inr q ↦ inr (ground arith)
  ]
  | inr e ↦ elim (rstrip_hyphens-slug true cs (ground arith)) [
    | inl q ↦ inl (ground arith)
    | inr q ↦ inr (ground arith)
  ]
]

category_slug : slug_from true (text "category") ≡ true
unfolding slug_from is_slug_char
category_slug = refl

kept_slug :
    (s : Text) → slug_from true s ≡ true → slug_from true (or_else s (text "category")) ≡ true
unfolding slug_from
kept_slug [] h = absurd (cc)
kept_slug (c ∷ cs) h = h

-- A name always makes a web address that the check of web addresses accepts, however odd the name is.
pub slugify-accepted :
    (unescape lower : Text → Text) (name : Text) → is_slug (slugify unescape lower name) ≡ true
unfolding slugify is_slug
slugify-accepted unescape lower name =
    let base : Text =
      lstrip_hyphens
        (hyphenate false (drop_apostrophes (lower (clean_category_name unescape name)))) in
    let tidied : tidy true base ≡ true =
      lstrip_hyphens-tidy
        (hyphenate false (drop_apostrophes (lower (clean_category_name unescape name))))
        (hyphenate-tidy false (drop_apostrophes (lower (clean_category_name unescape name)))) in
    elim (rstrip_hyphens-slug true base tidied) [
      | inl q ↦ rw q category_slug
      | inr q ↦ kept_slug (rstrip_hyphens base) q
    ]
