-- ===== src/Planner/Names.antt =====
-- Names as WordPress stores them (normalize_wp_name in logo-admin/categories_draft.py) and the key
-- of a product without categories (zero_category_key in logo-admin/categories_planner.py).
use arb_data_warehouse.Prelude.{
  Bool, Text, [], false, if◌then◌else◌, is_empty, leb, or_else, suc, text, zero, ℕ, ◌%◌, ◌&&◌, ◌++◌,
  ◌+◌, ◌/◌, ◌==◌, ◌||◌, ◌∷◌, nat_eq, text_eq, pair_eq,
}

-- `str.isspace` and `\s` of one character.
unfoldable pub is_space : ℕ → Bool
is_space c =
    (leb 9 c && leb c 13)
    || (leb 28 c && leb c 32)
    || c == 0x85
    || c == 0xa0
    || c == 0x1680
    || (leb 0x2000 c && leb c 0x200a)
    || c == 0x2028
    || c == 0x2029
    || c == 0x202f
    || c == 0x205f
    || c == 0x3000

unfoldable pub lstrip : Text → Text
lstrip [] = []
lstrip (c ∷ s) = let rest = lstrip s in if is_space c then rest else c ∷ s

unfoldable pub rstrip : Text → Text
rstrip [] = []
rstrip (c ∷ s) = let rest = rstrip s in if is_empty rest && is_space c then [] else c ∷ rest

-- `s.strip()`
unfoldable pub strip : Text → Text
strip s = rstrip (lstrip s)

-- `re.sub(r"\s+", " ", s)`; the flag says that the character before was a space.
unfoldable pub collapse : Bool → Text → Text
collapse after [] = []
collapse after (c ∷ s) =
    let rest = collapse (is_space c) s in
    if is_space c then (if after then rest else 32 ∷ rest) else c ∷ rest

-- The loop that decodes entities at most `n` times, until a round changes nothing. `html.unescape`
-- is the parameter.
unfoldable pub decode : (Text → Text) → ℕ → Text → Text
decode unescape zero name = name
decode unescape (suc n) name =
    let rest = decode unescape n (unescape name) in if unescape name == name then name else rest

unfoldable pub normalize_wp_name : (Text → Text) → Text → Text
normalize_wp_name unescape name = strip (collapse false (decode unescape 5 name))

-- `str(n)` of a natural number, on fuel: a number has at most that many digits.
unfoldable pub decimal_from : ℕ → ℕ → Text → Text
decimal_from zero n acc = acc
decimal_from (suc fuel) n acc =
    let digits = (b'0' + n % 10) ∷ acc in
    let rest = decimal_from fuel (n / 10) digits in if leb n 9 then digits else rest

unfoldable pub decimal : ℕ → Text
decimal n = decimal_from (suc n) n []

-- The key of a product that would end uncategorized. `upper` stands for `str.upper`.
unfoldable pub zero_category_key : (Text → Text) → ℕ → ℕ → Text → Text
zero_category_key upper blog_id product_id sku =
    or_else (upper (strip sku))
      (text "PID:" ++ (decimal blog_id ++ (text ":" ++ decimal product_id)))
