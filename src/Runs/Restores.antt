-- ===== src/Runs/Restores.antt =====
-- The pages in which a restore hands memberships to WordPress (_restore_pages of
-- logo-admin/categories_runs.py).
use arb_data_warehouse.Prelude.{
  Bool, List, Option, [], false, if◌then◌else◌, is_empty, leb, length, ltb, none, not, some,
  sort_by, ℕ, ◌&&◌, ◌++◌, ◌==◌, ◌||◌, ◌∷◌, nat_eq, text_eq, pair_eq,
}
pub mod Whole

-- A membership of a job snapshot; an absent id is 0.
pub record MembershipRow : Type 0 where
  pub product_id : ℕ
  pub term_id : ℕ

abbrev pub restore_page_size : ℕ
restore_page_size = 400

-- By product, then by term.
unfoldable pub row_le : MembershipRow → MembershipRow → Bool
row_le a b =
    ltb a.product_id b.product_id || (a.product_id == b.product_id && leb a.term_id b.term_id)

unfoldable pub last_of : List MembershipRow → Option MembershipRow
last_of [] = none
last_of (r ∷ rs) = elim (last_of rs) [ none ↦ some r | some l ↦ some l ]

-- The page is full, and the row is of another product than its last one.
unfoldable pub closes : List MembershipRow → MembershipRow → Bool
closes current row = elim (last_of current) [
  | none ↦ false
  | some l ↦ leb restore_page_size (length current) && not (row.product_id == l.product_id)
]

-- The loop over the sorted rows, on the page that is being filled.
unfoldable pub pages_from : List MembershipRow → List MembershipRow → List (List MembershipRow)
pages_from current [] = if is_empty current then [] else current ∷ []
pages_from current (row ∷ rows) =
    let closed = pages_from (row ∷ []) rows in
    let filled = pages_from (current ++ row ∷ []) rows in
    if closes current row then current ∷ closed else filled

unfoldable pub restore_pages : List MembershipRow → List (List MembershipRow)
restore_pages rows = pages_from [] (sort_by row_le rows)
