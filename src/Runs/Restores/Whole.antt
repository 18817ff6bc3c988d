-- ===== src/Runs/Restores/Whole.antt =====
-- What the pages of a restore hold (logo-admin/categories_runs.py: _restore_pages).
use mathlib.Core.Path.{subst}
use arb_data_warehouse.Prelude.{
  Among, Ascending, Ascending-sort_by, Bool, Bool-cases, List, Option-cases, [], any_of, ap, arith,
  false, inl, inr, none, refl, some, sort_by, sym, true, ◌++◌, ◌<◌, ◌==◌, ◌∙◌, ◌∷◌, ◌≡◌, ◌≤◌, ◌⊎◌,
  nat_eq, text_eq, pair_eq,
}
use arb_data_warehouse.Runs.Restores.{
  MembershipRow, closes, last_of, pages_from, restore_pages, row_le,
}
use arb_data_warehouse.Runs.Fresh.{snoc-append}

abbrev pub flatten : List (List MembershipRow) → List MembershipRow
flatten [] = []
flatten (p ∷ ps) = p ++ flatten ps

-- A product is in both lists.
unfoldable pub shares : List MembershipRow → List MembershipRow → Bool
shares xs ys =
    any_of (λ (x : MembershipRow). any_of (λ (y : MembershipRow). x.product_id == y.product_id) ys)
      xs

-- No page holds a product of a later page.
abbrev pub Apart : List (List MembershipRow) → Type 0
Apart [] = Unit
Apart (p ∷ ps) = (shares p (flatten ps) ≡ false) × Apart ps

flatten-pages_from :
    (current rows : List MembershipRow) → flatten (pages_from current rows) ≡ current ++ rows
unfolding pages_from
flatten-pages_from [] [] = refl
flatten-pages_from (c ∷ cs) [] = refl
flatten-pages_from current (row ∷ rows) = elim (Bool-cases (closes current row)) [
  | inl e ↦ rw e (ap (λ v. current ++ v) (flatten-pages_from (row ∷ []) rows))
  | inr e ↦
      rw e (flatten-pages_from (current ++ row ∷ []) rows ∙ sym (snoc-append row current rows))
]

-- The pages hold all the rows, sorted and each as often as before.
pub flatten-restore_pages :
    (rows : List MembershipRow) → flatten (restore_pages rows) ≡ sort_by row_le rows
unfolding restore_pages
flatten-restore_pages rows = flatten-pages_from [] (sort_by row_le rows)

row_le_total : (a b : MembershipRow) → (row_le a b ≡ true) ⊎ (row_le b a ≡ true)
unfolding row_le
row_le_total a b = ground arith

row_le_trans : (a b c : MembershipRow) → row_le a b ≡ true → row_le b c ≡ true → row_le a c ≡ true
unfolding row_le
row_le_trans a b c h k = ground arith

row_le-product : (a b : MembershipRow) → row_le a b ≡ true → a.product_id ≤ b.product_id
unfolding row_le
row_le-product a b h = ground arith

append-Among : (y : MembershipRow) (xs ys : List MembershipRow) → Among y ys → Among y (xs ++ ys)
append-Among y [] ys m = m
append-Among y (x ∷ xs) ys m = inr (append-Among y xs ys m)

Among-append_left :
    (y : MembershipRow) (xs ys : List MembershipRow) → Among y xs → Among y (xs ++ ys)
Among-append_left y [] ys m = absurd m
Among-append_left y (x ∷ xs) ys (inl e) = inl e
Among-append_left y (x ∷ xs) ys (inr m) = inr (Among-append_left y xs ys m)

-- Across the border of two parts of an ascending list.
cross :
    (x y : MembershipRow) (xs ys : List MembershipRow)
    → Ascending row_le (xs ++ ys)
    → Among x xs
    → Among y ys
    → x.product_id ≤ y.product_id
cross x y [] ys h m n = absurd m
cross x y (z ∷ xs) ys h (inl e) n = omega (
  arith,
  row_le-product z y (h.0 y (append-Among y xs ys n)),
  ap (λ (v : MembershipRow). v.product_id) e,
)
cross x y (z ∷ xs) ys h (inr m) n = cross x y xs ys h.1 m n

last_of-Among : (xs : List MembershipRow) (l : MembershipRow) → last_of xs ≡ some l → Among l xs
unfolding last_of
last_of-Among [] l h = absurd (cc)
last_of-Among (x ∷ xs) l h = elim (Option-cases (last_of xs)) [
  | inl e ↦ inl (ground arith)
  | inr (k, e) ↦ inr (last_of-Among xs l (ground arith))
]

no_last : (xs : List MembershipRow) (x : MembershipRow) → last_of xs ≡ none → Among x xs → ⊥
unfolding last_of
no_last [] x h m = m
no_last (z ∷ xs) x h m = elim (Option-cases (last_of xs)) [
  | inl e ↦ ground arith
  | inr (k, e) ↦ ground arith
]

last-greatest :
    (x l : MembershipRow) (xs ys : List MembershipRow)
    → Ascending row_le (xs ++ ys)
    → last_of xs ≡ some l
    → Among x xs
    → x.product_id ≤ l.product_id
unfolding last_of
last-greatest x l [] ys h e m = absurd m
last-greatest x l (z ∷ xs) ys h e m = elim (Option-cases (last_of xs)) [
  | inl c ↦ elim m [
    | inl q ↦
        let same : z ≡ l = ground arith in
        omega (
          arith,
          ap (λ (v : MembershipRow). v.product_id) q,
          ap (λ (v : MembershipRow). v.product_id) same,
        )
    | inr q ↦ absurd (no_last xs x c q)
  ]
  | inr (k, c) ↦
      let same : last_of xs ≡ some l = ground arith in
      elim m [
        | inl q ↦ omega (
          arith,
          row_le-product z l (h.0 l (Among-append_left l xs ys (last_of-Among xs l same))),
          ap (λ (v : MembershipRow). v.product_id) q,
        )
        | inr q ↦ last-greatest x l xs ys h.1 same q
      ]
]

none_with :
    (x : MembershipRow) (ys : List MembershipRow)
    → ((y : MembershipRow) → Among y ys → x.product_id < y.product_id)
    → any_of (λ (y : MembershipRow). x.product_id == y.product_id) ys ≡ false
unfolding any_of
none_with x [] h = refl
none_with x (y ∷ ys) h = ground (arith, h y (inl refl), none_with x ys (λ v m. h v (inr m)))

none_shared :
    (xs ys : List MembershipRow)
    → ((x y : MembershipRow) → Among x xs → Among y ys → x.product_id < y.product_id)
    → shares xs ys ≡ false
unfolding shares any_of
none_shared [] ys h = refl
none_shared (x ∷ xs) ys h =
    rw (none_with x ys (λ y m. h x y (inl refl) m)) (none_shared xs ys (λ v y m n. h v y (inr m) n))

Ascending-right : (xs ys : List MembershipRow) → Ascending row_le (xs ++ ys) → Ascending row_le ys
Ascending-right [] ys h = h
Ascending-right (x ∷ xs) ys h = Ascending-right xs ys h.1

-- A page that closes before a row has none of the products from there on.
closed_apart :
    (current : List MembershipRow) (row : MembershipRow) (rows : List MembershipRow)
    → Ascending row_le (current ++ row ∷ rows)
    → closes current row ≡ true
    → shares current (row ∷ rows) ≡ false
unfolding closes
closed_apart current row rows h c = elim (Option-cases (last_of current)) [
  | inl e ↦ absurd (ground arith)
  | inr (l, e) ↦
      let apart : (row.product_id == l.product_id) ≡ false = ground arith in
      none_shared current (row ∷ rows) λ x y m n.
        let from_row : row.product_id ≤ y.product_id = elim n [
          | inl q ↦ omega (arith, ap (λ (v : MembershipRow). v.product_id) q)
          | inr q ↦ row_le-product row y ((Ascending-right current (row ∷ rows) h).0 y q)
        ] in
        ground (
          arith,
          last-greatest x l current (row ∷ rows) h e m,
          cross l row current (row ∷ rows) h (last_of-Among current l e) (inl refl),
          from_row,
          apart,
        )
]

Apart-pages_from :
    (current rows : List MembershipRow)
    → Ascending row_le (current ++ rows)
    → Apart (pages_from current rows)
unfolding pages_from
Apart-pages_from [] [] h = tt
Apart-pages_from (c ∷ cs) [] h = (none_shared (c ∷ cs) [] (λ x y m n. absurd n), tt)
Apart-pages_from current (row ∷ rows) h = elim (Bool-cases (closes current row)) [
  | inl e ↦ rw e (
    ap (shares current) (flatten-pages_from (row ∷ []) rows) ∙ closed_apart current row rows h e,
    Apart-pages_from (row ∷ []) rows (Ascending-right current (row ∷ rows) h),
  )
  | inr e ↦ rw e (
      Apart-pages_from (current ++ row ∷ []) rows
        (subst (Ascending row_le) (snoc-append row current rows) h))
]

-- The pages never split a product: no page holds a product of a later page.
pub restore_pages-Apart : (rows : List MembershipRow) → Apart (restore_pages rows)
unfolding restore_pages
restore_pages-Apart rows =
    Apart-pages_from [] (sort_by row_le rows)
      (Ascending-sort_by row_le row_le_total row_le_trans rows)
