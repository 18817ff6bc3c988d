-- ===== src/Prelude/Selections.antt =====
-- Rows picked from a table (`WHERE`, `ORDER BY`, `LIMIT`): how many there are, and that their keys
-- stay distinct.
use Prim.Native.Nat.{ℕ, ◌+◌, zero, suc, ◌-◌}
use mathlib.Core.Path.{◌≡◌, refl, sym, ◌∙◌, ap}
use mathlib.Core.Logic.{inl, inr}
use mathlib.Core.Bool.{Bool, true, false, ◌||◌}
use mathlib.Core.Option.{some}
use mathlib.Core.List.{List, [], ◌∷◌, map}
use native.Mathlib.Omega.{arith}
use arb_data_warehouse.Prelude.Tests.{◌==◌, nat_eq, Bool-cases, nat_beq_iff}
use arb_data_warehouse.Prelude.Lists.{bit, length, count_if, keep_if, contains, Distinct}
use arb_data_warehouse.Prelude.Texts.{insert_by, sort_by}
use arb_data_warehouse.Prelude.Keyed.{Among, contains-key}
use arb_data_warehouse.Prelude.Tables.{find_by, sum_of}

module _ {ℓ} {A : Type ℓ} where
  -- `LIMIT n`, `xs[:n]`
  abbrev pub take : ℕ → List A → List A
  take zero xs = []
  take (suc n) [] = []
  take (suc n) (x ∷ xs) = x ∷ take n xs

  pub length-take : (n : ℕ) (xs : List A) → length xs - length (take n xs) ≡ length xs - n
  length-take zero xs = omega arith
  length-take (suc n) [] = omega arith
  length-take (suc n) (x ∷ xs) = omega (arith, length-take n xs)

  pub length-keep_if : (p : A → Bool) (xs : List A) → length (keep_if p xs) ≡ count_if p xs
  unfolding keep_if count_if
  length-keep_if p [] = refl
  length-keep_if p (x ∷ xs) = ground (arith, length-keep_if p xs)

  length-insert_by :
      (le : A → A → Bool) (x : A) (xs : List A) → length (insert_by le x xs) ≡ suc (length xs)
  unfolding insert_by
  length-insert_by le x [] = refl
  length-insert_by le x (y ∷ ys) = ground (arith, length-insert_by le x ys)

  pub length-sort_by : (le : A → A → Bool) (xs : List A) → length (sort_by le xs) ≡ length xs
  unfolding sort_by
  length-sort_by le [] = refl
  length-sort_by le (x ∷ xs) =
      omega (arith, length-insert_by le x (sort_by le xs), length-sort_by le xs)

pub Among-take : {A : Type 0} (a : A) (n : ℕ) (xs : List A) → Among a (take n xs) → Among a xs
Among-take a zero xs h = absurd h
Among-take a (suc n) [] h = absurd h
Among-take a (suc n) (x ∷ xs) (inl e) = inl e
Among-take a (suc n) (x ∷ xs) (inr m) = inr (Among-take a n xs m)

module _ {A : Type 0} (key : A → ℕ) where
  contains-map-take :
      (n : ℕ) (xs : List A) (k : ℕ)
      → contains (map key xs) k ≡ false
      → contains (map key (take n xs)) k ≡ false
  unfolding contains
  contains-map-take zero xs k h = refl
  contains-map-take (suc n) [] k h = refl
  contains-map-take (suc n) (x ∷ xs) k h = ground (arith, contains-map-take n xs k)

  pub Distinct-map-take :
      (n : ℕ) (xs : List A) → Distinct (map key xs) → Distinct (map key (take n xs))
  Distinct-map-take zero xs d = tt
  Distinct-map-take (suc n) [] d = tt
  Distinct-map-take (suc n) (x ∷ xs) d =
      (contains-map-take n xs (key x) d.0, Distinct-map-take n xs d.1)

  pub contains-map-keep_if :
      (p : A → Bool) (xs : List A) (k : ℕ)
      → contains (map key xs) k ≡ false
      → contains (map key (keep_if p xs)) k ≡ false
  unfolding contains keep_if
  contains-map-keep_if p [] k h = refl
  contains-map-keep_if p (x ∷ xs) k h = ground (arith, contains-map-keep_if p xs k)

  pub Distinct-map-keep_if :
      (p : A → Bool) (xs : List A) → Distinct (map key xs) → Distinct (map key (keep_if p xs))
  unfolding keep_if
  Distinct-map-keep_if p [] d = tt
  Distinct-map-keep_if p (x ∷ xs) d = elim (Bool-cases (p x)) [
    | inl e ↦ rw e (contains-map-keep_if p xs (key x) d.0, Distinct-map-keep_if p xs d.1)
    | inr e ↦ rw e (Distinct-map-keep_if p xs d.1)
  ]

  contains-map-insert_by :
      (le : A → A → Bool) (x : A) (xs : List A) (k : ℕ)
      → contains (map key (insert_by le x xs)) k ≡ (k == key x || contains (map key xs) k)
  unfolding contains insert_by
  contains-map-insert_by le x [] k = refl
  contains-map-insert_by le x (y ∷ ys) k = ground (arith, contains-map-insert_by le x ys k)

  contains-map-sort_by :
      (le : A → A → Bool) (xs : List A) (k : ℕ)
      → contains (map key (sort_by le xs)) k ≡ contains (map key xs) k
  unfolding contains sort_by
  contains-map-sort_by le [] k = refl
  contains-map-sort_by le (x ∷ xs) k =
      ground (arith, contains-map-insert_by le x (sort_by le xs) k, contains-map-sort_by le xs k)

  Distinct-map-insert_by :
      (le : A → A → Bool) (x : A) (xs : List A)
      → contains (map key xs) (key x) ≡ false
      → Distinct (map key xs)
      → Distinct (map key (insert_by le x xs))
  unfolding insert_by contains
  Distinct-map-insert_by le x [] h d = (refl, tt)
  Distinct-map-insert_by le x (y ∷ ys) h d = elim (Bool-cases (le x y)) [
    | inl e ↦ rw e (h, d)
    | inr e ↦ rw e (
      ground (
        arith,
        contains-map-insert_by le x ys (key y),
        nat_beq_iff (key y) (key x),
        nat_beq_iff (key x) (key y),
        d.0,
      ),
      Distinct-map-insert_by le x ys (ground arith) d.1,
    )
  ]

  pub Distinct-map-sort_by :
      (le : A → A → Bool) (xs : List A) → Distinct (map key xs) → Distinct (map key (sort_by le xs))
  unfolding sort_by
  Distinct-map-sort_by le [] d = tt
  Distinct-map-sort_by le (x ∷ xs) d =
      Distinct-map-insert_by le x (sort_by le xs) (contains-map-sort_by le xs (key x) ∙ d.0)
        (Distinct-map-sort_by le xs d.1)

  -- A row is the one that its key finds.
  pub find_by-Distinct :
      (x : A) (xs : List A) → Distinct (map key xs) → Among x xs → find_by key (key x) xs ≡ some x
  unfolding find_by
  find_by-Distinct x [] d m = absurd m
  find_by-Distinct x (y ∷ ys) d (inl e) =
      let same : (key y == key x) ≡ true = (nat_beq_iff (key y) (key x)).1 (ap key (sym e)) in
      rw same (ap (λ z. some z) (sym e))
  find_by-Distinct x (y ∷ ys) d (inr m) =
      let other : (key y == key x) ≡ false = ground (
        arith,
        contains-key key x ys m,
        d.0,
        nat_beq_iff (key y) (key x),
        ap (contains (map key ys)),
      ) in
      rw other (find_by-Distinct x ys d.1 m)

  pub sum_of-count_if :
      (p : A → Bool) (xs : List A) → sum_of key (λ x. bit (p x)) xs ≡ count_if p xs
  unfolding sum_of count_if
  sum_of-count_if p [] = refl
  sum_of-count_if p (x ∷ xs) = ap (λ n. bit (p x) + n) (sum_of-count_if p xs)
