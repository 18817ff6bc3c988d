-- ===== src/Prelude/Sorting.antt =====
-- What a sorted list holds, and in which order.
use Prim.Native.Nat.{◌+◌}
use mathlib.Core.Path.{◌≡◌, refl, ap, ◌∙◌}
use mathlib.Core.Logic.{◌⊎◌, inl, inr}
use mathlib.Core.Bool.{Bool, true, ◌||◌}
use mathlib.Core.List.{List, [], ◌∷◌}
use native.Mathlib.Omega.{arith}
use arb_data_warehouse.Prelude.Tests.{Bool-cases, Eq, ◌==◌}
use arb_data_warehouse.Prelude.Lists.{bit, count_if, contains, any_of}
use arb_data_warehouse.Prelude.Keyed.{Among}
use arb_data_warehouse.Prelude.Texts.{insert_by, sort_by}

module _ {ℓ} {A : Type ℓ} (le : A → A → Bool) where
  count_if-insert_by :
      (p : A → Bool) (x : A) (ys : List A)
      → count_if p (insert_by le x ys) ≡ bit (p x) + count_if p ys
  unfolding count_if insert_by
  count_if-insert_by p x [] = refl
  count_if-insert_by p x (y ∷ ys) = ground (arith, count_if-insert_by p x ys)

  pub count_if-sort_by : (p : A → Bool) (xs : List A) → count_if p (sort_by le xs) ≡ count_if p xs
  unfolding count_if sort_by
  count_if-sort_by p [] = refl
  count_if-sort_by p (x ∷ xs) =
      omega (arith, count_if-insert_by p x (sort_by le xs), count_if-sort_by p xs)

  any_of-insert_by :
      (p : A → Bool) (x : A) (ys : List A) → any_of p (insert_by le x ys) ≡ (p x || any_of p ys)
  unfolding any_of insert_by
  any_of-insert_by p x [] = refl
  any_of-insert_by p x (y ∷ ys) = ground (arith, any_of-insert_by p x ys)

  pub any_of-sort_by : (p : A → Bool) (xs : List A) → any_of p (sort_by le xs) ≡ any_of p xs
  unfolding any_of sort_by
  any_of-sort_by p [] = refl
  any_of-sort_by p (x ∷ xs) =
      ground (arith, any_of-insert_by p x (sort_by le xs), any_of-sort_by p xs)

module _ {ℓ} {A : Type ℓ} ⦃e : Eq A⦄ (le : A → A → Bool) where
  contains-insert_by :
      (x : A) (ys : List A) (a : A) → contains (insert_by le x ys) a ≡ (a == x || contains ys a)
  unfolding contains insert_by
  contains-insert_by x [] a = refl
  contains-insert_by x (y ∷ ys) a = ground (arith, contains-insert_by x ys a)

  pub contains-sort_by : (xs : List A) (a : A) → contains (sort_by le xs) a ≡ contains xs a
  unfolding contains sort_by
  contains-sort_by [] a = refl
  contains-sort_by (x ∷ xs) a =
      ground (arith, contains-insert_by x (sort_by le xs) a, contains-sort_by xs a)

module _ {A : Type 0} (le : A → A → Bool) where
  -- Each element is at most the ones behind it.
  abbrev pub Ascending : List A → Type 0
  Ascending [] = Unit
  Ascending (x ∷ xs) = ((y : A) → Among y xs → le x y ≡ true) × Ascending xs

  pub Among-insert_by : (y x : A) (xs : List A) → Among y (insert_by le x xs) → (y ≡ x) ⊎ Among y xs
  unfolding insert_by
  Among-insert_by y x [] h = elim h [ inl q ↦ inl q | inr q ↦ absurd q ]
  Among-insert_by y x (z ∷ zs) h = elim (Bool-cases (le x z)) [
    | inl e ↦ rw e at h
    | inr e ↦ elim (rw e at h) [
      | inl q ↦ inr (inl q)
      | inr q ↦ elim (Among-insert_by y x zs q) [ inl r ↦ inl r | inr r ↦ inr (inr r) ]
    ]
  ]

  pub Among-sort_by : (y : A) (xs : List A) → Among y (sort_by le xs) → Among y xs
  unfolding sort_by
  Among-sort_by y [] h = h
  Among-sort_by y (x ∷ xs) h = elim (Among-insert_by y x (sort_by le xs) h) [
    | inl q ↦ inl q
    | inr q ↦ inr (Among-sort_by y xs q)
  ]

  module _ (le_total : (x y : A) → (le x y ≡ true) ⊎ (le y x ≡ true))
      (le_trans : (x y z : A) → le x y ≡ true → le y z ≡ true → le x z ≡ true) where
    Ascending-insert_by : (x : A) (xs : List A) → Ascending xs → Ascending (insert_by le x xs)
    unfolding insert_by
    Ascending-insert_by x [] h = (λ y a. absurd a, tt)
    Ascending-insert_by x (z ∷ zs) h = elim (Bool-cases (le x z)) [
      | inl e ↦
          rw e (λ y a. elim a [ inl q ↦ ap (le x) q ∙ e | inr q ↦ le_trans x z y e (h.0 y q) ], h)
      | inr e ↦ rw e (
        λ y a. elim (Among-insert_by y x zs a) [
          | inl q ↦ elim (le_total x z) [ inl r ↦ absurd (ground arith) | inr r ↦ ap (le z) q ∙ r ]
          | inr q ↦ h.0 y q
        ],
        Ascending-insert_by x zs h.1,
      )
    ]

    -- Sorting by a total and transitive order puts the elements in ascending order.
    pub Ascending-sort_by : (xs : List A) → Ascending (sort_by le xs)
    unfolding sort_by
    Ascending-sort_by [] = tt
    Ascending-sort_by (x ∷ xs) = Ascending-insert_by x (sort_by le xs) (Ascending-sort_by xs)
