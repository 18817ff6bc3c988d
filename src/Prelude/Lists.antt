-- ===== src/Prelude/Lists.antt =====
-- Lists as the program's lists and sets: membership and counting by `==`, and stable sorting.
use Prim.Native.Nat.{ℕ, suc, ◌+◌}
use mathlib.Core.Path.{◌≡◌, refl, ap}
use mathlib.Core.Bool.{Bool, true, false, not, ◌&&◌, ◌||◌}
use mathlib.Core.List.{List, [], ◌∷◌, ◌++◌}
use native.Mathlib.Omega.{arith}
use arb_data_warehouse.Prelude.Tests.{if◌then◌else◌, Eq, ◌==◌}

-- A predicate by recursion computes to tuples, which the tactics read and build.
abbrev pub All {ℓ κ} : {A : Type ℓ} → (A → Type κ) → List A → Type κ
All P [] = Unit
All P (x ∷ xs) = P x × All P xs

-- A truth value as a number, for counting.
abbrev pub bit : Bool → ℕ
bit true = 1
bit false = 0

module _ {ℓ} {A : Type ℓ} where
  abbrev pub length : List A → ℕ
  length [] = 0
  length (x ∷ xs) = suc (length xs)

  -- How many elements pass a test: `sum(1 for x in xs if p(x))`.
  unfoldable pub count_if : (A → Bool) → List A → ℕ
  count_if p [] = 0
  count_if p (x ∷ xs) = bit (p x) + count_if p xs

  -- `[x for x in xs if p(x)]`
  unfoldable pub keep_if : (A → Bool) → List A → List A
  keep_if p [] = []
  keep_if p (x ∷ xs) = let rest = keep_if p xs in if p x then x ∷ rest else rest

  -- `any(p(x) for x in xs)`
  unfoldable pub any_of : (A → Bool) → List A → Bool
  any_of p [] = false
  any_of p (x ∷ xs) = p x || any_of p xs

  -- An empty list is false in a test.
  abbrev pub is_empty : List A → Bool
  is_empty [] = true
  is_empty (x ∷ xs) = false

  -- `xs or ys`
  abbrev pub or_else : List A → List A → List A
  or_else [] ys = ys
  or_else (x ∷ xs) ys = x ∷ xs

  pub count_if-append :
      (p : A → Bool) (xs ys : List A) → count_if p (xs ++ ys) ≡ count_if p xs + count_if p ys
  unfolding count_if
  count_if-append p [] ys = omega arith
  count_if-append p (x ∷ xs) ys = omega (arith, count_if-append p xs ys)

  pub any_of-append :
      (p : A → Bool) (xs ys : List A) → any_of p (xs ++ ys) ≡ (any_of p xs || any_of p ys)
  unfolding any_of
  any_of-append p [] ys = refl
  any_of-append p (x ∷ xs) ys = ground (arith, any_of-append p xs ys)

module _ {ℓ} {A : Type ℓ} ⦃e : Eq A⦄ where
  -- `a in xs`
  unfoldable pub contains : List A → A → Bool
  contains [] a = false
  contains (x ∷ xs) a = a == x || contains xs a

  -- `xs.add(a)`
  unfoldable pub set_add : List A → A → List A
  unfolding contains
  set_add xs a = if contains xs a then xs else xs ++ a ∷ []

  -- No element stands twice.
  abbrev pub Distinct : List A → Type 0
  Distinct [] = Unit
  Distinct (x ∷ xs) = (contains xs x ≡ false) × Distinct xs

  pub beq_refl : (a : A) → (a == a) ≡ true
  beq_refl a = (e.same_iff a a).1 refl

  pub contains-append :
      (xs ys : List A) (a : A) → contains (xs ++ ys) a ≡ (contains xs a || contains ys a)
  unfolding contains
  contains-append [] ys a = refl
  contains-append (x ∷ xs) ys a = ground (arith, contains-append xs ys a)

  pub Distinct-append_one :
      (xs : List A) (a : A) → Distinct xs → contains xs a ≡ false → Distinct (xs ++ a ∷ [])
  unfolding contains
  Distinct-append_one [] a d h = (refl, tt)
  Distinct-append_one (x ∷ xs) a d h = (
    ground (arith, contains-append xs (a ∷ []) x, e.same_iff a x, e.same_iff x a),
    Distinct-append_one xs a d.1 (ground arith),
  )

  pub contains-set_add :
      (xs : List A) (a b : A) → contains (set_add xs a) b ≡ (b == a || contains xs b)
  unfolding set_add
  contains-set_add xs a b = ground (arith, contains-append xs (a ∷ []) b, e.same_iff b a)

  -- `xs | ys`
  unfoldable pub set_union : List A → List A → List A
  unfolding set_add
  set_union xs [] = xs
  set_union xs (y ∷ ys) = set_union (set_add xs y) ys

  -- `xs - ys`
  unfoldable pub set_minus : List A → List A → List A
  unfolding keep_if contains
  set_minus xs ys = keep_if (λ x. not (contains ys x)) xs

  -- `set(xs) <= set(ys)`
  unfoldable pub is_subset : List A → List A → Bool
  unfolding contains
  is_subset [] ys = true
  is_subset (x ∷ xs) ys = contains ys x && is_subset xs ys

  -- `set(xs) == set(ys)`
  unfoldable pub set_eq : List A → List A → Bool
  unfolding is_subset
  set_eq xs ys = is_subset xs ys && is_subset ys xs

  pub contains-set_union :
      (xs ys : List A) (a : A) → contains (set_union xs ys) a ≡ (contains xs a || contains ys a)
  unfolding set_union contains
  contains-set_union xs [] a = ground arith
  contains-set_union xs (y ∷ ys) a =
      ground (arith, contains-set_union (set_add xs y) ys a, contains-set_add xs y a)

  pub contains-set_minus :
      (xs ys : List A) (a : A)
      → contains (set_minus xs ys) a ≡ (contains xs a && not (contains ys a))
  unfolding set_minus keep_if contains
  contains-set_minus [] ys a = refl
  contains-set_minus (x ∷ xs) ys a =
      ground (arith, contains-set_minus xs ys a, e.same_iff a x, ap (contains ys))

  pub set_minus-nil : (xs : List A) → set_minus xs [] ≡ xs
  unfolding set_minus keep_if contains
  set_minus-nil [] = refl
  set_minus-nil (x ∷ xs) = ap (λ l. x ∷ l) (set_minus-nil xs)

  pub is_subset-cons :
      (xs ys : List A) (y : A) → is_subset xs ys ≡ true → is_subset xs (y ∷ ys) ≡ true
  unfolding is_subset contains
  is_subset-cons [] ys y h = refl
  is_subset-cons (x ∷ xs) ys y h = ground (arith, is_subset-cons xs ys y)

  pub is_subset_refl : (xs : List A) → is_subset xs xs ≡ true
  unfolding is_subset contains
  is_subset_refl [] = refl
  is_subset_refl (x ∷ xs) = ground (arith, beq_refl x, is_subset-cons xs xs x (is_subset_refl xs))

  pub set_eq_refl : (xs : List A) → set_eq xs xs ≡ true
  unfolding set_eq
  set_eq_refl xs = rw (is_subset_refl xs)
