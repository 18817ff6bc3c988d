-- ===== src/Prelude/Tables.antt =====
-- Tables with a primary key, as lists of rows: reading a row, writing one, and sums over rows.
use Prim.Native.Nat.{ℕ, ◌+◌}
use mathlib.Core.Path.{◌≡◌, refl, sym, ◌∙◌, ap}
use mathlib.Core.Logic.{◌↔◌, inl, inr}
use mathlib.Core.Bool.{Bool, true, false, ◌&&◌}
use mathlib.Core.Option.{Option, none, some}
use mathlib.Core.Option
use mathlib.Core.List.{List, [], ◌∷◌, ◌++◌, map}
use native.Mathlib.Omega.{arith}
use arb_data_warehouse.Prelude.Tests.{if◌then◌else◌, Eq, ◌==◌, nat_eq, Bool-cases, nat_beq_iff}
use arb_data_warehouse.Prelude.Lists.{contains, Distinct, beq_refl}
use arb_data_warehouse.Prelude.Keyed.{Among}

-- Equality of pairs, for keys of two columns.
unfoldable pub pair_beq : {A B : Type 0} ⦃e : Eq A⦄ ⦃d : Eq B⦄ → A × B → A × B → Bool
pair_beq (a, b) (c, d) = a == c && b == d

pub pair_beq_iff :
    {A B : Type 0} ⦃e : Eq A⦄ ⦃d : Eq B⦄ (p q : A × B) → (pair_beq p q ≡ true) ↔ (p ≡ q)
unfolding pair_beq
pair_beq_iff ⦃e⦄ ⦃d⦄ (a, b) (x, y) = ground (arith, e.same_iff a x, d.same_iff b y)

instance abbrev pub pair_eq : {A B : Type 0} ⦃e : Eq A⦄ ⦃d : Eq B⦄ → Eq (A × B)
pair_eq = record { same = pair_beq; same_iff = pair_beq_iff }

module _ {A : Type 0} (key : A → ℕ) where
  -- `SELECT * FROM t WHERE key = k`
  unfoldable pub find_by : ℕ → List A → Option A
  find_by k [] = none
  find_by k (x ∷ xs) = if key x == k then some x else find_by k xs

  -- `UPDATE t SET ... WHERE key = k`
  unfoldable pub set_by : ℕ → (A → A) → List A → List A
  set_by k f [] = []
  set_by k f (x ∷ xs) = (if key x == k then f x else x) ∷ set_by k f xs

  -- `sum(w(x) for x in xs)`
  unfoldable pub sum_of : (A → ℕ) → List A → ℕ
  sum_of w [] = 0
  sum_of w (x ∷ xs) = w x + sum_of w xs

  pub sum_of-append : (w : A → ℕ) (xs ys : List A) → sum_of w (xs ++ ys) ≡ sum_of w xs + sum_of w ys
  unfolding sum_of
  sum_of-append w [] ys = omega arith
  sum_of-append w (x ∷ xs) ys = omega (arith, sum_of-append w xs ys)

  pub set_by-absent :
      (k : ℕ) (f : A → A) (xs : List A) → contains (map key xs) k ≡ false → set_by k f xs ≡ xs
  unfolding set_by contains
  set_by-absent k f [] h = refl
  set_by-absent k f (x ∷ xs) h =
      ground (arith, set_by-absent k f xs, nat_beq_iff k (key x), nat_beq_iff (key x) k)

  pub find_by-key : (k : ℕ) (x : A) (xs : List A) → find_by k xs ≡ some x → key x ≡ k
  unfolding find_by
  find_by-key k x [] h = absurd (cc)
  find_by-key k x (y ∷ ys) h = elim (Bool-cases (key y == k)) [
    | inl e ↦ let same : y ≡ x = ground arith in ap key (sym same) ∙ (nat_beq_iff (key y) k).0 e
    | inr e ↦ find_by-key k x ys (ground arith)
  ]

  pub find_by-Among : (k : ℕ) (x : A) (xs : List A) → find_by k xs ≡ some x → Among x xs
  unfolding find_by
  find_by-Among k x [] h = absurd (cc)
  find_by-Among k x (y ∷ ys) h = elim (Bool-cases (key y == k)) [
    | inl e ↦ inl (ground arith)
    | inr e ↦ inr (find_by-Among k x ys (ground arith))
  ]

  -- A write to one row moves a sum by that row alone.
  pub sum_of-set_by :
      (w : A → ℕ) (k : ℕ) (f : A → A) (x : A) (xs : List A)
      → Distinct (map key xs)
      → find_by k xs ≡ some x
      → sum_of w (set_by k f xs) + w x ≡ sum_of w xs + w (f x)
  unfolding sum_of set_by find_by
  sum_of-set_by w k f x [] d h = absurd (cc)
  sum_of-set_by w k f x (y ∷ ys) d h = elim (Bool-cases (key y == k)) [
    | inl e ↦
        let same : y ≡ x = ground arith in
        let off : contains (map key ys) k ≡ false =
          ap (contains (map key ys)) (sym ((nat_beq_iff (key y) k).0 e)) ∙ d.0 in
        rw (e, set_by-absent k f ys off, same) (omega arith)
    | inr e ↦ rw e (omega (arith, sum_of-set_by w k f x ys d.1 (ground arith)))
  ]

  pub map-set_by :
      (k : ℕ) (f : A → A) (xs : List A)
      → ((x : A) → key (f x) ≡ key x)
      → map key (set_by k f xs) ≡ map key xs
  unfolding set_by
  map-set_by k f [] kept = refl
  map-set_by k f (x ∷ xs) kept = elim (Bool-cases (key x == k)) [
    | inl e ↦ rw (e, kept x, map-set_by k f xs kept)
    | inr e ↦ rw (e, map-set_by k f xs kept)
  ]

  pub find_by-set_by :
      (k : ℕ) (f : A → A) (x : A) (xs : List A)
      → ((y : A) → key (f y) ≡ key y)
      → find_by k xs ≡ some x
      → find_by k (set_by k f xs) ≡ some (f x)
  unfolding find_by set_by
  find_by-set_by k f x [] kept h = absurd (cc)
  find_by-set_by k f x (y ∷ ys) kept h = elim (Bool-cases (key y == k)) [
    | inl e ↦
        let same : some y ≡ some x = ground arith in rw (e, kept y, e) (ap (Option.map f) same)
    | inr e ↦ rw (e, e) (find_by-set_by k f x ys kept (ground arith))
  ]

  pub find_by-append_one :
      (x : A) (xs : List A)
      → contains (map key xs) (key x) ≡ false
      → find_by (key x) (xs ++ x ∷ []) ≡ some x
  unfolding find_by contains
  find_by-append_one x [] h = rw (beq_refl (key x))
  find_by-append_one x (y ∷ ys) h =
      ground
        (arith, find_by-append_one x ys, nat_beq_iff (key y) (key x), nat_beq_iff (key x) (key y))

  -- A write to another row is not seen.
  pub find_by-set_by_other :
      (j k : ℕ) (f : A → A) (xs : List A)
      → ((y : A) → key (f y) ≡ key y)
      → (k == j) ≡ false
      → find_by k (set_by j f xs) ≡ find_by k xs
  unfolding find_by set_by
  find_by-set_by_other j k f [] kept h = refl
  find_by-set_by_other j k f (y ∷ ys) kept h = elim (Bool-cases (key y == j)) [
    | inl e ↦ ground (
      arith,
      kept y,
      find_by-set_by_other j k f ys kept h,
      nat_beq_iff (key y) j,
      nat_beq_iff k j,
      nat_beq_iff (key (f y)) k,
      nat_beq_iff (key y) k,
    )
    | inr e ↦ rw e (ground (arith, find_by-set_by_other j k f ys kept h))
  ]
