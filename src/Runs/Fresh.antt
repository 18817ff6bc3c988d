-- ===== src/Runs/Fresh.antt =====
-- Ids below a counter, and the rows added with it (logo-admin/categories_runs.py): identity
-- columns of the run tables.
use arb_data_warehouse.Prelude.{
  All, Distinct, List, [], ap, arith, contains, contains-append, false, map, nat_beq_iff, refl, suc,
  ℕ, ◌++◌, ◌<◌, ◌∷◌, ◌≡◌, nat_eq, text_eq, pair_eq,
}

module _ {A : Type 0} (key : A → ℕ) where
  pub absent-below :
      (next : ℕ) (xs : List A) → All (λ x. key x < next) xs → contains (map key xs) next ≡ false
  unfolding contains
  absent-below next [] h = refl
  absent-below next (x ∷ xs) h = ground (arith, absent-below next xs h.1, nat_beq_iff next (key x))

  pub map-snoc : (xs : List A) (y : A) → map key (xs ++ y ∷ []) ≡ map key xs ++ key y ∷ []
  map-snoc [] y = refl
  map-snoc (x ∷ xs) y = ap (λ l. key x ∷ l) (map-snoc xs y)

  pub below-suc :
      (next : ℕ) (xs : List A) → All (λ x. key x < next) xs → All (λ x. key x < suc next) xs
  below-suc next [] h = tt
  below-suc next (x ∷ xs) h = (omega arith, below-suc next xs h.1)

pub Distinct-snoc :
    (xs : List ℕ) (x : ℕ) → Distinct xs → contains xs x ≡ false → Distinct (xs ++ x ∷ [])
unfolding contains
Distinct-snoc [] x d h = (refl, tt)
Distinct-snoc (y ∷ ys) x d h = (
  ground (arith, contains-append ys (x ∷ []) y, nat_beq_iff y x, nat_beq_iff x y),
  Distinct-snoc ys x d.1 (ground arith),
)

pub append_nil : {A : Type 0} (xs : List A) → xs ++ [] ≡ xs
append_nil [] = refl
append_nil (x ∷ xs) = ap (λ l. x ∷ l) (append_nil xs)

pub snoc-append : {A : Type 0} (y : A) (xs ys : List A) → xs ++ (y ∷ ys) ≡ (xs ++ y ∷ []) ++ ys
snoc-append y [] ys = refl
snoc-append y (x ∷ xs) ys = ap (λ l. x ∷ l) (snoc-append y xs ys)
