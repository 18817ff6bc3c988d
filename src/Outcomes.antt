-- ===== src/Outcomes.antt =====
-- Operations that may raise: a value or the error, do blocks over it, and what holds of the value if
-- there is one, rule by rule. The functions of logo-admin that raise are written with it.
use mathlib.Core.Path.{subst}
use arb_data_warehouse.Prelude.{
  Bool, arith, false, inl, inr, refl, true, ◌≡◌, ◌⊎◌, nat_eq, text_eq, pair_eq,
}

pub data Fallible {ε ℓ} (E : Type ε) (A : Type ℓ) : Type (ε ⊔ ℓ) where
  fails : E → Fallible E A
  gives : A → Fallible E A

module _ {ε} {E : Type ε} where
  infixl 5 ◌>>=◌ ◌>>◌
  abbrev pub ◌>>=◌ {κ ℓ} :
      {A : Type κ} {B : Type ℓ} → Fallible E A → (A → Fallible E B) → Fallible E B
  fails e >>= step = fails e
  gives x >>= step = step x

  abbrev pub check : Bool → E → Fallible E (Unit {0})
  check true e = gives tt
  check false e = fails e

  abbrev pub ◌>>◌ {κ} : {A : Type κ} → Fallible E (Unit {0}) → Fallible E A → Fallible E A
  test >> step = test >>= λ _. step

  abbrev pub Ensures : {A : Type 0} → (A → Type 0) → Fallible E A → Type 0
  Ensures P (gives a) = P a
  Ensures P (fails e) = Unit

  pub Ensures-gives :
      {A : Type 0} (P : A → Type 0) (r : Fallible E A) (a : A) → r ≡ gives a → Ensures P r → P a
  Ensures-gives P (gives b) a e h = subst P (ground arith) h
  Ensures-gives P (fails c) a e h = absurd (cc)

  pub Ensures-check :
      {A : Type 0} (P : A → Type 0) (b : Bool) (e : E) (m : Fallible E A)
      → (b ≡ true → Ensures P m)
      → Ensures P (check b e >> m)
  Ensures-check P true e m h = h refl
  Ensures-check P false e m h = tt

  pub Ensures-bind :
      {A B : Type 0} (P : A → Type 0) (Q : B → Type 0) (r : Fallible E B) (f : B → Fallible E A)
      → Ensures Q r
      → ((b : B) → Q b → Ensures P (f b))
      → Ensures P (r >>= f)
  Ensures-bind P Q (gives b) f q h = h b q
  Ensures-bind P Q (fails e) f q h = tt

  pub Ensures-weaken :
      {A : Type 0} {P : A → Type 0} (Q : A → Type 0) (r : Fallible E A)
      → Ensures P r
      → ((a : A) → P a → Q a)
      → Ensures Q r
  Ensures-weaken Q (gives a) h k = k a h
  Ensures-weaken Q (fails e) h k = tt

  -- Nothing is claimed of the value.
  pub anything : {A : Type 0} (r : Fallible E A) → Ensures (λ a. Unit) r
  anything (gives a) = tt
  anything (fails e) = tt

  abbrev pub map_gives : {A B : Type 0} → (A → B) → Fallible E A → Fallible E B
  map_gives f (gives a) = gives (f a)
  map_gives f (fails e) = fails e

  pub Fallible-cases :
      {A : Type 0} (r : Fallible E A) → ((e : E) × (r ≡ fails e)) ⊎ ((a : A) × (r ≡ gives a))
  Fallible-cases (fails e) = inl (e, refl)
  Fallible-cases (gives a) = inr (a, refl)
