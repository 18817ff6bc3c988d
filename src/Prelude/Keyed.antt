-- ===== src/Prelude/Keyed.antt =====
-- Counting the elements of a list whose keys lie in a set, as the set grows by one key at a time.
use Prim.Native.Nat.{ℕ, ◌+◌}
use mathlib.Core.Path.{◌≡◌, refl, sym, ◌∙◌, ap, subst}
use mathlib.Core.Logic.{◌⊎◌, inl, inr}
use mathlib.Core.Bool.{Bool, true, false, not, ◌&&◌}
use mathlib.Core.Option.{some}
use mathlib.Core.List.{List, [], ◌∷◌, ◌++◌, map}
use native.Mathlib.Omega.{arith}
use arb_data_warehouse.Prelude.Tests.{Eq, ◌==◌, nat_eq, Bool-cases, Option-cases}
use arb_data_warehouse.Prelude.Lists.{
  All, bit, count_if, keep_if, contains, set_add, Distinct, contains-set_add, beq_refl,
}
use arb_data_warehouse.Prelude.Dicts.{Dict, values, lookup, insert, set_default}

-- A value is one of the elements.
abbrev pub Among : {A : Type 0} → A → List A → Type 0
Among x [] = ⊥
Among x (y ∷ ys) = (x ≡ y) ⊎ Among x ys

module _ {A : Type 0} (key : A → ℕ) where
  -- An element whose key is in the set and that passes the test.
  abbrev pub is_covered : List ℕ → (A → Bool) → A → Bool
  is_covered here p a = contains here (key a) && p a

  abbrev pub is_open : List ℕ → (A → Bool) → A → Bool
  is_open here p a = not (contains here (key a)) && p a

  pub covered_or_open :
      (here : List ℕ) (p : A → Bool) (xs : List A)
      → count_if (is_covered here p) xs + count_if (is_open here p) xs ≡ count_if p xs
  unfolding count_if
  covered_or_open here p [] = omega arith
  covered_or_open here p (x ∷ xs) = ground (arith, covered_or_open here p xs)

  pub contains-key : (x : A) (xs : List A) → Among x xs → contains (map key xs) (key x) ≡ true
  unfolding contains
  contains-key x [] m = absurd m
  contains-key x (y ∷ ys) (inl e) = ground (arith, beq_refl (key x), ap key e)
  contains-key x (y ∷ ys) (inr m) = ground (arith, contains-key x ys m)

  covered-set_add_other :
      (here : List ℕ) (p : A → Bool) (k : ℕ) (xs : List A)
      → contains (map key xs) k ≡ false
      → count_if (is_covered (set_add here k) p) xs ≡ count_if (is_covered here p) xs
  unfolding count_if contains
  covered-set_add_other here p k [] h = refl
  covered-set_add_other here p k (y ∷ ys) h =
      ground (arith, covered-set_add_other here p k ys, contains-set_add here k (key y))

  pub covered-set_add :
      (here : List ℕ) (p : A → Bool) (x : A) (xs : List A)
      → Distinct (map key xs)
      → Among x xs
      → contains here (key x) ≡ false
      → count_if (is_covered (set_add here (key x)) p) xs
        ≡ count_if (is_covered here p) xs + bit (p x)
  unfolding count_if
  covered-set_add here p x [] d m h = absurd m
  covered-set_add here p x (y ∷ ys) d (inl e) h = ground (
    arith,
    ap key e,
    ap p e,
    covered-set_add_other here p (key x) ys,
    contains-set_add here (key x) (key y),
  )
  covered-set_add here p x (y ∷ ys) d (inr m) h = ground (
    arith,
    covered-set_add here p x ys d.1 m h,
    contains-key x ys m,
    contains-set_add here (key x) (key y),
  )

module _ {K V : Type 0} ⦃e : Eq K⦄ where
  pub lookup-Among : (k : K) (v : V) (d : Dict K V) → lookup k d ≡ some v → Among (k, v) d
  unfolding lookup
  lookup-Among k v [] h = absurd (cc)
  lookup-Among k v ((j, w) ∷ d) h = elim (Bool-cases (j == k)) [
    | inl same ↦ inl (ground (arith, e.same_iff j k))
    | inr other ↦ inr (lookup-Among k v d (ground arith))
  ]

  pub All-lookup {μ} :
      (P : V → Type μ) (k : K) (v : V) (d : Dict K V) → All P (values d) → lookup k d ≡ some v → P v
  unfolding lookup
  All-lookup P k v [] a h = absurd (cc)
  All-lookup P k v ((j, w) ∷ d) a h = elim (Bool-cases (j == k)) [
    | inl same ↦ subst P (ground arith) a.0
    | inr other ↦ All-lookup P k v d a.1 (ground arith)
  ]

  pub All-insert {μ} :
      (P : V → Type μ) (k : K) (v : V) (d : Dict K V)
      → All P (values d)
      → P v
      → All P (values (insert k v d))
  unfolding insert
  All-insert P k v [] a h = (h, tt)
  All-insert P k v ((j, w) ∷ d) a h = elim (Bool-cases (j == k)) [
    | inl same ↦ rw same (h, a.1)
    | inr other ↦ rw other (a.0, All-insert P k v d a.1 h)
  ]

  pub All-set_default {μ} :
      (P : V → Type μ) (k : K) (v : V) (d : Dict K V)
      → All P (values d)
      → P v
      → All P (values (set_default k v d))
  unfolding set_default
  All-set_default P k v d a h = elim (Option-cases (lookup k d)) [
    | inl new ↦ rw (new, set_default) (All-insert P k v d a h)
    | inr (w, old) ↦ rw (old, set_default) a
  ]

pub Among-keep_if :
    {A : Type 0} (p : A → Bool) (t : A) (xs : List A)
    → Among t (keep_if p xs)
    → Among t xs × (p t ≡ true)
unfolding keep_if
Among-keep_if p t [] h = absurd h
Among-keep_if p t (x ∷ xs) h = elim (Bool-cases (p x)) [
  | inl e ↦ elim (rw e at h) [
    | inl q ↦ (inl q, ap p q ∙ e)
    | inr q ↦ (inr (Among-keep_if p t xs q).0, (Among-keep_if p t xs q).1)
  ]
  | inr e ↦
      let q : Among t (keep_if p xs) = rw e at h in
      (inr (Among-keep_if p t xs q).0, (Among-keep_if p t xs q).1)
]

pub keep_if-Among :
    {A : Type 0} (p : A → Bool) (t : A) (xs : List A)
    → Among t xs
    → p t ≡ true
    → Among t (keep_if p xs)
unfolding keep_if
keep_if-Among p t [] h e = absurd h
keep_if-Among p t (x ∷ xs) (inl q) e = let px : p x ≡ true = sym (ap p q) ∙ e in rw px (inl q)
keep_if-Among p t (x ∷ xs) (inr q) e = elim (Bool-cases (p x)) [
  | inl y ↦ rw y (inr (keep_if-Among p t xs q e))
  | inr y ↦ rw y (keep_if-Among p t xs q e)
]

pub List-cases {ℓ} :
    {A : Type ℓ} (xs : List A) → (xs ≡ []) ⊎ ((y : A) × (ys : List A) × (xs ≡ y ∷ ys))
List-cases [] = inl refl
List-cases (y ∷ ys) = inr (y, ys, refl)

pub All-append {ℓ κ} :
    {A : Type ℓ} (P : A → Type κ) (xs ys : List A) → All P xs → All P ys → All P (xs ++ ys)
All-append P [] ys hx hy = hy
All-append P (x ∷ xs) ys hx hy = (hx.0, All-append P xs ys hx.1 hy)

pub All-Among-elim {κ} :
    {A : Type 0} (P : A → Type κ) (x : A) (xs : List A) → All P xs → Among x xs → P x
All-Among-elim P x [] h a = absurd a
All-Among-elim P x (y ∷ ys) h (inl e) = subst P (sym e) h.0
All-Among-elim P x (y ∷ ys) h (inr a) = All-Among-elim P x ys h.1 a
