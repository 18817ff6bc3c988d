-- ===== src/Draft/Suffixes.antt =====
-- The search for a free web address always ends (logo-admin/categories_draft.py: the loop of create_node).
use arb_data_warehouse.Planner.Names.{decimal, decimal_from}
use arb_data_warehouse.Prelude.{
  Bool-cases, List, Text, [], ap, arith, contains, false, inl, inr, leb, length, suc, sym,
  text_beq_iff, zero, ℕ, ◌%◌, ◌*◌, ◌++◌, ◌+◌, ◌-◌, ◌/◌, ◌<◌, ◌∙◌, ◌∷◌, ◌≡◌, ◌≢◌, ◌≤◌, nat_eq,
  text_eq, pair_eq,
}

-- A number read from its digits.
unfoldable pub number_from : ℕ → Text → ℕ
number_from n [] = n
number_from n (c ∷ cs) = number_from (n * 10 + (c - b'0')) cs

number_from-decimal_from :
    (fuel n : ℕ) (acc : Text)
    → n < fuel
    → number_from 0 (decimal_from fuel n acc) ≡ number_from n acc
unfolding number_from decimal_from
number_from-decimal_from zero n acc h = absurd (omega arith)
number_from-decimal_from (suc fuel) n acc h = elim (Bool-cases (leb n 9)) [
  | inl e ↦
      let digit : n % 10 ≡ n = ground arith in
      let value : 0 * 10 + ((b'0' + n % 10) - b'0') ≡ n = omega (arith, digit) in
      rw e (ap (λ k. number_from k acc) value)
  | inr e ↦
      let value : (n / 10) * 10 + ((b'0' + n % 10) - b'0') ≡ n = omega arith in
      rw e (
        number_from-decimal_from fuel (n / 10) ((b'0' + n % 10) ∷ acc) (ground arith)
        ∙ ap (λ k. number_from k acc) value)
]

-- Printing a number and reading it gives the number.
pub number_from-decimal : (n : ℕ) → number_from 0 (decimal n) ≡ n
unfolding decimal number_from
number_from-decimal n = number_from-decimal_from (suc n) n [] (omega arith)

abbrev pub suffixed : Text → ℕ → Text
suffixed base n = base ++ b'-' ∷ decimal n

abbrev rest_of : Text → Text
rest_of [] = []
rest_of (c ∷ cs) = cs

append-injective : (xs ys zs : Text) → xs ++ ys ≡ xs ++ zs → ys ≡ zs
append-injective [] ys zs h = h
append-injective (x ∷ xs) ys zs h = append-injective xs ys zs (ap rest_of h)

suffixed-injective : (base : Text) (m n : ℕ) → suffixed base m ≡ suffixed base n → m ≡ n
suffixed-injective base m n h =
    sym (number_from-decimal m)
    ∙ ap (λ s. number_from 0 (rest_of s))
        (append-injective base (b'-' ∷ decimal m) (b'-' ∷ decimal n) h)
    ∙ number_from-decimal n

longer : (xs : Text) (y : ℕ) (ys : Text) → length xs < length (xs ++ y ∷ ys)
longer [] y ys = omega arith
longer (x ∷ xs) y ys = omega (arith, longer xs y ys)

suffixed-other : (base : Text) (n : ℕ) → suffixed base n ≢ base
suffixed-other base n h = absurd (omega (arith, longer base b'-' (decimal n), ap length h))

-- The addresses tried before the one with the suffix 2 + k.
unfoldable pub tried : Text → ℕ → List Text
tried base zero = base ∷ []
tried base (suc k) = suffixed base (suc (suc k)) ∷ tried base k

pub untried :
    (base : Text) (k j : ℕ) → k ≤ j → contains (tried base k) (suffixed base (suc (suc j))) ≡ false
unfolding tried contains
untried base zero j h =
    ground
      (arith, suffixed-other base (suc (suc j)), text_beq_iff (suffixed base (suc (suc j))) base)
untried base (suc k) j h = ground (
  arith,
  untried base k j,
  text_beq_iff (suffixed base (suc (suc j))) (suffixed base (suc (suc k))),
  suffixed-injective base (suc (suc j)) (suc (suc k)),
)
