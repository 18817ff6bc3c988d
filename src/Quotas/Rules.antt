-- ===== src/Quotas/Rules.antt =====
-- What the upserts and updates of the usage tables of logo-admin/quotas.py do to one row.
use arb_data_warehouse.Prelude.{
  Bool-cases, Dict, Eq, Option-cases, ap, arith, beq_refl, if◌then◌else◌, inl, inr, insert, leb,
  lookup, lookup-insert, none, some, true, ℕ, ◌+◌, ◌==◌, ◌≡◌, ◌≤◌, nat_eq, text_eq, pair_eq,
}
use arb_data_warehouse.Outcomes.{Ensures, gives}
use arb_data_warehouse.Quotas.Types.{QuotaError, Usage}
use arb_data_warehouse.Quotas.Reserve.{charge, charged, first_usage, more_usage}
use arb_data_warehouse.Quotas.Settle.{less_usage, settle_usage}

module _ {K : Type 0} ⦃e : Eq K⦄ where
  -- The reserved tokens of a usage table's row, 0 where there is none.
  unfoldable pub booked : K → Dict K Usage → ℕ
  booked k usage = elim (lookup k usage) [ none ↦ 0 | some u ↦ u.reserved_tokens ]

  -- All the tokens that a usage table's row counts against its cap.
  unfoldable pub spent : K → Dict K Usage → ℕ
  spent k usage = elim (lookup k usage) [ none ↦ 0 | some u ↦ charged u ]

  -- `n` in the row of `k`, nothing in the others.
  abbrev pub at_key : K → ℕ → K → ℕ
  at_key k n j = if k == j then n else 0

  pub booked-insert :
      (k : K) (u : Usage) (usage : Dict K Usage) (j : K)
      → booked j (insert k u usage) ≡ (if k == j then u.reserved_tokens else booked j usage)
  unfolding booked
  booked-insert k u usage j = ground (arith, lookup-insert k j u usage)

  -- A charge adds to its own row, and leaves that row within the cap.
  abbrev pub Charged : ℕ → ℕ → K → Dict K Usage → Dict K Usage → Type 0
  Charged cap n k usage after =
      ((j : K) → booked j after ≡ booked j usage + at_key k n j) × (spent k after ≤ cap)

  pub charge-Charged :
      (cap n : ℕ) (full : QuotaError) (k : K) (usage : Dict K Usage)
      → n ≤ cap
      → Ensures (Charged cap n k usage) (charge cap n full k usage)
  unfolding charge booked spent
  charge-Charged cap n full k usage fits = elim (Option-cases (lookup k usage)) [
    | inl new ↦
        rw (new, charge)
          (
            λ j. ground (
              arith,
              lookup-insert k j (first_usage n) usage,
              e.same_iff k j,
              ap (λ i. lookup i usage),
            ),
            ground (arith, lookup-insert k k (first_usage n) usage, beq_refl k),
          )
    | inr (u, old) ↦
        rw (old, charge)
          (elim (Bool-cases (leb (charged u + n) cap)) [
            | inl room ↦ rw room (
              λ j. ground (
                arith,
                lookup-insert k j (more_usage n u) usage,
                e.same_iff k j,
                ap (λ i. lookup i usage),
              ),
              ground (arith, lookup-insert k k (more_usage n u) usage, beq_refl k),
            )
            | inr no_room ↦ rw no_room tt
          ])
  ]

  -- A settlement takes from its own row.
  abbrev pub Settled : ℕ → K → Dict K Usage → Dict K Usage → Type 0
  Settled n k usage after = (j : K) → booked j after + at_key k n j ≡ booked j usage

  pub settle_usage-Settled :
      (n i o : ℕ) (missing : QuotaError) (k : K) (usage : Dict K Usage)
      → 1 ≤ n
      → n ≤ booked k usage
      → (after : Dict K Usage) × (settle_usage n i o missing k usage ≡ gives after)
        × Settled n k usage after
  unfolding settle_usage booked
  settle_usage-Settled n i o missing k usage some_tokens enough =
      elim (Option-cases (lookup k usage)) [
        | inl new ↦ absurd (ground arith)
        | inr (u, old) ↦
            let fits : leb n u.reserved_tokens ≡ true = ground arith in
            (
              insert k (less_usage n i o u) usage,
              rw (old, settle_usage, fits),
              λ j. ground (
                arith,
                lookup-insert k j (less_usage n i o u) usage,
                e.same_iff k j,
                ap (λ i. lookup i usage),
              ),
            )
      ]

  pub settle_usage-Ensures :
      (n i o : ℕ) (missing : QuotaError) (k : K) (usage : Dict K Usage)
      → 1 ≤ n
      → Ensures (Settled n k usage) (settle_usage n i o missing k usage)
  unfolding settle_usage booked
  settle_usage-Ensures n i o missing k usage some_tokens = elim (Option-cases (lookup k usage)) [
    | inl new ↦ rw (new, settle_usage) tt
    | inr (u, old) ↦
        rw (old, settle_usage)
          (elim (Bool-cases (leb n u.reserved_tokens)) [
            | inl fits ↦ rw fits (λ j. ground (
              arith,
              lookup-insert k j (less_usage n i o u) usage,
              e.same_iff k j,
              ap (λ i. lookup i usage),
            ))
            | inr short ↦ rw short tt
          ])
  ]
