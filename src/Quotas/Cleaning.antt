-- ===== src/Quotas/Cleaning.antt =====
-- What the retention cleanup leaves of the quota tables (cleanup of logo-admin/maintenance.py).
use arb_data_warehouse.Prelude.{
  All, Bool, Bool-cases, Dict, Distinct, Distinct-map-keep_if, Eq, List, Text, [], ap, arith,
  contains, false, find_by, inl, inr, keep_if, lookup, ltb, map, nat_beq_iff, none, not, refl, some,
  sum_of, sum_of-append, sym, true, ℕ, ◌++◌, ◌+◌, ◌==◌, ◌∙◌, ◌∷◌, ◌≡◌, ◌⊎◌, nat_eq, text_eq,
  pair_eq,
}
use arb_data_warehouse.Quotas.Types.{Moment, QuotaRow, QuotaTables, Usage, quota_key}
use arb_data_warehouse.Quotas.Reserve.{at_least}
use arb_data_warehouse.Quotas.Cleanup.{clean_quotas, is_outdated}
use arb_data_warehouse.Quotas.Rules.{booked}
use arb_data_warehouse.Quotas.Balance.{IsPositive, daily_share, monthly_share}
use arb_data_warehouse.Quotas.Accounts.{Accounted}

module _ {K : Type 0} ⦃e : Eq K⦄ {V : Type 0} (q : K → Bool) where
  -- Entries of other keys do not matter to a lookup.
  lookup-keep_if :
      (k : K) (d : Dict K V) → q k ≡ true → lookup k (keep_if (λ (x : K × V). q x.0) d) ≡ lookup k d
  unfolding lookup keep_if
  lookup-keep_if k [] h = refl
  lookup-keep_if k ((j, v) ∷ d) h = elim (Bool-cases (q j)) [
    | inl kept ↦ ground (arith, lookup-keep_if k d h)
    | inr dropped ↦ elim (Bool-cases (j == k)) [
      | inl same ↦ absurd (ground (arith, e.same_iff j k, ap q {x = j} {y = k}))
      | inr other ↦ ground (arith, lookup-keep_if k d h)
    ]
  ]

find_by-absent :
    (k : ℕ) (rows : List QuotaRow)
    → contains (map quota_key rows) k ≡ false
    → find_by quota_key k rows ≡ none
unfolding find_by contains
find_by-absent k [] h = refl
find_by-absent k (x ∷ rows) h =
    ground (arith, find_by-absent k rows, nat_beq_iff x.id k, nat_beq_iff k x.id)

module _ {K : Type 0} ⦃e : Eq K⦄ (q : K → Bool) where
  booked-keep_if :
      (k : K) (d : Dict K Usage)
      → q k ≡ true
      → booked k (keep_if (λ (x : K × Usage). q x.0) d) ≡ booked k d
  unfolding booked
  booked-keep_if k d h = rw (lookup-keep_if q k d h, booked) refl

module _ (p : QuotaRow → Bool) where
  find_by-kept :
      (k : ℕ) (r : QuotaRow) (rows : List QuotaRow)
      → find_by quota_key k rows ≡ some r
      → p r ≡ true
      → find_by quota_key k (keep_if p rows) ≡ some r
  unfolding find_by keep_if
  find_by-kept k r [] found h = absurd (cc)
  find_by-kept k r (x ∷ rows) found h = elim (Bool-cases (x.id == k)) [
    | inl e ↦
        let same : x ≡ r = ground arith in
        let kept : p x ≡ true = ap p same ∙ h in rw (kept, e) (ap (λ v. some v) same)
    | inr e ↦
        let rest = find_by-kept k r rows (ground arith) h in
        elim (Bool-cases (p x)) [ inl kept ↦ rw (kept, e) rest | inr dropped ↦ rw dropped rest ]
  ]

  find_by-keep_if-none :
      (k : ℕ) (rows : List QuotaRow)
      → find_by quota_key k rows ≡ none
      → find_by quota_key k (keep_if p rows) ≡ none
  unfolding find_by keep_if
  find_by-keep_if-none k [] found = refl
  find_by-keep_if-none k (x ∷ rows) found = elim (Bool-cases (x.id == k)) [
    | inl e ↦ absurd (ground arith)
    | inr e ↦
        let rest = find_by-keep_if-none k rows (ground arith) in
        elim (Bool-cases (p x)) [ inl kept ↦ rw (kept, e) rest | inr dropped ↦ rw dropped rest ]
  ]

  find_by-dropped :
      (k : ℕ) (r : QuotaRow) (rows : List QuotaRow)
      → Distinct (map quota_key rows)
      → find_by quota_key k rows ≡ some r
      → p r ≡ false
      → find_by quota_key k (keep_if p rows) ≡ none
  unfolding find_by keep_if
  find_by-dropped k r [] d found h = absurd (cc)
  find_by-dropped k r (x ∷ rows) d found h = elim (Bool-cases (x.id == k)) [
    | inl e ↦
        let same : x ≡ r = ground arith in
        let dropped : p x ≡ false = ap p same ∙ h in
        let alone : contains (map quota_key rows) k ≡ false =
          ap (contains (map quota_key rows)) (sym ((nat_beq_iff x.id k).0 e)) ∙ d.0 in
        rw dropped (find_by-keep_if-none k rows (find_by-absent k rows alone))
    | inr e ↦
        let rest = find_by-dropped k r rows d.1 (ground arith) h in
        elim (Bool-cases (p x)) [ inl kept ↦ rw (kept, e) rest | inr dropped ↦ rw dropped rest ]
  ]

  contains-dropped :
      (k : ℕ) (r : QuotaRow) (rows : List QuotaRow)
      → find_by quota_key k rows ≡ some r
      → p r ≡ true
      → contains (map quota_key (keep_if p rows)) k ≡ true
  unfolding find_by keep_if contains
  contains-dropped k r [] found h = absurd (cc)
  contains-dropped k r (x ∷ rows) found h = elim (Bool-cases (x.id == k)) [
    | inl e ↦
        let same : x ≡ r = ground arith in
        let kept : p x ≡ true = ap p same ∙ h in
        rw kept (ground (arith, nat_beq_iff x.id k, nat_beq_iff k x.id))
    | inr e ↦
        let rest = contains-dropped k r rows (ground arith) h in
        elim (Bool-cases (p x)) [
          | inl kept ↦ rw kept (ground arith)
          | inr dropped ↦ rw dropped rest
        ]
  ]

  sum_of-split :
      (w : QuotaRow → ℕ) (rows : List QuotaRow)
      → sum_of quota_key w (keep_if (λ r. not (p r)) rows) + sum_of quota_key w (keep_if p rows)
        ≡ sum_of quota_key w rows
  unfolding sum_of keep_if
  sum_of-split w [] = omega arith
  sum_of-split w (x ∷ rows) = elim (Bool-cases (p x)) [
    | inl e ↦ rw e (omega (arith, sum_of-split w rows))
    | inr e ↦ rw e (omega (arith, sum_of-split w rows))
  ]

  All-keep_if : (rows : List QuotaRow) → All IsPositive rows → All IsPositive (keep_if p rows)
  unfolding keep_if
  All-keep_if [] h = tt
  All-keep_if (x ∷ rows) h = elim (Bool-cases (p x)) [
    | inl e ↦ rw e (h.0, All-keep_if rows h.1)
    | inr e ↦ rw e (All-keep_if rows h.1)
  ]

-- The reservations that a cleanup deletes.
abbrev pub outdated : Moment → List QuotaRow → List QuotaRow
outdated m rows = keep_if (is_outdated m) rows

module _ (gone : List QuotaRow) (day month : ℕ) (m : Moment) (t : QuotaTables) where
  pub clean_quotas-Accounted :
      Accounted gone day month t
      → Accounted
          (gone ++ outdated m t.rows)
          (at_least day m.day)
          (at_least month m.month)
          (clean_quotas m t)
  unfolding clean_quotas
  clean_quotas-Accounted b = record {
    ids = Distinct-map-keep_if quota_key (λ r. not (is_outdated m r)) t.rows b.ids;
    positive = All-keep_if (λ r. not (is_outdated m r)) t.rows b.positive;
    day_sums = λ key kept. omega (
      arith,
      booked-keep_if (λ (k : Text × ℕ). not (ltb (k.1 + 90) m.day)) key t.daily (ground arith),
      b.day_sums key (ground arith),
      sum_of-split (is_outdated m) (daily_share key) t.rows,
      sum_of-append quota_key (daily_share key) gone (outdated m t.rows),
    );
    month_sums = λ key kept. omega (
      arith,
      booked-keep_if (λ (k : ℕ). not (ltb (k + 24) m.month)) key t.monthly (ground arith),
      b.month_sums key (ground arith),
      sum_of-split (is_outdated m) (monthly_share key) t.rows,
      sum_of-append quota_key (monthly_share key) gone (outdated m t.rows),
    );
  }

  -- A row that a cleanup finds stays as it is, or is deleted and remembered as such.
  pub clean_quotas-row :
      (k : ℕ) (r : QuotaRow)
      → Distinct (map quota_key t.rows)
      → find_by quota_key k t.rows ≡ some r
      → (find_by quota_key k (clean_quotas m t).rows ≡ some r)
        ⊎ ((contains (map quota_key (outdated m t.rows)) k ≡ true)
            × (find_by quota_key k (clean_quotas m t).rows ≡ none))
  unfolding clean_quotas
  clean_quotas-row k r d found = elim (Bool-cases (is_outdated m r)) [
    | inl old ↦ inr (
      contains-dropped (is_outdated m) k r t.rows found old,
      find_by-dropped (λ x. not (is_outdated m x)) k r t.rows d found (ground arith),
    )
    | inr young ↦ inl (find_by-kept (λ x. not (is_outdated m x)) k r t.rows found (ground arith))
  ]

  pub clean_quotas-none :
      (k : ℕ)
      → find_by quota_key k t.rows ≡ none
      → find_by quota_key k (clean_quotas m t).rows ≡ none
  unfolding clean_quotas
  clean_quotas-none k found = find_by-keep_if-none (λ x. not (is_outdated m x)) k t.rows found
