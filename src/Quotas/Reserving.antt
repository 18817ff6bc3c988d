-- ===== src/Quotas/Reserving.antt =====
-- What a reservation does to the tables (reserve of logo-admin/quotas.py).
use mathlib.Core.Path.{subst}
use arb_data_warehouse.Prelude.{
  Bool-cases, Dict, List, Option-cases, Text, [], arith, beq_refl, contains, false, inl, inr,
  lookup, lookup-insert, ltb, map, none, not, refl, some, suc, sym, ℕ, ◌++◌, ◌||◌, ◌∷◌, ◌≡◌, ◌≤◌,
  nat_eq, text_eq, pair_eq,
}
use arb_data_warehouse.Outcomes.{Ensures, Ensures-bind, Ensures-check, Ensures-gives, gives}
use arb_data_warehouse.Quotas.Types.{
  Moment, QuotaRow, QuotaSettings, QuotaTables, Reservation, budget_exceeded, daily_exceeded,
  duplicate_id, monthly_exceeded, not_positive, quota_key,
}
use arb_data_warehouse.Quotas.Reserve.{at_least, charge, count_request, handle_of, new_row, reserve}
use arb_data_warehouse.Quotas.Rules.{Charged, charge-Charged, spent}
use arb_data_warehouse.Quotas.Balance.{Balanced, charged-Balanced}

-- The requests counted in a window, 0 where there is no row.
unfoldable pub requests_in : Text × ℕ → Dict (Text × ℕ) ℕ → ℕ
requests_in key rate = elim (lookup key rate) [ none ↦ 0 | some n ↦ n ]

count_request-bound :
    (limit : ℕ) (key : Text × ℕ) (rate : Dict (Text × ℕ) ℕ)
    → Ensures (λ after. requests_in key after ≤ at_least 1 limit) (count_request limit key rate)
unfolding count_request requests_in
count_request-bound limit key rate = elim (Option-cases (lookup key rate)) [
  | inl new ↦ rw (new, count_request) (ground (arith, lookup-insert key key 1 rate, beq_refl key))
  | inr (n, old) ↦
      rw (old, count_request)
        (elim (Bool-cases (ltb n limit)) [
          | inl room ↦ rw room (ground (arith, lookup-insert key key (suc n) rate, beq_refl key))
          | inr full ↦ rw full tt
        ])
]

-- Everything a reservation that is given has done.
pub record HasReserved (settings : QuotaSettings) (m : Moment) (id : ℕ) (user : Text) (n : ℕ)
    (t : QuotaTables) (out : QuotaTables × Reservation) : Type 0 where
  pub some_tokens : 1 ≤ n
  pub fresh : contains (map quota_key t.rows) id ≡ false
  pub rows : out.0.rows ≡ t.rows ++ new_row settings m id user n ∷ []
  pub handle : out.1 ≡ handle_of (new_row settings m id user n)
  pub rate : requests_in (user, m.minute) out.0.rate ≤ at_least 1 settings.requests_per_minute
  pub daily : Charged settings.daily_cap n (user, m.day) t.daily out.0.daily
  pub monthly : Charged settings.monthly_cap n m.month t.monthly out.0.monthly

pub reserve-HasReserved :
    (settings : QuotaSettings) (m : Moment) (id : ℕ) (user : Text) (n : ℕ) (t : QuotaTables)
    → Ensures (HasReserved settings m id user n t) (reserve settings m id user n t)
unfolding reserve
reserve-HasReserved settings m id user n t =
    let P : QuotaTables × Reservation → Type 0 = HasReserved settings m id user n t in
    Ensures-check P (ltb 0 n) not_positive _ λ some_tokens.
      Ensures-check P (not (ltb settings.daily_cap n || ltb settings.monthly_cap n)) budget_exceeded
        _
        λ fits.
          Ensures-bind P
            (λ rate. requests_in (user, m.minute) rate ≤ at_least 1 settings.requests_per_minute)
            (count_request settings.requests_per_minute (user, m.minute) t.rate) _
            (count_request-bound settings.requests_per_minute (user, m.minute) t.rate)
            λ rate counted.
              Ensures-bind P (Charged settings.daily_cap n (user, m.day) t.daily)
                (charge settings.daily_cap n daily_exceeded (user, m.day) t.daily) _
                (charge-Charged settings.daily_cap n daily_exceeded (user, m.day) t.daily
                  (ground arith))
                λ daily days.
                  Ensures-bind P (Charged settings.monthly_cap n m.month t.monthly)
                    (charge settings.monthly_cap n monthly_exceeded m.month t.monthly) _
                    (charge-Charged settings.monthly_cap n monthly_exceeded m.month t.monthly
                      (ground arith))
                    λ monthly months.
                      Ensures-check P (not (contains (map quota_key t.rows) id)) duplicate_id _
                        λ fresh. record {
                          some_tokens = ground arith;
                          fresh = ground arith;
                          rows = refl;
                          handle = refl;
                          rate = counted;
                          daily = days;
                          monthly = months;
                        }

-- When a reservation is given, the caller's tokens of the day are within the daily cap and all the
-- tokens of the month within the monthly cap (used input and output and reservations together), and
-- the caller's requests of the minute are within the limit per minute, one being always allowed.
pub reserve-keeps_caps :
    (settings : QuotaSettings) (m : Moment) (id : ℕ) (user : Text) (n : ℕ) (t : QuotaTables)
    (out : QuotaTables × Reservation)
    → reserve settings m id user n t ≡ gives out
    → (spent (user, m.day) out.0.daily ≤ settings.daily_cap)
      × (spent m.month out.0.monthly ≤ settings.monthly_cap)
      × (requests_in (user, m.minute) out.0.rate ≤ at_least 1 settings.requests_per_minute)
reserve-keeps_caps settings m id user n t out given =
    let done : HasReserved settings m id user n t out =
      Ensures-gives (HasReserved settings m id user n t) (reserve settings m id user n t) out given
        (reserve-HasReserved settings m id user n t) in
    (done.daily.1, done.monthly.1, done.rate)

pub reserve-Balanced :
    (settings : QuotaSettings) (m : Moment) (id : ℕ) (user : Text) (n : ℕ) (t : QuotaTables)
    (out : QuotaTables × Reservation)
    → HasReserved settings m id user n t out
    → Balanced t
    → Balanced out.0
reserve-Balanced settings m id user n t out done b =
    let other : Balanced (record {
      rate = out.0.rate;
      daily = out.0.daily;
      monthly = out.0.monthly;
      rows = t.rows ++ new_row settings m id user n ∷ [];
    }) =
      charged-Balanced t out.0.rate out.0.daily out.0.monthly settings m id user n done.some_tokens
        done.fresh done.daily.0 done.monthly.0 b in
    subst
      (λ (rows : List QuotaRow).
        Balanced
          (record { rate = out.0.rate; daily = out.0.daily; monthly = out.0.monthly; rows = rows }))
      (sym done.rows) other
