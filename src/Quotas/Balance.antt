-- ===== src/Quotas/Balance.antt =====
-- The usage tables against the reservations (logo-admin/quotas.py): what is booked is what the
-- reservations still hold.
use mathlib.Core.Path.{subst}
use arb_data_warehouse.Prelude.{
  All, All-append, Bool-cases, Dict, Distinct, Distinct-append_one, List, Text, [], ap, arith,
  contains, false, find_by, inl, inr, map, map-set_by, refl, set_by, some, sum_of, sum_of-append,
  sum_of-set_by, sym, ℕ, ◌++◌, ◌+◌, ◌==◌, ◌∷◌, ◌≡◌, ◌≤◌, nat_eq, text_eq, pair_eq,
}
use arb_data_warehouse.Quotas.Types.{
  Moment, QuotaRow, QuotaSettings, QuotaTables, ReservationStatus, Usage, quota_key, reconciled,
}
use arb_data_warehouse.Quotas.Reserve.{new_row}
use arb_data_warehouse.Quotas.Rules.{at_key, booked}

-- The tokens a reservation keeps charged: all of them until it is reconciled.
abbrev pub held : ReservationStatus → ℕ → ℕ
held reconciled n = 0
held _ n = n

abbrev pub daily_share : Text × ℕ → QuotaRow → ℕ
daily_share key r = at_key (r.user_login, r.usage_day) (held r.status r.reserved_tokens) key

abbrev pub monthly_share : ℕ → QuotaRow → ℕ
monthly_share key r = at_key r.usage_month (held r.status r.reserved_tokens) key

abbrev pub IsPositive : QuotaRow → Type 0
IsPositive r = 1 ≤ r.reserved_tokens

-- Ids are the rows' own, and each row of a usage table has as many tokens reserved as the
-- reservations of its key hold.
pub record Balanced (t : QuotaTables) : Type 0 where
  pub ids : Distinct (map quota_key t.rows)
  pub positive : All IsPositive t.rows
  pub day_sums : (key : Text × ℕ) → booked key t.daily ≡ sum_of quota_key (daily_share key) t.rows
  pub month_sums : (key : ℕ) → booked key t.monthly ≡ sum_of quota_key (monthly_share key) t.rows

pub All-set_by :
    (k : ℕ) (f : QuotaRow → QuotaRow) (rows : List QuotaRow)
    → ((r : QuotaRow) → IsPositive r → IsPositive (f r))
    → All IsPositive rows
    → All IsPositive (set_by quota_key k f rows)
unfolding set_by
All-set_by k f [] kept h = tt
All-set_by k f (r ∷ rows) kept h = elim (Bool-cases (r.id == k)) [
  | inl e ↦ rw e (kept r h.0, All-set_by k f rows kept h.1)
  | inr e ↦ rw e (h.0, All-set_by k f rows kept h.1)
]

-- A write that leaves the shares of the row alone.
pub set_by-Balanced :
    (t : QuotaTables) (k : ℕ) (f : QuotaRow → QuotaRow) (r : QuotaRow)
    → ((x : QuotaRow) → (f x).id ≡ x.id)
    → ((x : QuotaRow) → IsPositive x → IsPositive (f x))
    → find_by quota_key k t.rows ≡ some r
    → ((key : Text × ℕ) → daily_share key (f r) ≡ daily_share key r)
    → ((key : ℕ) → monthly_share key (f r) ≡ monthly_share key r)
    → Balanced t
    → Balanced (record t { rows = set_by quota_key k f t.rows })
set_by-Balanced t k f r same_id positive found same_day same_month b = record {
  ids = subst Distinct (sym (map-set_by quota_key k f t.rows same_id)) b.ids;
  positive = All-set_by k f t.rows positive b.positive;
  day_sums = λ key. omega (
    arith,
    b.day_sums key,
    sum_of-set_by quota_key (daily_share key) k f r t.rows b.ids found,
    same_day key,
  );
  month_sums = λ key. omega (
    arith,
    b.month_sums key,
    sum_of-set_by quota_key (monthly_share key) k f r t.rows b.ids found,
    same_month key,
  );
}

pub map-append_one :
    (rows : List QuotaRow) (r : QuotaRow)
    → map quota_key (rows ++ r ∷ []) ≡ map quota_key rows ++ r.id ∷ []
map-append_one [] r = refl
map-append_one (x ∷ rows) r = ap (λ l. x.id ∷ l) (map-append_one rows r)

-- A charge of both usage tables together with a new row that holds the tokens.
pub charged-Balanced :
    (t : QuotaTables) (rate : Dict (Text × ℕ) ℕ) (daily : Dict (Text × ℕ) Usage)
    (monthly : Dict ℕ Usage) (settings : QuotaSettings) (m : Moment) (id : ℕ) (user : Text) (n : ℕ)
    → 1 ≤ n
    → contains (map quota_key t.rows) id ≡ false
    → ((key : Text × ℕ) → booked key daily ≡ booked key t.daily + at_key (user, m.day) n key)
    → ((key : ℕ) → booked key monthly ≡ booked key t.monthly + at_key m.month n key)
    → Balanced t
    → Balanced (record {
      rate = rate;
      daily = daily;
      monthly = monthly;
      rows = t.rows ++ new_row settings m id user n ∷ [];
    })
unfolding sum_of
charged-Balanced t rate daily monthly settings m id user n some_tokens fresh days months b =
    record {
      ids =
          subst Distinct (sym (map-append_one t.rows (new_row settings m id user n)))
            (Distinct-append_one (map quota_key t.rows) id b.ids fresh);
      positive =
          All-append IsPositive t.rows (new_row settings m id user n ∷ []) b.positive
            (some_tokens, tt);
      day_sums = λ key. omega (
        arith,
        days key,
        b.day_sums key,
        sum_of-append quota_key (daily_share key) t.rows (new_row settings m id user n ∷ []),
      );
      month_sums = λ key. omega (
        arith,
        months key,
        b.month_sums key,
        sum_of-append quota_key (monthly_share key) t.rows (new_row settings m id user n ∷ []),
      );
    }
