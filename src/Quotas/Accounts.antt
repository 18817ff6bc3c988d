-- ===== src/Quotas/Accounts.antt =====
-- The usage tables against the reservations, those included that the retention cleanup has deleted
-- (logo-admin/quotas.py and cleanup of logo-admin/maintenance.py).
use mathlib.Core.Path.{subst}
use arb_data_warehouse.Prelude.{
  All, All-Among-elim, All-append, Bool, Bool-cases, Distinct, Distinct-append_one, List, Text, [],
  ap, arith, false, find_by, find_by-Among, inl, inr, ltb, map, map-set_by, not, refl, set_by, some,
  sum_of, sum_of-append, sum_of-set_by, sym, true, ℕ, ◌+◌, ◌∙◌, ◌∷◌, ◌≡◌, ◌≤◌, nat_eq, text_eq,
  pair_eq,
}
use arb_data_warehouse.Outcomes.{Ensures, Ensures-weaken}
use arb_data_warehouse.Quotas.Types.{
  Moment, QuotaRow, QuotaSettings, QuotaTables, Reservation, is_reserved, quota_key,
}
use arb_data_warehouse.Quotas.Reserve.{charged, new_row}
use arb_data_warehouse.Quotas.Settle.{sweep_row}
use arb_data_warehouse.Quotas.Rules.{at_key, booked}
use arb_data_warehouse.Quotas.Balance.{
  All-set_by, IsPositive, daily_share, held, map-append_one, monthly_share,
}
use arb_data_warehouse.Quotas.Settling.{
  HasReleased, ended, is_reserved-only, release-Ensures, reserved-held,
}
use arb_data_warehouse.Quotas.Sweeping.{finish_one, kept_charged, reserved_or_retained}
use arb_data_warehouse.Quotas.Reserving.{HasReserved}

-- The usage rows of the day, of the month, are not as old as those that a cleanup at `at` deletes.
abbrev pub keeps_day : ℕ → ℕ → Bool
keeps_day at day = not (ltb (day + 90) at)

abbrev pub keeps_month : ℕ → ℕ → Bool
keeps_month at month = not (ltb (month + 24) at)

-- Ids are the rows' own, and a usage row that no cleanup was to delete has as many tokens reserved
-- as the reservations of its key hold, the deleted ones `gone` included. `day` and `month` are those
-- of the latest cleanup.
pub record Accounted (gone : List QuotaRow) (day month : ℕ) (t : QuotaTables) : Type 0 where
  pub ids : Distinct (map quota_key t.rows)
  pub positive : All IsPositive t.rows
  pub day_sums :
      (key : Text × ℕ)
      → keeps_day day key.1 ≡ true
      → booked key t.daily
        ≡ sum_of quota_key (daily_share key) t.rows + sum_of quota_key (daily_share key) gone
  pub month_sums :
      (key : ℕ)
      → keeps_month month key ≡ true
      → booked key t.monthly
        ≡ sum_of quota_key (monthly_share key) t.rows + sum_of quota_key (monthly_share key) gone

module _ (gone : List QuotaRow) (day month : ℕ) where
  abbrev IsGood : QuotaTables → Type 0
  IsGood = Accounted gone day month

  -- A write that leaves the shares of the row alone.
  pub set_by-Accounted :
      (t : QuotaTables) (k : ℕ) (f : QuotaRow → QuotaRow) (r : QuotaRow)
      → ((x : QuotaRow) → (f x).id ≡ x.id)
      → ((x : QuotaRow) → IsPositive x → IsPositive (f x))
      → find_by quota_key k t.rows ≡ some r
      → ((key : Text × ℕ) → daily_share key (f r) ≡ daily_share key r)
      → ((key : ℕ) → monthly_share key (f r) ≡ monthly_share key r)
      → IsGood t
      → IsGood (record t { rows = set_by quota_key k f t.rows })
  set_by-Accounted t k f r same_id positive found same_day same_month b = record {
    ids = subst Distinct (sym (map-set_by quota_key k f t.rows same_id)) b.ids;
    positive = All-set_by k f t.rows positive b.positive;
    day_sums = λ key kept. omega (
      arith,
      b.day_sums key kept,
      sum_of-set_by quota_key (daily_share key) k f r t.rows b.ids found,
      same_day key,
    );
    month_sums = λ key kept. omega (
      arith,
      b.month_sums key kept,
      sum_of-set_by quota_key (monthly_share key) k f r t.rows b.ids found,
      same_month key,
    );
  }

  pub retained-Accounted :
      (t : QuotaTables) (r : QuotaRow)
      → find_by quota_key r.id t.rows ≡ some r
      → is_reserved r.status ≡ true
      → IsGood t
      → IsGood (record t { rows = set_by quota_key r.id kept_charged t.rows })
  retained-Accounted t r found live b =
      set_by-Accounted t r.id kept_charged r (λ x. refl) (λ x h. h) found
        (λ key.
          ap (λ n. at_key (r.user_login, r.usage_day) n key)
            (reserved_or_retained r.status r.reserved_tokens live))
        (λ key.
          ap (λ n. at_key r.usage_month n key)
            (reserved_or_retained r.status r.reserved_tokens live))
        b

  pub HasReleased-Accounted :
      (r : QuotaRow) (i o : ℕ) (t after : QuotaTables)
      → IsGood t
      → find_by quota_key r.id t.rows ≡ some r
      → held r.status r.reserved_tokens ≡ r.reserved_tokens
      → HasReleased r i o t after
      → IsGood after
  HasReleased-Accounted r i o t after b found charged done = record {
    ids =
        subst Distinct
          (sym (
            ap (map quota_key) done.rows
            ∙ map-set_by quota_key r.id (ended i o) t.rows (λ x. refl)))
          b.ids;
    positive =
        subst (All IsPositive) (sym done.rows)
          (All-set_by r.id (ended i o) t.rows (λ x h. h) b.positive);
    day_sums = λ key kept. ground (
      arith,
      done.daily key,
      b.day_sums key kept,
      ap (sum_of quota_key (daily_share key)) done.rows,
      sum_of-set_by quota_key (daily_share key) r.id (ended i o) r t.rows b.ids found,
    );
    month_sums = λ key kept. ground (
      arith,
      done.monthly key,
      b.month_sums key kept,
      ap (sum_of quota_key (monthly_share key)) done.rows,
      sum_of-set_by quota_key (monthly_share key) r.id (ended i o) r t.rows b.ids found,
    );
  }

  pub reserve-Accounted :
      (settings : QuotaSettings) (m : Moment) (id : ℕ) (user : Text) (n : ℕ) (t : QuotaTables)
      (out : QuotaTables × Reservation)
      → HasReserved settings m id user n t out
      → IsGood t
      → IsGood out.0
  unfolding sum_of
  reserve-Accounted settings m id user n t out done b =
      let new : List QuotaRow = new_row settings m id user n ∷ [] in
      record {
        ids =
            subst Distinct
              (sym (
                ap (map quota_key) done.rows
                ∙ map-append_one t.rows (new_row settings m id user n)))
              (Distinct-append_one (map quota_key t.rows) id b.ids done.fresh);
        positive =
            subst (All IsPositive) (sym done.rows)
              (All-append IsPositive t.rows new b.positive (done.some_tokens, tt));
        day_sums = λ key kept. omega (
          arith,
          done.daily.0 key,
          b.day_sums key kept,
          ap (sum_of quota_key (daily_share key)) done.rows,
          sum_of-append quota_key (daily_share key) t.rows new,
        );
        month_sums = λ key kept. omega (
          arith,
          done.monthly.0 key,
          b.month_sums key kept,
          ap (sum_of quota_key (monthly_share key)) done.rows,
          sum_of-append quota_key (monthly_share key) t.rows new,
        );
      }

  -- A row of the sweep that succeeds.
  pub sweep_row-Accounted :
      (r : QuotaRow) (t : QuotaTables)
      → IsGood t
      → find_by quota_key r.id t.rows ≡ some r
      → is_reserved r.status ≡ true
      → Ensures
          (λ after. IsGood after × (after.rows ≡ set_by quota_key r.id (finish_one r) t.rows))
          (sweep_row r t)
  unfolding sweep_row
  sweep_row-Accounted r t b found live = elim (Bool-cases r.provider_started) [
    | inl e ↦ rw (e, sweep_row) (retained-Accounted t r found live b, refl)
    | inr e ↦
        let some_tokens : 1 ≤ r.reserved_tokens =
          All-Among-elim IsPositive r t.rows b.positive
            (find_by-Among quota_key r.id r t.rows found) in
        let charged : held r.status r.reserved_tokens ≡ r.reserved_tokens =
          reserved-held r (is_reserved-only r.status live) in
        rw (e, sweep_row)
          (Ensures-weaken
            (λ (after : QuotaTables).
              IsGood after
              × (after.rows
                  ≡ set_by quota_key r.id (finish_one (record r { provider_started = false }))
                      t.rows))
            _ (release-Ensures r 0 0 t some_tokens)
            λ after done. (HasReleased-Accounted r 0 0 t after b found charged done, done.rows))
  ]
