-- ===== src/Quotas/Always.antt =====
-- What holds of the quota tables at any time, and what a reservation's whole life does to them
-- (logo-admin/quotas.py).
use arb_data_warehouse.Prelude.{
  All-Among-elim, Among, Bool, Bool-cases, List, Text, [], ap, arith, at_least_zero, beq_refl,
  contains, false, find_by, find_by-Among, find_by-append_one, inl, inr, lookup, map, pos, refl,
  some, sum_of, sym, true, ℕ, ℤ, ◌∙◌, ◌≡◌, nat_eq, text_eq, pair_eq,
}
use arb_data_warehouse.Outcomes.{Ensures-gives, gives}
use arb_data_warehouse.Quotas.Types.{
  Moment, QuotaRow, QuotaSettings, QuotaTables, Reservation, is_reserved, quota_key, reserved,
}
use arb_data_warehouse.Quotas.Reserve.{handle_of, new_row, reserve}
use arb_data_warehouse.Quotas.Settle.{reconcile, release}
use arb_data_warehouse.Quotas.Rules.{booked}
use arb_data_warehouse.Quotas.Accounts.{Accounted, keeps_day, keeps_month}
use arb_data_warehouse.Quotas.Balance.{Balanced, IsPositive, daily_share, held, monthly_share}
use arb_data_warehouse.Quotas.Reserving.{HasReserved, reserve-Balanced, reserve-HasReserved}
use arb_data_warehouse.Quotas.Settling.{
  HasReleased, is_reserved-only, reconcile-closed, reconcile-ends, reconcile-open, release-fits,
  reserved-held, sum_of-one,
}
use arb_data_warehouse.Quotas.Steps.{
  HasRow-cases, IsKnown, IsSound, QuotaReach, QuotaWorld, and_then, at_start,
}
use arb_data_warehouse.Quotas.Sound.{step-IsSound}

-- Whatever transactions and retention cleanups have committed, from empty tables, where no uuid of a
-- deleted reservation is given out again: ids of reservations are distinct and their tokens positive;
-- the usage row of every user's day that is not more than 90 days, and of every month that is not more
-- than 24 months, before the latest cleanup has reserved exactly the tokens of its open and retained
-- reservations, those included that cleanups have deleted, of which none was open; and each handle
-- that a caller has got is that of a row of the table, or a cleanup has deleted the row with its id.
pub reachable_quotas_balance : (w : QuotaWorld) → QuotaReach w → IsSound w
unfolding booked sum_of lookup
reachable_quotas_balance w at_start = record {
  accounted = record {
    ids = tt;
    positive = tt;
    day_sums = λ key kept. refl;
    month_sums = λ key kept. refl;
  };
  closed = tt;
  owned = tt;
}
reachable_quotas_balance w (and_then {w = v} before step) =
    step-IsSound v w step (reachable_quotas_balance v before)

-- Tables that no cleanup has touched are balanced.
pub uncleaned-Balanced : (t : QuotaTables) → Accounted [] 0 0 t → Balanced t
unfolding sum_of
uncleaned-Balanced t a = record {
  ids = a.ids;
  positive = a.positive;
  day_sums = λ key. omega (arith, a.day_sums key (ground arith));
  month_sums = λ key. omega (arith, a.month_sums key (ground arith));
}

-- Accounts that are kept have the tokens of an open reservation.
release-covered :
    (gone : List QuotaRow) (day month : ℕ) (r : QuotaRow) (i o : ℕ) (t : QuotaTables)
    → Accounted gone day month t
    → find_by quota_key r.id t.rows ≡ some r
    → r.status ≡ reserved
    → keeps_day day r.usage_day ≡ true
    → keeps_month month r.usage_month ≡ true
    → (after : QuotaTables) × (release r.id r.user_login r.usage_day r.usage_month r.reserved_tokens
          i o t
        ≡ gives after)
      × HasReleased r i o t after
release-covered gone day month r i o t a found live kept_day kept_month =
    let key : Text × ℕ = (r.user_login, r.usage_day) in
    let charged : held r.status r.reserved_tokens ≡ r.reserved_tokens = reserved-held r live in
    release-fits r i o t
      (All-Among-elim IsPositive r t.rows a.positive (find_by-Among quota_key r.id r t.rows found))
      (ground (
        arith,
        a.day_sums key kept_day,
        sum_of-one (daily_share key) r.id r t.rows found,
        beq_refl key,
      ))
      (ground (
        arith,
        a.month_sums r.usage_month kept_month,
        sum_of-one (monthly_share r.usage_month) r.id r t.rows found,
        beq_refl r.usage_month,
      ))

-- In every state that transactions and retention cleanups lead to, where no uuid of a deleted
-- reservation is given out again, reconciling a handle that a caller has got does not fail, whatever became of its reservation meanwhile and whatever tokens were used,
-- as long as no cleanup has deleted its row and its day and month are not more than 90 days and 24
-- months before the latest cleanup.
pub reconcile_never_fails :
    (w : QuotaWorld) (res : Reservation) (i o : ℤ)
    → QuotaReach w
    → Among res w.handles
    → contains (map quota_key w.gone) res.id ≡ false
    → keeps_day w.cleaned_day res.usage_day ≡ true
    → keeps_month w.cleaned_month res.usage_month ≡ true
    → (after : QuotaTables) × (flag : Bool) × (reconcile res i o w.tables ≡ gives (after, flag))
reconcile_never_fails w res i o reached mine there kept_day kept_month =
    let s : IsSound w = reachable_quotas_balance w reached in
    elim (All-Among-elim (IsKnown w.gone w.tables.rows) res w.handles s.owned mine) [
      | inr lost ↦ absurd (ground (arith, lost.0))
      | inl row ↦
          let owner : (r : QuotaRow) × (find_by quota_key r.id w.tables.rows ≡ some r)
              × (handle_of r ≡ res) =
            HasRow-cases w.tables.rows res row in
          let r : QuotaRow = owner.0 in
          let back : reconcile res i o w.tables ≡ reconcile (handle_of r) i o w.tables =
            ap (λ (h : Reservation). reconcile h i o w.tables) (sym owner.2) in
          elim (Bool-cases (is_reserved r.status)) [
            | inl live ↦
                let open_row : r.status ≡ reserved = is_reserved-only r.status live in
                let end =
                  release-covered w.gone w.cleaned_day w.cleaned_month r (at_least_zero i)
                    (at_least_zero o) w.tables s.accounted owner.1 open_row
                    (ap (λ (h : Reservation). keeps_day w.cleaned_day h.usage_day) owner.2
                      ∙ kept_day)
                    (ap (λ (h : Reservation). keeps_month w.cleaned_month h.usage_month) owner.2
                      ∙ kept_month) in
                (end.0, true, back ∙ reconcile-open r i o w.tables end.0 owner.1 open_row end.1)
            | inr closed ↦ (w.tables, false, back ∙ reconcile-closed r i o w.tables owner.1 closed)
          ]
    ]

-- Reserving and then reconciling with no tokens used gives every day's and every month's reserved tokens
-- back as they were, if the tables were balanced; the reconciliation does not fail and reports that it ended it.
pub reserve-reconcile :
    (settings : QuotaSettings) (m : Moment) (id : ℕ) (user : Text) (n : ℕ) (t : QuotaTables)
    (mid : QuotaTables) (res : Reservation)
    → Balanced t
    → reserve settings m id user n t ≡ gives (mid, res)
    → (after : QuotaTables) × (reconcile res (pos 0) (pos 0) mid ≡ gives (after, true))
      × ((key : Text × ℕ) → booked key after.daily ≡ booked key t.daily)
      × ((key : ℕ) → booked key after.monthly ≡ booked key t.monthly)
reserve-reconcile settings m id user n t mid res b gave =
    let done : HasReserved settings m id user n t (mid, res) =
      Ensures-gives (HasReserved settings m id user n t) (reserve settings m id user n t) (mid, res)
        gave (reserve-HasReserved settings m id user n t) in
    let row : QuotaRow = new_row settings m id user n in
    let found : find_by quota_key id mid.rows ≡ some row =
      ap (find_by quota_key id) done.rows ∙ find_by-append_one quota_key row t.rows done.fresh in
    let end =
      reconcile-ends row (pos 0) (pos 0) mid
        (reserve-Balanced settings m id user n t (mid, res) done b) found refl in
    (
      end.0,
      ap (λ (h : Reservation). reconcile h (pos 0) (pos 0) mid) done.handle ∙ end.1,
      λ key. omega (arith, (end.4).daily key, done.daily.0 key),
      λ key. omega (arith, (end.4).monthly key, done.monthly.0 key),
    )
