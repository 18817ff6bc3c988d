-- ===== src/Quotas/Settling.antt =====
-- What ending a reservation does to the tables (reconcile, retain and mark_provider_started of
-- logo-admin/quotas.py).
use mathlib.Core.Path.{subst}
use arb_data_warehouse.Prelude.{
  All, All-Among-elim, Bool-cases, Dict, Distinct, List, Text, [], ap, arith, at_least_zero,
  beq_refl, false, find_by, find_by-Among, find_by-set_by, inl, inr, map, map-set_by, refl, set_by,
  some, sum_of, sum_of-set_by, sym, true, ℕ, ℤ, ◌==◌, ◌∙◌, ◌∷◌, ◌≡◌, ◌≤◌, nat_eq, text_eq, pair_eq,
}
use arb_data_warehouse.Outcomes.{Ensures, Ensures-bind, gives}
use arb_data_warehouse.Quotas.Types.{
  QuotaRow, QuotaTables, ReservationStatus, Usage, daily_missing, is_reserved, monthly_missing,
  quota_key, reconciled, reserved, retained,
}
use arb_data_warehouse.Quotas.Reserve.{charged, handle_of}
use arb_data_warehouse.Quotas.Settle.{find_reservation, reconcile, release, settle_usage}
use arb_data_warehouse.Quotas.Rules.{Settled, booked, settle_usage-Ensures, settle_usage-Settled}
use arb_data_warehouse.Quotas.Balance.{
  All-set_by, Balanced, IsPositive, daily_share, held, monthly_share,
}

abbrev pub ended : ℕ → ℕ → QuotaRow → QuotaRow
ended i o r = record r { status = reconciled; input_tokens = i; output_tokens = o }

pub sum_of-one :
    (w : QuotaRow → ℕ) (k : ℕ) (r : QuotaRow) (rows : List QuotaRow)
    → find_by quota_key k rows ≡ some r
    → w r ≤ sum_of quota_key w rows
unfolding sum_of find_by
sum_of-one w k r [] found = absurd (cc)
sum_of-one w k r (x ∷ rows) found = elim (Bool-cases (x.id == k)) [
  | inl e ↦ let same : x ≡ r = ground arith in omega (arith, ap w same)
  | inr e ↦ omega (arith, sum_of-one w k r rows (ground arith))
]

-- What releasing a row has done.
pub record HasReleased (r : QuotaRow) (i o : ℕ) (t after : QuotaTables) : Type 0 where
  pub rows : after.rows ≡ set_by quota_key r.id (ended i o) t.rows
  pub daily : Settled r.reserved_tokens (r.user_login, r.usage_day) t.daily after.daily
  pub monthly : Settled r.reserved_tokens r.usage_month t.monthly after.monthly

-- A release succeeds where both usage rows have the tokens.
pub release-fits :
    (r : QuotaRow) (i o : ℕ) (t : QuotaTables)
    → 1 ≤ r.reserved_tokens
    → r.reserved_tokens ≤ booked (r.user_login, r.usage_day) t.daily
    → r.reserved_tokens ≤ booked r.usage_month t.monthly
    → (after : QuotaTables) × (release r.id r.user_login r.usage_day r.usage_month r.reserved_tokens
          i o t
        ≡ gives after)
      × HasReleased r i o t after
unfolding release
release-fits r i o t some_tokens day_fits month_fits =
    let day : Text × ℕ = (r.user_login, r.usage_day) in
    let days : (d : Dict (Text × ℕ) Usage) × (settle_usage r.reserved_tokens i o daily_missing day
            t.daily
          ≡ gives d)
        × Settled r.reserved_tokens day t.daily d =
      settle_usage-Settled r.reserved_tokens i o daily_missing day t.daily some_tokens day_fits in
    let months : (d : Dict ℕ Usage) × (settle_usage r.reserved_tokens i o monthly_missing
            r.usage_month t.monthly
          ≡ gives d)
        × Settled r.reserved_tokens r.usage_month t.monthly d =
      settle_usage-Settled r.reserved_tokens i o monthly_missing r.usage_month t.monthly some_tokens
        month_fits in
    (
      record t {
        daily = days.0;
        monthly = months.0;
        rows = set_by quota_key r.id (ended i o) t.rows;
      },
      rw (days.1, months.1, release),
      record { rows = refl; daily = days.2; monthly = months.2 },
    )

-- Balanced tables have the tokens of every reservation that is still charged.
pub release-HasReleased :
    (r : QuotaRow) (i o : ℕ) (t : QuotaTables)
    → Balanced t
    → find_by quota_key r.id t.rows ≡ some r
    → held r.status r.reserved_tokens ≡ r.reserved_tokens
    → (after : QuotaTables) × (release r.id r.user_login r.usage_day r.usage_month r.reserved_tokens
          i o t
        ≡ gives after)
      × HasReleased r i o t after
release-HasReleased r i o t b found charged =
    let day : Text × ℕ = (r.user_login, r.usage_day) in
    release-fits r i o t
      (All-Among-elim IsPositive r t.rows b.positive (find_by-Among quota_key r.id r t.rows found))
      (ground
        (arith, b.day_sums day, sum_of-one (daily_share day) r.id r t.rows found, beq_refl day))
      (ground (
        arith,
        b.month_sums r.usage_month,
        sum_of-one (monthly_share r.usage_month) r.id r t.rows found,
        beq_refl r.usage_month,
      ))

-- Whenever a release succeeds, it has done its work.
pub release-Ensures :
    (r : QuotaRow) (i o : ℕ) (t : QuotaTables)
    → 1 ≤ r.reserved_tokens
    → Ensures
        (HasReleased r i o t)
        (release r.id r.user_login r.usage_day r.usage_month r.reserved_tokens i o t)
unfolding release
release-Ensures r i o t some_tokens =
    let P : QuotaTables → Type 0 = HasReleased r i o t in
    let n : ℕ = r.reserved_tokens in
    Ensures-bind P (Settled n (r.user_login, r.usage_day) t.daily) _ _
      (settle_usage-Ensures n i o daily_missing (r.user_login, r.usage_day) t.daily some_tokens)
      λ daily days.
        Ensures-bind P (Settled n r.usage_month t.monthly) _ _
          (settle_usage-Ensures n i o monthly_missing r.usage_month t.monthly some_tokens)
          λ monthly months. record { rows = refl; daily = days; monthly = months }

pub HasReleased-Balanced :
    (r : QuotaRow) (i o : ℕ) (t after : QuotaTables)
    → Balanced t
    → find_by quota_key r.id t.rows ≡ some r
    → held r.status r.reserved_tokens ≡ r.reserved_tokens
    → HasReleased r i o t after
    → Balanced after
HasReleased-Balanced r i o t after b found charged done = record {
  ids =
      subst Distinct
        (sym
          (ap (map quota_key) done.rows ∙ map-set_by quota_key r.id (ended i o) t.rows (λ x. refl)))
        b.ids;
  positive =
      subst (All IsPositive) (sym done.rows)
        (All-set_by r.id (ended i o) t.rows (λ x h. h) b.positive);
  day_sums = λ key. ground (
    arith,
    done.daily key,
    b.day_sums key,
    ap (sum_of quota_key (daily_share key)) done.rows,
    sum_of-set_by quota_key (daily_share key) r.id (ended i o) r t.rows b.ids found,
  );
  month_sums = λ key. ground (
    arith,
    done.monthly key,
    b.month_sums key,
    ap (sum_of quota_key (monthly_share key)) done.rows,
    sum_of-set_by quota_key (monthly_share key) r.id (ended i o) r t.rows b.ids found,
  );
}

pub is_reserved-only : (s : ReservationStatus) → is_reserved s ≡ true → s ≡ reserved
is_reserved-only reserved h = refl
is_reserved-only reconciled h = absurd (cc)
is_reserved-only retained h = absurd (cc)

pub reserved-held :
    (r : QuotaRow) → r.status ≡ reserved → held r.status r.reserved_tokens ≡ r.reserved_tokens
reserved-held r live = ap (λ s. held s r.reserved_tokens) live

pub find_handle :
    (r : QuotaRow) (rows : List QuotaRow)
    → find_by quota_key r.id rows ≡ some r
    → find_reservation (handle_of r) rows ≡ some r
unfolding find_reservation
find_handle r rows found = rw (found, find_reservation, beq_refl r.user_login)

pub reconcile-open :
    (r : QuotaRow) (i o : ℤ) (t after : QuotaTables)
    → find_by quota_key r.id t.rows ≡ some r
    → r.status ≡ reserved
    → release r.id r.user_login r.usage_day r.usage_month r.reserved_tokens
        (at_least_zero i)
        (at_least_zero o)
        t
      ≡ gives after
    → reconcile (handle_of r) i o t ≡ gives (after, true)
unfolding reconcile
reconcile-open r i o t after found live released =
    rw (find_handle r t.rows found, reconcile, live, beq_refl r.reserved_tokens, released)

pub reconcile-closed :
    (r : QuotaRow) (i o : ℤ) (t : QuotaTables)
    → find_by quota_key r.id t.rows ≡ some r
    → is_reserved r.status ≡ false
    → reconcile (handle_of r) i o t ≡ gives (t, false)
unfolding reconcile
reconcile-closed r i o t found closed = rw (find_handle r t.rows found, reconcile, closed)

-- Reconciling the handle of a reservation that is still open never fails in balanced tables, and
-- reports that it ended it. Afterwards the tables are balanced, the row is closed with the used tokens
-- (those below 0 count as 0), and reconciling the same handle again, with whatever tokens, changes nothing.
pub reconcile-ends :
    (r : QuotaRow) (i o : ℤ) (t : QuotaTables)
    → Balanced t
    → find_by quota_key r.id t.rows ≡ some r
    → r.status ≡ reserved
    → (after : QuotaTables) × (reconcile (handle_of r) i o t ≡ gives (after, true))
      × Balanced after
      × (find_by quota_key r.id after.rows ≡ some (ended (at_least_zero i) (at_least_zero o) r))
      × HasReleased r (at_least_zero i) (at_least_zero o) t after
      × ((j p : ℤ) → reconcile (handle_of r) j p after ≡ gives (after, false))
reconcile-ends r i o t b found live =
    let charged : held r.status r.reserved_tokens ≡ r.reserved_tokens = reserved-held r live in
    let used_input : ℕ = at_least_zero i in
    let used_output : ℕ = at_least_zero o in
    let released : (after : QuotaTables) × (release r.id r.user_login r.usage_day r.usage_month
            r.reserved_tokens used_input used_output t
          ≡ gives after)
        × HasReleased r used_input used_output t after =
      release-HasReleased r used_input used_output t b found charged in
    let closed : find_by quota_key r.id (released.0).rows ≡ some (ended used_input used_output r) =
      ap (find_by quota_key r.id) (released.2).rows
      ∙ find_by-set_by quota_key r.id (ended used_input used_output) r t.rows (λ x. refl) found in
    (
      released.0,
      reconcile-open r i o t released.0 found live released.1,
      HasReleased-Balanced r used_input used_output t released.0 b found charged released.2,
      closed,
      released.2,
      λ j p. reconcile-closed (ended used_input used_output r) j p released.0 closed refl,
    )
