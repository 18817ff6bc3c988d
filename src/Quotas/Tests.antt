-- ===== src/Quotas/Tests.antt =====
-- Runs of the quota operations of logo-admin/quotas.py at concrete tables, and the theorems at them.
use mathlib.Core.Option
use arb_data_warehouse.Prelude.{
  Bool, Text, [], contains, count_if, false, find_by, inl, insert, keep_if, lookup, map, negsuc,
  pair_beq, pos, refl, set_by, some, text_beq, true, ℕ, ℤ, ◌-◌, ◌∷◌, ◌≡◌, ◌≤◌, nat_eq, text_eq,
  pair_eq,
}
use arb_data_warehouse.Outcomes.{fails, gives}
use arb_data_warehouse.Quotas.Types.{
  Moment, QuotaResult, QuotaRow, QuotaSettings, QuotaTables, Reservation, daily_exceeded,
  monthly_exceeded, quota_key, rate_exceeded, retained,
}
use arb_data_warehouse.Quotas.Reserve.{
  charge, count_request, first_usage, handle_of, new_row, reserve,
}
use arb_data_warehouse.Quotas.Settle.{
  due, is_expired, is_open_row, reconcile, retain, safe_limit, sweep_stale_reservations,
  update_open,
}
use arb_data_warehouse.Quotas.Rules.{booked, spent}
use arb_data_warehouse.Quotas.Reserving.{requests_in, reserve-keeps_caps}
use arb_data_warehouse.Quotas.Balance.{Balanced}
use arb_data_warehouse.Quotas.Settling.{HasReleased, ended, reconcile-ends}
use arb_data_warehouse.Quotas.Swept.{sweep-finishes}
use arb_data_warehouse.Quotas.Sweeping.{finish}
use arb_data_warehouse.Quotas.Steps.{
  IsSound, QuotaReach, QuotaWorld, and_then, at_start, cleans, no_quotas, reserves, retains,
}
use arb_data_warehouse.Quotas.Cleanup.{clean_quotas, is_outdated}
use arb_data_warehouse.Quotas.Always.{
  reachable_quotas_balance, reconcile_never_fails, reserve-reconcile, uncleaned-Balanced,
}

abbrev ann : Text
ann = 97 ∷ []

abbrev bob : Text
bob = 98 ∷ []

abbrev some_settings : QuotaSettings
some_settings = record {
  daily_cap = 100;
  monthly_cap = 150;
  requests_per_minute = 2;
  turn_timeout = 60;
}

abbrev noon : Moment
noon = record { now = 720; minute = 12; day = 5; month = 1 }

unfoldable run_reserve : ℕ → Text → ℕ → QuotaTables → QuotaResult (QuotaTables × Reservation)
unfolding reserve count_request charge lookup insert contains
run_reserve id user n t = reserve some_settings noon id user n t

abbrev row_of : ℕ → Text → ℕ → QuotaRow
row_of id user n = new_row some_settings noon id user n

-- Anna's first reservation of the day.
abbrev first_tables : QuotaTables
first_tables = record {
  rate = ((ann, 12), 1) ∷ [];
  daily = ((ann, 5), first_usage 40) ∷ [];
  monthly = (1, first_usage 40) ∷ [];
  rows = row_of 7 ann 40 ∷ [];
}

abbrev first_world : QuotaWorld
first_world = record {
  tables = first_tables;
  handles = handle_of (row_of 7 ann 40) ∷ [];
  gone = [];
  cleaned_day = 0;
  cleaned_month = 0;
}

first_reserve :
    reserve some_settings noon 7 ann 40 no_quotas.tables
    ≡ gives (first_tables, handle_of (row_of 7 ann 40))
unfolding reserve count_request charge lookup insert contains
first_reserve = refl

test-daily_cap : run_reserve 8 ann 61 first_tables ≡ fails daily_exceeded
unfolding run_reserve pair_beq text_beq
test-daily_cap = refl

test-monthly_cap :
    run_reserve 8 bob 100 (record first_tables { monthly = (1, first_usage 60) ∷ [] })
    ≡ fails monthly_exceeded
unfolding run_reserve pair_beq text_beq
test-monthly_cap = refl

test-rate :
    run_reserve 8 ann 1 (record first_tables { rate = ((ann, 12), 2) ∷ [] }) ≡ fails rate_exceeded
unfolding run_reserve pair_beq text_beq
test-rate = refl

unused_id : contains (map quota_key no_quotas.gone) 7 ≡ false
unfolding contains
unused_id = refl

first_reach : QuotaReach first_world
first_reach = and_then at_start (reserves some_settings noon 7 ann 40 unused_id first_reserve)

abbrev first_row : QuotaRow
first_row = row_of 7 ann 40

first-Balanced : Balanced first_tables
first-Balanced =
    uncleaned-Balanced first_tables (reachable_quotas_balance first_world first_reach).accounted

-- The reservation is retained, and the cleanup of day 96 deletes it and its day, not its month.
abbrev late : Moment
late = record { now = 7776721; minute = 129612; day = 96; month = 4 }

abbrev cleaned_world : QuotaWorld
cleaned_world = record {
  tables = record { rate = []; daily = []; monthly = (1, first_usage 40) ∷ []; rows = [] };
  handles = handle_of (row_of 7 ann 40) ∷ [];
  gone = record (row_of 7 ann 40) { status = retained } ∷ [];
  cleaned_day = 96;
  cleaned_month = 4;
}

cleaned_reach : QuotaReach cleaned_world
unfolding retain update_open is_open_row find_by set_by clean_quotas is_outdated keep_if text_beq
cleaned_reach =
    and_then (and_then first_reach (retains (handle_of (row_of 7 ann 40)) (inl refl))) (cleans late)

reachable_quotas_balance_example : IsSound cleaned_world
reachable_quotas_balance_example = reachable_quotas_balance cleaned_world cleaned_reach

first_found : find_by quota_key 7 first_tables.rows ≡ some first_row
unfolding find_by
first_found = refl

reserve-keeps_caps_example :
    (spent (ann, 5) first_tables.daily ≤ 100)
    × (spent 1 first_tables.monthly ≤ 150)
    × (requests_in (ann, 12) first_tables.rate ≤ 2)
reserve-keeps_caps_example =
    reserve-keeps_caps some_settings noon 7 ann 40 no_quotas.tables
      (first_tables, handle_of first_row) first_reserve

reconcile-ends_example :
    (after : QuotaTables) × (reconcile (handle_of first_row) (pos 12) (negsuc 0) first_tables
      ≡ gives (after, true))
    × Balanced after
    × (find_by quota_key 7 after.rows ≡ some (ended 12 0 first_row))
    × HasReleased first_row 12 0 first_tables after
    × ((j p : ℤ) → reconcile (handle_of first_row) j p after ≡ gives (after, false))
reconcile-ends_example =
    reconcile-ends first_row (pos 12) (negsuc 0) first_tables first-Balanced first_found refl

reconcile_never_fails_example :
    (after : QuotaTables) × (flag : Bool) × (reconcile
        (handle_of first_row)
        (pos 12)
        (pos 3)
        first_tables
      ≡ gives (after, flag))
reconcile_never_fails_example =
    reconcile_never_fails first_world (handle_of first_row) (pos 12) (pos 3) first_reach (inl refl)
      unused_id refl refl

reserve-reconcile_example :
    (after : QuotaTables) × (reconcile (handle_of first_row) (pos 0) (pos 0) first_tables
      ≡ gives (after, true))
    × ((key : Text × ℕ) → booked key after.daily ≡ booked key no_quotas.tables.daily)
    × ((key : ℕ) → booked key after.monthly ≡ booked key no_quotas.tables.monthly)
reserve-reconcile_example =
    reserve-reconcile some_settings noon 7 ann 40 no_quotas.tables first_tables
      (handle_of first_row)
      (uncleaned-Balanced no_quotas.tables (reachable_quotas_balance no_quotas at_start).accounted)
      first_reserve

sweep-finishes_example :
    (after : QuotaTables) × (sweep_stale_reservations 5000 (pos 0) first_tables ≡ gives after)
    × Balanced after
    × ((k : ℕ)
        → find_by quota_key k after.rows
          ≡ Option.map
              (finish (due 5000 (pos 0) first_tables.rows))
              (find_by quota_key k first_tables.rows))
    × (count_if (is_expired 5000) after.rows
        ≡ count_if (is_expired 5000) first_tables.rows - safe_limit (pos 0))
sweep-finishes_example = sweep-finishes 5000 (pos 0) first_tables first-Balanced
