-- ===== src/Quotas/Settle.antt =====
-- How a reservation ends (logo-admin/quotas.py): reconcile, retain, the marker before the provider
-- is called, and the sweep of those that nobody ended.
use arb_data_warehouse.Prelude.{
  Bool, Dict, Eq, List, Option, Text, [], at_least_zero, false, find_by, if◌then◌else◌, insert,
  keep_if, leb, lookup, ltb, negsuc, none, not, pos, set_by, some, sort_by, take, true, ℕ, ℤ, ◌&&◌,
  ◌+◌, ◌-◌, ◌==◌, ◌||◌, ◌∷◌, nat_eq, text_eq, pair_eq,
}
use arb_data_warehouse.Outcomes.{check, fails, gives, ◌>>=◌, ◌>>◌}
use arb_data_warehouse.Quotas.Reserve.{at_least}
use arb_data_warehouse.Quotas.Types.{
  QuotaError, QuotaResult, QuotaRow, QuotaTables, Reservation, Usage, amount_changed, daily_missing,
  is_reserved, monthly_missing, no_reservation, quota_key, reconciled, retained,
}

abbrev pub less_usage : ℕ → ℕ → ℕ → Usage → Usage
less_usage tokens used_input used_output u = record u {
  reserved_tokens = u.reserved_tokens - tokens;
  input_tokens = u.input_tokens + used_input;
  output_tokens = u.output_tokens + used_output;
}

-- The updates of the usage tables: they want a row that holds the reserved tokens.
unfoldable pub settle_usage :
    {K : Type 0} ⦃e : Eq K⦄ → ℕ → ℕ → ℕ → QuotaError → K → Dict K Usage → QuotaResult (Dict K Usage)
settle_usage tokens used_input used_output missing key usage = elim (lookup key usage) [
  | none ↦ fails missing
  | some u ↦
      if leb tokens u.reserved_tokens
      then gives (insert key (less_usage tokens used_input used_output u) usage)
      else fails missing
]

-- `SELECT * ... WHERE id = %s AND user_login = %s`
unfoldable pub find_reservation : Reservation → List QuotaRow → Option QuotaRow
find_reservation res rows = elim (find_by quota_key res.id rows) [
  | none ↦ none
  | some r ↦ if r.user_login == res.user_login then some r else none
]

-- What ending a reservation does to the three tables.
unfoldable pub release : ℕ → Text → ℕ → ℕ → ℕ → ℕ → ℕ → QuotaTables → QuotaResult QuotaTables
release id user day month tokens used_input used_output t = do
  daily ← settle_usage tokens used_input used_output daily_missing (user, day) t.daily
  monthly ← settle_usage tokens used_input used_output monthly_missing month t.monthly
  gives (record t {
    daily = daily;
    monthly = monthly;
    rows =
        set_by quota_key id
          (λ (r : QuotaRow). record r {
            status = reconciled;
            input_tokens = used_input;
            output_tokens = used_output;
          })
          t.rows;
  })

-- The returned flag says whether this call ended the reservation.
unfoldable pub reconcile : Reservation → ℤ → ℤ → QuotaTables → QuotaResult (QuotaTables × Bool)
reconcile res input output t = elim (find_reservation res t.rows) [
  | none ↦ fails no_reservation
  | some r ↦ if not (is_reserved r.status) then gives (t, false) else (do
    check (r.reserved_tokens == res.reserved_tokens) amount_changed
    t' ←
        release res.id res.user_login res.usage_day res.usage_month res.reserved_tokens
          (at_least_zero input) (at_least_zero output) t
    gives (t', true))
]

-- `WHERE id = %s AND user_login = %s AND status = 'reserved' AND reserved_tokens = %s`
unfoldable pub is_open_row : Reservation → QuotaRow → Bool
is_open_row res r =
    r.user_login == res.user_login
    && (is_reserved r.status && r.reserved_tokens == res.reserved_tokens)

-- An update of the one open row of a handle, and whether there was one.
unfoldable pub update_open : Reservation → (QuotaRow → QuotaRow) → QuotaTables → QuotaTables × Bool
update_open res f t = elim (find_by quota_key res.id t.rows) [
  | none ↦ (t, false)
  | some r ↦
      if is_open_row res r
      then (record t { rows = set_by quota_key res.id f t.rows }, true)
      else (t, false)
]

unfoldable pub mark_provider_started : Reservation → QuotaTables → QuotaTables × Bool
mark_provider_started res = update_open res (λ (r : QuotaRow). record r { provider_started = true })

unfoldable pub retain : Reservation → QuotaTables → QuotaTables × Bool
retain res = update_open res (λ (r : QuotaRow). record r { status = retained })

-- `max(1, min(10_000, limit))`
unfoldable pub safe_limit : ℤ → ℕ
safe_limit (negsuc n) = 1
safe_limit (pos n) = if ltb 10000 n then 10000 else at_least 1 n

unfoldable pub is_expired : ℕ → QuotaRow → Bool
is_expired now r = is_reserved r.status && ltb r.expires_at now

-- `ORDER BY expires_at, id`
unfoldable pub expiry_le : QuotaRow → QuotaRow → Bool
expiry_le a b = ltb a.expires_at b.expires_at || (a.expires_at == b.expires_at && leb a.id b.id)

-- One row of the sweep: what the provider may have billed stays charged, the rest is released.
unfoldable pub sweep_row : QuotaRow → QuotaTables → QuotaResult QuotaTables
sweep_row r t =
    if r.provider_started
    then gives (record t {
      rows = set_by quota_key r.id (λ (x : QuotaRow). record x { status = retained }) t.rows;
    })
    else release r.id r.user_login r.usage_day r.usage_month r.reserved_tokens 0 0 t

unfoldable pub sweep_rows : List QuotaRow → QuotaTables → QuotaResult QuotaTables
sweep_rows [] t = gives t
sweep_rows (r ∷ rs) t = do t' ← sweep_row r t; sweep_rows rs t'

-- The rows that the sweep reads, where no other transaction has locked one.
unfoldable pub due : ℕ → ℤ → List QuotaRow → List QuotaRow
due now limit rows = take (safe_limit limit) (sort_by expiry_le (keep_if (is_expired now) rows))

-- The counts that the program returns are left out.
unfoldable pub sweep_stale_reservations : ℕ → ℤ → QuotaTables → QuotaResult QuotaTables
sweep_stale_reservations now limit t = sweep_rows (due now limit t.rows) t
