-- ===== src/Quotas/Reserve.antt =====
-- reserve of logo-admin/quotas.py.
use arb_data_warehouse.Prelude.{
  Dict, Eq, Text, [], contains, false, if◌then◌else◌, insert, leb, lookup, ltb, map, none, not,
  some, suc, ℕ, ◌++◌, ◌+◌, ◌||◌, ◌∷◌, nat_eq, text_eq, pair_eq,
}
use arb_data_warehouse.Outcomes.{check, fails, gives, ◌>>=◌, ◌>>◌}
use arb_data_warehouse.Quotas.Types.{
  Moment, QuotaError, QuotaResult, QuotaRow, QuotaSettings, QuotaTables, Reservation, Usage,
  budget_exceeded, daily_exceeded, duplicate_id, monthly_exceeded, not_positive, quota_key,
  rate_exceeded, reserved,
}

-- The upsert of agent_rate_window: a first request always counts, a further one below the limit.
unfoldable pub count_request : ℕ → Text × ℕ → Dict (Text × ℕ) ℕ → QuotaResult (Dict (Text × ℕ) ℕ)
count_request limit key rate = elim (lookup key rate) [
  | none ↦ gives (insert key 1 rate)
  | some n ↦ if ltb n limit then gives (insert key (suc n) rate) else fails rate_exceeded
]

-- What a row counts against its cap.
abbrev pub charged : Usage → ℕ
charged u = u.input_tokens + (u.output_tokens + u.reserved_tokens)

abbrev pub first_usage : ℕ → Usage
first_usage requested = record {
  requests = 1;
  reserved_tokens = requested;
  input_tokens = 0;
  output_tokens = 0;
}

abbrev pub more_usage : ℕ → Usage → Usage
more_usage requested u = record u {
  requests = suc u.requests;
  reserved_tokens = u.reserved_tokens + requested;
}

-- The upserts of agent_usage_daily and agent_usage_monthly: a row that is there must have room.
unfoldable pub charge :
    {K : Type 0} ⦃e : Eq K⦄ → ℕ → ℕ → QuotaError → K → Dict K Usage → QuotaResult (Dict K Usage)
charge cap requested full key usage = elim (lookup key usage) [
  | none ↦ gives (insert key (first_usage requested) usage)
  | some u ↦
      if leb (charged u + requested) cap
      then gives (insert key (more_usage requested u) usage)
      else fails full
]

abbrev pub at_least : ℕ → ℕ → ℕ
at_least low n = if ltb n low then low else n

abbrev pub handle_of : QuotaRow → Reservation
handle_of r = record {
  id = r.id;
  user_login = r.user_login;
  usage_day = r.usage_day;
  usage_month = r.usage_month;
  window_start = r.window_start;
  reserved_tokens = r.reserved_tokens;
}

abbrev pub new_row : QuotaSettings → Moment → ℕ → Text → ℕ → QuotaRow
new_row settings m id user requested = record {
  id = id;
  user_login = user;
  usage_day = m.day;
  usage_month = m.month;
  window_start = m.minute;
  reserved_tokens = requested;
  status = reserved;
  input_tokens = 0;
  output_tokens = 0;
  provider_started = false;
  expires_at = m.now + at_least 300 (settings.turn_timeout + 120);
  created_at = m.now;
}

-- `id` stands for the fresh uuid4.
unfoldable pub reserve :
    QuotaSettings → Moment → ℕ → Text → ℕ → QuotaTables → QuotaResult (QuotaTables × Reservation)
reserve settings m id user requested t = do
  check (ltb 0 requested) not_positive
  check (not (ltb settings.daily_cap requested || ltb settings.monthly_cap requested))
      budget_exceeded
  rate ← count_request settings.requests_per_minute (user, m.minute) t.rate
  daily ← charge settings.daily_cap requested daily_exceeded (user, m.day) t.daily
  monthly ← charge settings.monthly_cap requested monthly_exceeded m.month t.monthly
  check (not (contains (map quota_key t.rows) id)) duplicate_id
  gives (
    record {
      rate = rate;
      daily = daily;
      monthly = monthly;
      rows = t.rows ++ new_row settings m id user requested ∷ [];
    },
    handle_of (new_row settings m id user requested),
  )
