-- ===== src/Quotas/Types.antt =====
-- The quota tables (logo-admin/quotas.py). Times are seconds, days, months and minutes are numbers.
use arb_data_warehouse.Outcomes.{Fallible}
use arb_data_warehouse.Prelude.{Bool, Dict, List, Text, false, true, ℕ, nat_eq, text_eq, pair_eq}

-- What of the settings the quotas read.
pub record QuotaSettings : Type 0 where
  pub daily_cap : ℕ
  pub monthly_cap : ℕ
  pub requests_per_minute : ℕ
  pub turn_timeout : ℕ

-- A row of logo.agent_usage_daily, of logo.agent_usage_monthly, without its key.
pub record Usage : Type 0 where
  pub requests : ℕ
  pub reserved_tokens : ℕ
  pub input_tokens : ℕ
  pub output_tokens : ℕ

pub data ReservationStatus : Type 0 where
  reserved : ReservationStatus
  reconciled : ReservationStatus
  retained : ReservationStatus

-- A row of logo.agent_quota_reservation; its id stands for the uuid.
pub record QuotaRow : Type 0 where
  pub id : ℕ
  pub user_login : Text
  pub usage_day : ℕ
  pub usage_month : ℕ
  pub window_start : ℕ
  pub reserved_tokens : ℕ
  pub status : ReservationStatus
  pub input_tokens : ℕ
  pub output_tokens : ℕ
  pub provider_started : Bool
  pub expires_at : ℕ
  pub created_at : ℕ

-- The handle that a caller keeps: the class Reservation.
pub record Reservation : Type 0 where
  pub id : ℕ
  pub user_login : Text
  pub usage_day : ℕ
  pub usage_month : ℕ
  pub window_start : ℕ
  pub reserved_tokens : ℕ

pub record QuotaTables : Type 0 where
  pub rate : Dict (Text × ℕ) ℕ
  pub daily : Dict (Text × ℕ) Usage
  pub monthly : Dict ℕ Usage
  pub rows : List QuotaRow

-- The time of a transaction, as the database's now(), current_date and date_trunc give it.
pub record Moment : Type 0 where
  pub now : ℕ
  pub minute : ℕ
  pub day : ℕ
  pub month : ℕ

-- ValueError, QuotaExceeded and the RuntimeErrors, by what they say; `duplicate_id` is the
-- database's refusal of a second row with one primary key.
pub data QuotaError : Type 0 where
  not_positive : QuotaError
  budget_exceeded : QuotaError
  rate_exceeded : QuotaError
  daily_exceeded : QuotaError
  monthly_exceeded : QuotaError
  duplicate_id : QuotaError
  no_reservation : QuotaError
  amount_changed : QuotaError
  daily_missing : QuotaError
  monthly_missing : QuotaError

-- An error rolls the transaction back.
abbrev pub QuotaResult {ℓ} : Type ℓ → Type ℓ
QuotaResult A = Fallible QuotaError A

abbrev pub quota_key : QuotaRow → ℕ
quota_key r = r.id

abbrev pub is_reserved : ReservationStatus → Bool
is_reserved reserved = true
is_reserved _ = false
