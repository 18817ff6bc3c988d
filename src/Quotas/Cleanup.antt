-- ===== src/Quotas/Cleanup.antt =====
-- The quota tables in the retention cleanup of logo-admin/maintenance.py (cleanup).
use arb_data_warehouse.Prelude.{
  Bool, Text, keep_if, ltb, not, ℕ, ◌&&◌, ◌*◌, ◌+◌, nat_eq, text_eq, pair_eq,
}
use arb_data_warehouse.Quotas.Types.{Moment, QuotaRow, QuotaTables, Usage, is_reserved}

-- `WHERE status <> 'reserved' AND created_at < now() - interval '90 days'`, in seconds.
unfoldable pub is_outdated : Moment → QuotaRow → Bool
is_outdated m r = not (is_reserved r.status) && ltb (r.created_at + 7776000) m.now

-- Windows of two days ago, days of 90 days ago and months of 24 months ago are kept.
unfoldable pub clean_quotas : Moment → QuotaTables → QuotaTables
clean_quotas m t = record {
  rate = keep_if (λ (e : (Text × ℕ) × ℕ). not (ltb (60 * e.0.1 + 172800) m.now)) t.rate;
  daily = keep_if (λ (e : (Text × ℕ) × Usage). not (ltb (e.0.1 + 90) m.day)) t.daily;
  monthly = keep_if (λ (e : ℕ × Usage). not (ltb (e.0 + 24) m.month)) t.monthly;
  rows = keep_if (λ (r : QuotaRow). not (is_outdated m r)) t.rows;
}
