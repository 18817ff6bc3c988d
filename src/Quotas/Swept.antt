-- ===== src/Quotas/Swept.antt =====
-- The whole sweep (sweep_stale_reservations of logo-admin/quotas.py), row after row.
use mathlib.Core.Option
use arb_data_warehouse.Prelude.{
  All, Among, Among-keep_if, Among-sort_by, Among-take, Distinct, Distinct-map-keep_if,
  Distinct-map-sort_by, Distinct-map-take, List, Option, [], arith, contains, count_if, find_by,
  find_by-Distinct, inl, inr, keep_if, length, length-keep_if, length-sort_by, length-take, map,
  none, refl, set_by, some, sort_by, true, ℕ, ℤ, ◌+◌, ◌-◌, ◌∙◌, ◌∷◌, ◌≡◌, nat_eq, text_eq, pair_eq,
}
use arb_data_warehouse.Outcomes.{gives}
use arb_data_warehouse.Quotas.Types.{QuotaRow, QuotaTables, quota_key}
use arb_data_warehouse.Quotas.Settle.{
  due, expiry_le, is_expired, safe_limit, sweep_row, sweep_rows, sweep_stale_reservations,
}
use arb_data_warehouse.Quotas.Balance.{Balanced}
use arb_data_warehouse.Quotas.Sweeping.{
  Pending, Pending-later, expired-set_by, finish, finish-cons, finish_one, finish_one-id,
  sweep_row-swept,
}

map-finish_nil : (o : Option QuotaRow) → o ≡ Option.map (finish []) o
unfolding contains
map-finish_nil none = refl
map-finish_nil (some x) = refl

abbrev pub IsExpired : ℕ → QuotaRow → Type 0
IsExpired now r = is_expired now r ≡ true

sweep_rows-finish :
    (now : ℕ) (rs : List QuotaRow) (t : QuotaTables)
    → Balanced t
    → Distinct (map quota_key rs)
    → All (Pending t) rs
    → All (IsExpired now) rs
    → (after : QuotaTables) × (sweep_rows rs t ≡ gives after)
      × Balanced after
      × ((k : ℕ)
          → find_by quota_key k after.rows ≡ Option.map (finish rs) (find_by quota_key k t.rows))
      × (count_if (is_expired now) after.rows + length rs ≡ count_if (is_expired now) t.rows)
unfolding sweep_rows
sweep_rows-finish now [] t b d p old =
    (t, refl, b, λ k. map-finish_nil (find_by quota_key k t.rows), omega arith)
sweep_rows-finish now (r ∷ rs) t b d p old =
    let one : (after : QuotaTables) × (sweep_row r t ≡ gives after)
        × Balanced after
        × (after.rows ≡ set_by quota_key r.id (finish_one r) t.rows) =
      sweep_row-swept r t b p.0.0 p.0.1 in
    let rest : (after : QuotaTables) × (sweep_rows rs one.0 ≡ gives after)
        × Balanced after
        × ((k : ℕ)
            → find_by quota_key k after.rows
              ≡ Option.map (finish rs) (find_by quota_key k (one.0).rows))
        × (count_if (is_expired now) after.rows + length rs
            ≡ count_if (is_expired now) (one.0).rows) =
      sweep_rows-finish now rs one.0 one.2 d.1
        (Pending-later t one.0 r (finish_one r) rs (finish_one-id r) one.3 d.0 p.1) old.1 in
    (
      rest.0,
      rw (one.1, sweep_rows, rest.1),
      rest.2,
      λ k. rest.3 k ∙ finish-cons r rs t one.0 k p.0.0 d.0 one.3,
      omega (arith, rest.4, expired-set_by now r t one.0 b.ids p.0.0 old.0 one.3),
    )

pub due-Pending :
    (now : ℕ) (limit : ℤ) (t : QuotaTables) (rs : List QuotaRow)
    → Distinct (map quota_key t.rows)
    → ((r : QuotaRow) → Among r rs → Among r (due now limit t.rows))
    → All (Pending t) rs × All (IsExpired now) rs
unfolding due is_expired
due-Pending now limit t [] d h = (tt, tt)
due-Pending now limit t (r ∷ rs) d h =
    let picked : Among r t.rows × (is_expired now r ≡ true) =
      Among-keep_if (is_expired now) r t.rows (
        Among-sort_by expiry_le r (keep_if (is_expired now) t.rows) (
          Among-take r (safe_limit limit) (sort_by expiry_le (keep_if (is_expired now) t.rows))
            (h r (inl refl)))) in
    let rest : All (Pending t) rs × All (IsExpired now) rs =
      due-Pending now limit t rs d (λ x m. h x (inr m)) in
    (((find_by-Distinct quota_key r t.rows d picked.0, ground arith), rest.0), (picked.1, rest.1))

pub due-Distinct :
    (now : ℕ) (limit : ℤ) (rows : List QuotaRow)
    → Distinct (map quota_key rows)
    → Distinct (map quota_key (due now limit rows))
unfolding due
due-Distinct now limit rows d =
    Distinct-map-take quota_key (safe_limit limit)
      (sort_by expiry_le (keep_if (is_expired now) rows))
      (Distinct-map-sort_by quota_key expiry_le (keep_if (is_expired now) rows)
        (Distinct-map-keep_if quota_key (is_expired now) rows d))

length-due :
    (now : ℕ) (limit : ℤ) (rows : List QuotaRow)
    → count_if (is_expired now) rows - length (due now limit rows)
      ≡ count_if (is_expired now) rows - safe_limit limit
unfolding due
length-due now limit rows = omega (
  arith,
  length-take (safe_limit limit) (sort_by expiry_le (keep_if (is_expired now) rows)),
  length-sort_by expiry_le (keep_if (is_expired now) rows),
  length-keep_if (is_expired now) rows,
)

-- The sweep never fails in balanced tables. Afterwards they are balanced; each row that it read is
-- closed, a reservation whose provider call may have been billed stays charged and another one gives its
-- tokens back; every other row is as before; and it leaves as many expired reservations open as there
-- were beyond the limit, which is the given one brought between 1 and 10000.
pub sweep-finishes :
    (now : ℕ) (limit : ℤ) (t : QuotaTables)
    → Balanced t
    → (after : QuotaTables) × (sweep_stale_reservations now limit t ≡ gives after)
      × Balanced after
      × ((k : ℕ)
          → find_by quota_key k after.rows
            ≡ Option.map (finish (due now limit t.rows)) (find_by quota_key k t.rows))
      × (count_if (is_expired now) after.rows ≡ count_if (is_expired now) t.rows - safe_limit limit)
unfolding sweep_stale_reservations
sweep-finishes now limit t b =
    let picked : All (Pending t) (due now limit t.rows)
        × All (IsExpired now) (due now limit t.rows) =
      due-Pending now limit t (due now limit t.rows) b.ids (λ r m. m) in
    let run =
      sweep_rows-finish now (due now limit t.rows) t b (due-Distinct now limit t.rows b.ids)
        picked.0 picked.1 in
    (run.0, run.1, run.2, run.3, omega (arith, run.4, length-due now limit t.rows))
