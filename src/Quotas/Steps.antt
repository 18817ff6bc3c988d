-- ===== src/Quotas/Steps.antt =====
-- The quota tables under any sequence of calls of logo-admin/quotas.py, and of the retention cleanup
-- of logo-admin/maintenance.py.
use mathlib.Core.Option
use arb_data_warehouse.Prelude.{
  All, Among, Bool, Bool-cases, List, Option, Option-cases, Text, [], ap, arith, contains, false,
  find_by, inl, inr, map, none, refl, set_by, some, true, ℕ, ℤ, ◌++◌, ◌==◌, ◌∙◌, ◌∷◌, ◌≡◌, ◌⊎◌,
  nat_eq, text_eq, pair_eq,
}
use arb_data_warehouse.Outcomes.{gives}
use arb_data_warehouse.Quotas.Types.{
  Moment, QuotaRow, QuotaSettings, QuotaTables, Reservation, is_reserved, quota_key,
}
use arb_data_warehouse.Quotas.Reserve.{at_least, handle_of, reserve}
use arb_data_warehouse.Quotas.Settle.{
  mark_provider_started, reconcile, retain, sweep_stale_reservations,
}
use arb_data_warehouse.Quotas.Cleanup.{clean_quotas}
use arb_data_warehouse.Quotas.Cleaning.{outdated}
use arb_data_warehouse.Quotas.Accounts.{Accounted}

-- The tables, and the handles that callers have got from reserve. The rest is remembered for the
-- statements: the reservations that cleanups have deleted, and the day and the month of the latest
-- cleanup.
pub record QuotaWorld : Type 0 where
  pub tables : QuotaTables
  pub handles : List Reservation
  pub gone : List QuotaRow
  pub cleaned_day : ℕ
  pub cleaned_month : ℕ

-- One transaction that commits. A uuid is never given out again, also when its row is deleted.
pub data QuotaStep : QuotaWorld → QuotaWorld → Type 0 where
  reserves :
      (settings : QuotaSettings) (m : Moment) (id : ℕ) (user : Text) (n : ℕ) {w : QuotaWorld}
      {after : QuotaTables} {res : Reservation}
      → contains (map quota_key w.gone) id ≡ false
      → reserve settings m id user n w.tables ≡ gives (after, res)
      → QuotaStep w (record w { tables = after; handles = res ∷ w.handles })
  reconciles :
      (res : Reservation) (i o : ℤ) (flag : Bool) {w : QuotaWorld} {after : QuotaTables}
      → Among res w.handles
      → reconcile res i o w.tables ≡ gives (after, flag)
      → QuotaStep w (record w { tables = after })
  starts :
      (res : Reservation) {w : QuotaWorld}
      → Among res w.handles
      → QuotaStep w (record w { tables = (mark_provider_started res w.tables).0 })
  retains :
      (res : Reservation) {w : QuotaWorld}
      → Among res w.handles
      → QuotaStep w (record w { tables = (retain res w.tables).0 })
  sweeps :
      (now : ℕ) (limit : ℤ) {w : QuotaWorld} {after : QuotaTables}
      → sweep_stale_reservations now limit w.tables ≡ gives after
      → QuotaStep w (record w { tables = after })
  cleans :
      (m : Moment) {w : QuotaWorld}
      → QuotaStep w (record w {
        tables = clean_quotas m w.tables;
        gone = w.gone ++ outdated m w.tables.rows;
        cleaned_day = at_least w.cleaned_day m.day;
        cleaned_month = at_least w.cleaned_month m.month;
      })

abbrev pub no_quotas : QuotaWorld
no_quotas = record {
  tables = record { rate = []; daily = []; monthly = []; rows = [] };
  handles = [];
  gone = [];
  cleaned_day = 0;
  cleaned_month = 0;
}

pub data QuotaReach : QuotaWorld → Type 0 where
  at_start : QuotaReach no_quotas
  and_then : {w v : QuotaWorld} → QuotaReach w → QuotaStep w v → QuotaReach v

-- The handle of the row with an id.
abbrev pub handle_at : List QuotaRow → ℕ → Option Reservation
handle_at rows k = Option.map handle_of (find_by quota_key k rows)

-- The handle is that of a row.
abbrev pub HasRow : List QuotaRow → Reservation → Type 0
HasRow rows res = handle_at rows res.id ≡ some res

-- The handle is that of a row, or a cleanup has deleted the row with its id.
abbrev pub IsKnown : List QuotaRow → List QuotaRow → Reservation → Type 0
IsKnown gone rows res =
    HasRow rows res
    ⊎ ((contains (map quota_key gone) res.id ≡ true) × (handle_at rows res.id ≡ none))

abbrev pub IsClosed : QuotaRow → Type 0
IsClosed r = is_reserved r.status ≡ false

pub record IsSound (w : QuotaWorld) : Type 0 where
  pub accounted : Accounted w.gone w.cleaned_day w.cleaned_month w.tables
  pub closed : All IsClosed w.gone
  pub owned : All (IsKnown w.gone w.tables.rows) w.handles

pub HasRow-cases :
    (rows : List QuotaRow) (res : Reservation)
    → HasRow rows res
    → (r : QuotaRow) × (find_by quota_key r.id rows ≡ some r) × (handle_of r ≡ res)
HasRow-cases rows res h = elim (Option-cases (find_by quota_key res.id rows)) [
  | inl e ↦ absurd (ground (arith, ap (Option.map handle_of) e))
  | inr (r, e) ↦
      let same : handle_of r ≡ res = ground (arith, ap (Option.map handle_of) e) in
      (r, ap (λ (h : Reservation). find_by quota_key h.id rows) same ∙ e, same)
]

pub handle_at-set_by :
    (j : ℕ) (f : QuotaRow → QuotaRow) (rows : List QuotaRow) (k : ℕ)
    → ((x : QuotaRow) → handle_of (f x) ≡ handle_of x)
    → Option.map handle_of (find_by quota_key k (set_by quota_key j f rows))
      ≡ Option.map handle_of (find_by quota_key k rows)
unfolding find_by set_by
handle_at-set_by j f [] k kept = refl
handle_at-set_by j f (x ∷ rows) k kept =
    let rest : Option.map handle_of (find_by quota_key k (set_by quota_key j f rows))
        ≡ Option.map handle_of (find_by quota_key k rows) =
      handle_at-set_by j f rows k kept in
    let same_id : (f x).id ≡ x.id = ap (λ (h : Reservation). h.id) (kept x) in
    elim (Bool-cases (x.id == j)) [
      | inl e ↦ rw e (elim (Bool-cases (x.id == k)) [
        | inl found ↦
            let found' : ((f x).id == k) ≡ true = ap (λ n. n == k) same_id ∙ found in
            rw (found', found) (ap (λ h. some h) (kept x))
        | inr other ↦
            let other' : ((f x).id == k) ≡ false = ap (λ n. n == k) same_id ∙ other in
            rw (other', other) rest
      ])
      | inr e ↦
          rw e (elim (Bool-cases (x.id == k)) [
            | inl found ↦ rw found refl
            | inr other ↦ rw other rest
          ])
    ]

pub All-IsKnown :
    (gone rows after : List QuotaRow) (hs : List Reservation)
    → ((k : ℕ) → handle_at after k ≡ handle_at rows k)
    → All (IsKnown gone rows) hs
    → All (IsKnown gone after) hs
All-IsKnown gone rows after [] same h = tt
All-IsKnown gone rows after (x ∷ hs) same h = (
  elim h.0 [ inl owned ↦ inl (same x.id ∙ owned) | inr lost ↦ inr (lost.0, same x.id ∙ lost.1) ],
  All-IsKnown gone rows after hs same h.1,
)
