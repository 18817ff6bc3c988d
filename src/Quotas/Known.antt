-- ===== src/Quotas/Known.antt =====
-- What becomes of the handles that callers hold, and of a call that fails (logo-admin/quotas.py, and
-- cleanup of logo-admin/maintenance.py).
use mathlib.Core.Option
use arb_data_warehouse.Prelude.{
  All, Bool, Bool-cases, Distinct, List, Option, [], ap, arith, at_least_zero, beq_refl, contains,
  false, find_by, inl, inr, keep_if, map, nat_beq_iff, none, refl, some, sym, true, ℕ, ℤ, ◌++◌,
  ◌==◌, ◌||◌, ◌∙◌, ◌∷◌, ◌≡◌, nat_eq, text_eq, pair_eq,
}
use arb_data_warehouse.Outcomes.{fails, gives}
use arb_data_warehouse.Quotas.Types.{
  Moment, QuotaError, QuotaResult, QuotaRow, QuotaTables, Reservation, no_reservation, quota_key,
  reserved,
}
use arb_data_warehouse.Quotas.Reserve.{handle_of}
use arb_data_warehouse.Quotas.Settle.{find_reservation, reconcile, release, sweep_row, sweep_rows}
use arb_data_warehouse.Quotas.Cleanup.{clean_quotas, is_outdated}
use arb_data_warehouse.Quotas.Cleaning.{clean_quotas-none, clean_quotas-row, outdated}
use arb_data_warehouse.Quotas.Settling.{find_handle}
use arb_data_warehouse.Quotas.Sweeping.{finish_one}
use arb_data_warehouse.Quotas.Steps.{HasRow-cases, IsClosed, IsKnown, handle_at}

abbrev pub started : QuotaRow → QuotaRow
started r = record r { provider_started = true }

abbrev pub first_of : {A B : Type 0} → A → QuotaResult (A × B) → A
first_of a (gives p) = p.0
first_of a (fails e) = a

pub gives-first :
    (a c : QuotaTables) (b d : Bool) (r : QuotaResult (QuotaTables × Bool))
    → gives (a, b) ≡ r
    → r ≡ gives (c, d)
    → a ≡ c
gives-first a c b d r e f = ap (first_of a) e ∙ ap (first_of a) f

pub fails-gives : {A : Type 0} (e : QuotaError) (a : A) → fails e ≡ gives a → ⊥
fails-gives e a h = cc

pub reconcile-fails :
    (r : QuotaRow) (i o : ℤ) (t : QuotaTables) (e : QuotaError)
    → find_by quota_key r.id t.rows ≡ some r
    → r.status ≡ reserved
    → release r.id r.user_login r.usage_day r.usage_month r.reserved_tokens
        (at_least_zero i)
        (at_least_zero o)
        t
      ≡ fails e
    → reconcile (handle_of r) i o t ≡ fails e
unfolding reconcile
reconcile-fails r i o t e found live failed =
    rw (find_handle r t.rows found, reconcile, live, beq_refl r.reserved_tokens, failed)

pub none-handle : (o : Option QuotaRow) → Option.map handle_of o ≡ none → o ≡ none
none-handle none h = refl
none-handle (some r) h = absurd (cc)

pub reconcile-lost :
    (res : Reservation) (i o : ℤ) (t : QuotaTables)
    → handle_at t.rows res.id ≡ none
    → reconcile res i o t ≡ fails no_reservation
unfolding reconcile find_reservation
reconcile-lost res i o t lost =
    rw (none-handle (find_by quota_key res.id t.rows) lost, find_reservation, reconcile)

pub find_by-append :
    (k : ℕ) (rows more : List QuotaRow) (r : QuotaRow)
    → find_by quota_key k rows ≡ some r
    → find_by quota_key k (rows ++ more) ≡ some r
unfolding find_by
find_by-append k [] more r found = absurd (cc)
find_by-append k (x ∷ rows) more r found = ground (arith, find_by-append k rows more r)

pub find_by-append_other :
    (k : ℕ) (rows : List QuotaRow) (r : QuotaRow)
    → (r.id == k) ≡ false
    → find_by quota_key k rows ≡ none
    → find_by quota_key k (rows ++ r ∷ []) ≡ none
unfolding find_by
find_by-append_other k [] r other found = rw other
find_by-append_other k (x ∷ rows) r other found = ground (arith, find_by-append_other k rows r)

pub IsKnown-append :
    (gone rows : List QuotaRow) (row : QuotaRow) (hs : List Reservation)
    → contains (map quota_key gone) row.id ≡ false
    → All (IsKnown gone rows) hs
    → All (IsKnown gone (rows ++ row ∷ [])) hs
IsKnown-append gone rows row [] unused h = tt
IsKnown-append gone rows row (x ∷ hs) unused h = (
  elim h.0 [
    | inl owned ↦
        let (r, found, same) = HasRow-cases rows x owned in
        let at_id : find_by quota_key x.id rows ≡ some r =
          ap (λ (v : Reservation). find_by quota_key v.id rows) (sym same) ∙ found in
        inl (
          ap (Option.map handle_of) (find_by-append x.id rows (row ∷ []) r at_id)
          ∙ ap (λ v. some v) same)
    | inr lost ↦
        let other : (row.id == x.id) ≡ false = ground (
          arith,
          lost.0,
          nat_beq_iff row.id x.id,
          ap (contains (map quota_key gone)) {x = row.id} {y = x.id},
        ) in
        inr (
          lost.0,
          ap (Option.map handle_of) (
              find_by-append_other x.id rows row other
                (none-handle (find_by quota_key x.id rows) lost.1)),
        )
  ],
  IsKnown-append gone rows row hs unused h.1,
)

pub contains-map-append :
    (k : ℕ) (xs ys : List QuotaRow)
    → contains (map quota_key (xs ++ ys)) k
      ≡ (contains (map quota_key xs) k || contains (map quota_key ys) k)
unfolding contains
contains-map-append k [] ys = refl
contains-map-append k (x ∷ xs) ys = ground (arith, contains-map-append k xs ys)

-- A cleanup deletes no open reservation.
pub outdated-IsClosed : (m : Moment) (rows : List QuotaRow) → All IsClosed (outdated m rows)
unfolding keep_if is_outdated
outdated-IsClosed m [] = tt
outdated-IsClosed m (r ∷ rows) = elim (Bool-cases (is_outdated m r)) [
  | inl e ↦ rw e (ground arith, outdated-IsClosed m rows)
  | inr e ↦ rw e (outdated-IsClosed m rows)
]

pub IsKnown-clean :
    (gone : List QuotaRow) (m : Moment) (t : QuotaTables) (hs : List Reservation)
    → Distinct (map quota_key t.rows)
    → All (IsKnown gone t.rows) hs
    → All (IsKnown (gone ++ outdated m t.rows) (clean_quotas m t).rows) hs
IsKnown-clean gone m t [] d h = tt
IsKnown-clean gone m t (x ∷ hs) d h = (
  elim h.0 [
    | inl owned ↦
        let (r, found, same) = HasRow-cases t.rows x owned in
        let at_id : find_by quota_key x.id t.rows ≡ some r =
          ap (λ (v : Reservation). find_by quota_key v.id t.rows) (sym same) ∙ found in
        elim (clean_quotas-row gone 0 0 m t x.id r d at_id) [
          | inl kept ↦ inl (ap (Option.map handle_of) kept ∙ ap (λ v. some v) same)
          | inr lost ↦ inr (
            ground (arith, contains-map-append x.id gone (outdated m t.rows), lost.0),
            ap (Option.map handle_of) lost.1,
          )
        ]
    | inr lost ↦ inr (
      ground (arith, contains-map-append x.id gone (outdated m t.rows), lost.0),
      ap (Option.map handle_of) (
          clean_quotas-none gone 0 0 m t x.id (none-handle (find_by quota_key x.id t.rows) lost.1)),
    )
  ],
  IsKnown-clean gone m t hs d h.1,
)

pub handle_of-finish_one : (r x : QuotaRow) → handle_of (finish_one r x) ≡ handle_of x
handle_of-finish_one r x = elim (Bool-cases r.provider_started) [
  | inl e ↦ rw e refl
  | inr e ↦ rw e refl
]

pub sweep_rows-tail :
    (r : QuotaRow) (rs : List QuotaRow) (t mid after : QuotaTables)
    → sweep_row r t ≡ gives mid
    → sweep_rows (r ∷ rs) t ≡ gives after
    → sweep_rows rs mid ≡ gives after
unfolding sweep_rows
sweep_rows-tail r rs t mid after one gave = sym (rw (one, sweep_rows) refl) ∙ gave
