-- ===== src/Quotas/Sweeping.antt =====
-- What the sweep of expired reservations does (sweep_stale_reservations of logo-admin/quotas.py).
use mathlib.Core.Option
use arb_data_warehouse.Prelude.{
  All, Bool-cases, Distinct, List, Option-cases, [], ap, arith, beq_refl, bit, contains, count_if,
  false, find_by, find_by-key, find_by-set_by, find_by-set_by_other, if◌then◌else◌, inl, inr, map,
  nat_beq_iff, refl, set_by, some, suc, sum_of-count_if, sum_of-set_by, sym, true, ℕ, ◌==◌, ◌∙◌,
  ◌∷◌, ◌≡◌, nat_eq, text_eq, pair_eq,
}
use arb_data_warehouse.Outcomes.{gives}
use arb_data_warehouse.Quotas.Types.{
  QuotaRow, QuotaTables, ReservationStatus, is_reserved, quota_key, reconciled, reserved, retained,
}
use arb_data_warehouse.Quotas.Settle.{is_expired, release, sweep_row}
use arb_data_warehouse.Quotas.Rules.{at_key}
use arb_data_warehouse.Quotas.Balance.{Balanced, held, set_by-Balanced}
use arb_data_warehouse.Quotas.Settling.{
  HasReleased, HasReleased-Balanced, ended, release-HasReleased,
}

abbrev pub kept_charged : QuotaRow → QuotaRow
kept_charged r = record r { status = retained }

-- How a swept row ends.
abbrev pub swept : QuotaRow → QuotaRow
swept r = if r.provider_started then kept_charged r else ended 0 0 r

pub reserved_or_retained :
    (s : ReservationStatus) (n : ℕ) → is_reserved s ≡ true → held retained n ≡ held s n
reserved_or_retained reserved n h = refl
reserved_or_retained reconciled n h = absurd (cc)
reserved_or_retained retained n h = refl

pub retained-Balanced :
    (t : QuotaTables) (r : QuotaRow)
    → find_by quota_key r.id t.rows ≡ some r
    → is_reserved r.status ≡ true
    → Balanced t
    → Balanced (record t { rows = set_by quota_key r.id kept_charged t.rows })
retained-Balanced t r found live b =
    set_by-Balanced t r.id kept_charged r (λ x. refl) (λ x h. h) found
      (λ key.
        ap (λ n. at_key (r.user_login, r.usage_day) n key)
          (reserved_or_retained r.status r.reserved_tokens live))
      (λ key.
        ap (λ n. at_key r.usage_month n key) (reserved_or_retained r.status r.reserved_tokens live))
      b

pub sweep_row-swept :
    (r : QuotaRow) (t : QuotaTables)
    → Balanced t
    → find_by quota_key r.id t.rows ≡ some r
    → is_reserved r.status ≡ true
    → (after : QuotaTables) × (sweep_row r t ≡ gives after)
      × Balanced after
      × (after.rows
          ≡ set_by quota_key r.id
              (λ x. if r.provider_started then kept_charged x else ended 0 0 x)
              t.rows)
unfolding sweep_row
sweep_row-swept r t b found live = elim (Bool-cases r.provider_started) [
  | inl e ↦ (
    record t { rows = set_by quota_key r.id kept_charged t.rows },
    rw (e, sweep_row),
    retained-Balanced t r found live b,
    rw e,
  )
  | inr e ↦
      let charged : held r.status r.reserved_tokens ≡ r.reserved_tokens = ground arith in
      let released : (after : QuotaTables) × (release r.id r.user_login r.usage_day r.usage_month
              r.reserved_tokens 0 0 t
            ≡ gives after)
          × HasReleased r 0 0 t after =
        release-HasReleased r 0 0 t b found charged in
      (
        released.0,
        rw (e, sweep_row, released.1),
        HasReleased-Balanced r 0 0 t released.0 b found charged released.2,
        rw e (released.2).rows,
      )
]

-- The rows that the sweep still has to end.
abbrev pub Pending : QuotaTables → QuotaRow → Type 0
Pending t r = (find_by quota_key r.id t.rows ≡ some r) × (is_reserved r.status ≡ true)

pub Pending-later :
    (t after : QuotaTables) (r : QuotaRow) (f : QuotaRow → QuotaRow) (rs : List QuotaRow)
    → ((x : QuotaRow) → (f x).id ≡ x.id)
    → after.rows ≡ set_by quota_key r.id f t.rows
    → contains (map quota_key rs) r.id ≡ false
    → All (Pending t) rs
    → All (Pending after) rs
unfolding contains
Pending-later t after r f [] same_id done other p = tt
Pending-later t after r f (x ∷ rs) same_id done other p = (
  (
    ap (find_by quota_key x.id) done
        ∙ find_by-set_by_other quota_key r.id x.id f t.rows same_id
            (ground (arith, nat_beq_iff r.id x.id, nat_beq_iff x.id r.id))
        ∙ p.0.0,
    p.0.1,
  ),
  Pending-later t after r f rs same_id done (ground arith) p.1,
)

-- One row of the sweep.
abbrev pub finish_one : QuotaRow → QuotaRow → QuotaRow
finish_one r x = if r.provider_started then kept_charged x else ended 0 0 x

-- What the sweep of some rows does to each row of the table.
abbrev pub finish : List QuotaRow → QuotaRow → QuotaRow
finish rs x = if contains (map quota_key rs) x.id then swept x else x

pub finish_one-id : (r x : QuotaRow) → (finish_one r x).id ≡ x.id
finish_one-id r x = elim (Bool-cases r.provider_started) [ inl e ↦ rw e refl | inr e ↦ rw e refl ]

pub finish-cons :
    (r : QuotaRow) (rs : List QuotaRow) (t after : QuotaTables) (k : ℕ)
    → find_by quota_key r.id t.rows ≡ some r
    → contains (map quota_key rs) r.id ≡ false
    → after.rows ≡ set_by quota_key r.id (finish_one r) t.rows
    → Option.map (finish rs) (find_by quota_key k after.rows)
      ≡ Option.map (finish (r ∷ rs)) (find_by quota_key k t.rows)
unfolding contains
finish-cons r rs t after k found once done = elim (Bool-cases (r.id == k)) [
  | inl e ↦
      let same : k ≡ r.id = sym ((nat_beq_iff r.id k).0 e) in
      let here : find_by quota_key k after.rows ≡ some (swept r) =
        ap (find_by quota_key k) done
        ∙ ap (λ i. find_by quota_key i (set_by quota_key r.id (finish_one r) t.rows)) same
        ∙ find_by-set_by quota_key r.id (finish_one r) r t.rows (finish_one-id r) found in
      let there : find_by quota_key k t.rows ≡ some r =
        ap (λ i. find_by quota_key i t.rows) same ∙ found in
      rw (here, there)
        (elim (Bool-cases r.provider_started) [
          | inl p ↦ rw (p, once, beq_refl r.id) refl
          | inr p ↦ rw (p, once, beq_refl r.id) refl
        ])
  | inr e ↦
      let kept : find_by quota_key k after.rows ≡ find_by quota_key k t.rows =
        ap (find_by quota_key k) done
        ∙ find_by-set_by_other quota_key r.id k (finish_one r) t.rows (finish_one-id r)
            (ground (arith, nat_beq_iff r.id k, nat_beq_iff k r.id)) in
      rw kept (elim (Option-cases (find_by quota_key k t.rows)) [
        | inl none_there ↦ rw none_there refl
        | inr (x, there) ↦
            let key : x.id ≡ k = find_by-key quota_key k x t.rows there in
            let apart : (x.id == r.id) ≡ false =
              ground (arith, nat_beq_iff x.id r.id, nat_beq_iff r.id k) in
            rw (there, apart) refl
      ])
]

expired-finish_one : (now : ℕ) (r : QuotaRow) → is_expired now (finish_one r r) ≡ false
unfolding is_expired
expired-finish_one now r = elim (Bool-cases r.provider_started) [
  | inl e ↦ rw e refl
  | inr e ↦ rw e refl
]

pub expired-set_by :
    (now : ℕ) (r : QuotaRow) (t after : QuotaTables)
    → Distinct (map quota_key t.rows)
    → find_by quota_key r.id t.rows ≡ some r
    → is_expired now r ≡ true
    → after.rows ≡ set_by quota_key r.id (finish_one r) t.rows
    → suc (count_if (is_expired now) after.rows) ≡ count_if (is_expired now) t.rows
expired-set_by now r t after d found old done = omega (
  arith,
  ap (count_if (is_expired now)) done,
  ap bit (expired-finish_one now r),
  ap bit old,
  sum_of-count_if quota_key (is_expired now) t.rows,
  sum_of-count_if quota_key (is_expired now) (set_by quota_key r.id (finish_one r) t.rows),
  sum_of-set_by quota_key (λ x. bit (is_expired now x)) r.id (finish_one r) r t.rows d found,
)
