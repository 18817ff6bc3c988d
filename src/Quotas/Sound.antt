-- ===== src/Quotas/Sound.antt =====
-- Every transaction of logo-admin/quotas.py, and the retention cleanup of logo-admin/maintenance.py,
-- keeps the accounts of the quota tables and what is known of every handle.
use mathlib.Core.Path.{subst}
use mathlib.Core.Option
use arb_data_warehouse.Prelude.{
  All, All-Among-elim, All-append, Bool, Bool-cases, Distinct, List, Option-cases, Text, [], ap,
  arith, at_least_zero, contains, false, find_by, find_by-Among, find_by-append_one, find_by-key,
  inl, inr, map, refl, set_by, some, sym, true, ℕ, ℤ, ◌++◌, ◌∙◌, ◌∷◌, ◌≡◌, nat_eq, text_eq, pair_eq,
}
use arb_data_warehouse.Outcomes.{Ensures-gives, Fallible-cases, gives}
use arb_data_warehouse.Quotas.Types.{
  Moment, QuotaRow, QuotaSettings, QuotaTables, Reservation, is_reserved, no_reservation, quota_key,
  reserved,
}
use arb_data_warehouse.Quotas.Reserve.{handle_of, new_row, reserve}
use arb_data_warehouse.Quotas.Settle.{
  due, is_open_row, mark_provider_started, reconcile, release, retain, sweep_row, sweep_rows,
  sweep_stale_reservations, update_open,
}
use arb_data_warehouse.Quotas.Accounts.{
  Accounted, HasReleased-Accounted, reserve-Accounted, retained-Accounted, set_by-Accounted,
  sweep_row-Accounted,
}
use arb_data_warehouse.Quotas.Cleaning.{clean_quotas-Accounted, outdated}
use arb_data_warehouse.Quotas.Balance.{IsPositive}
use arb_data_warehouse.Quotas.Reserving.{HasReserved, reserve-HasReserved}
use arb_data_warehouse.Quotas.Settling.{
  HasReleased, ended, is_reserved-only, reconcile-closed, reconcile-open, release-Ensures,
  reserved-held,
}
use arb_data_warehouse.Quotas.Sweeping.{
  Pending, Pending-later, finish_one, finish_one-id, kept_charged,
}
use arb_data_warehouse.Quotas.Swept.{due-Distinct, due-Pending}
use arb_data_warehouse.Quotas.Steps.{
  All-IsKnown, HasRow, HasRow-cases, IsClosed, IsKnown, IsSound, QuotaStep, QuotaWorld, cleans,
  handle_at, handle_at-set_by, reconciles, reserves, retains, starts, sweeps,
}
use arb_data_warehouse.Quotas.Known.{
  IsKnown-append, IsKnown-clean, fails-gives, gives-first, handle_of-finish_one, outdated-IsClosed,
  reconcile-fails, reconcile-lost, started, sweep_rows-tail,
}

module _ (gone : List QuotaRow) (day month : ℕ) where
  -- Both parts of a sound state for new tables with the same handles.
  abbrev IsSoundFor : List Reservation → QuotaTables → Type 0
  IsSoundFor hs t =
      IsSound
        (record { tables = t; handles = hs; gone = gone; cleaned_day = day; cleaned_month = month })

  set_by-IsSound :
      (t : QuotaTables) (hs : List Reservation) (k : ℕ) (f : QuotaRow → QuotaRow)
      → ((x : QuotaRow) → handle_of (f x) ≡ handle_of x)
      → IsSoundFor hs t
      → Accounted gone day month (record t { rows = set_by quota_key k f t.rows })
      → IsSoundFor hs (record t { rows = set_by quota_key k f t.rows })
  set_by-IsSound t hs k f kept s b = record {
    accounted = b;
    closed = s.closed;
    owned =
        All-IsKnown gone t.rows (set_by quota_key k f t.rows) hs
          (λ j. handle_at-set_by k f t.rows j kept) s.owned;
  }

  mark_provider_started-IsSound :
      (res : Reservation) (t : QuotaTables) (hs : List Reservation)
      → IsSoundFor hs t
      → IsSoundFor hs (mark_provider_started res t).0
  unfolding mark_provider_started update_open
  mark_provider_started-IsSound res t hs s = elim (Option-cases (find_by quota_key res.id t.rows)) [
    | inl e ↦ rw (e, mark_provider_started, update_open) s
    | inr (r, e) ↦
        rw (e, mark_provider_started, update_open)
          (elim (Bool-cases (is_open_row res r)) [
            | inl h ↦ rw h (
                set_by-IsSound t hs res.id started (λ x. refl) s
                  (set_by-Accounted gone day month t res.id started r (λ x. refl) (λ x p. p) e
                    (λ key. refl) (λ key. refl) s.accounted))
            | inr h ↦ rw h s
          ])
  ]

  retain-IsSound :
      (res : Reservation) (t : QuotaTables) (hs : List Reservation)
      → IsSoundFor hs t
      → IsSoundFor hs (retain res t).0
  unfolding retain update_open is_open_row
  retain-IsSound res t hs s = elim (Option-cases (find_by quota_key res.id t.rows)) [
    | inl e ↦ rw (e, retain, update_open) s
    | inr (r, e) ↦
        rw (e, retain, update_open)
          (elim (Bool-cases (is_open_row res r)) [
            | inl h ↦
                let key : r.id ≡ res.id = find_by-key quota_key res.id r t.rows e in
                let at_id : find_by quota_key r.id t.rows ≡ some r =
                  ap (λ k. find_by quota_key k t.rows) key ∙ e in
                rw h (
                  set_by-IsSound t hs res.id kept_charged (λ x. refl) s
                    (subst
                      (λ k.
                        Accounted gone day month
                          (record t { rows = set_by quota_key k kept_charged t.rows }))
                      key (retained-Accounted gone day month t r at_id (ground arith) s.accounted)))
            | inr h ↦ rw h s
          ])
  ]

  -- A reconciliation that succeeds, of the handle of a row.
  reconcile-row :
      (r : QuotaRow) (i o : ℤ) (flag : Bool) (t after : QuotaTables) (hs : List Reservation)
      → IsSoundFor hs t
      → find_by quota_key r.id t.rows ≡ some r
      → reconcile (handle_of r) i o t ≡ gives (after, flag)
      → IsSoundFor hs after
  reconcile-row r i o flag t after hs s found gave = elim (Bool-cases (is_reserved r.status)) [
    | inl live ↦
        let open_row : r.status ≡ reserved = is_reserved-only r.status live in
        elim (Fallible-cases (
          release r.id r.user_login r.usage_day r.usage_month r.reserved_tokens (at_least_zero i)
            (at_least_zero o) t)) [
              | inl (e, failed) ↦ absurd (
                  fails-gives e (after, flag)
                    (sym (reconcile-fails r i o t e found open_row failed) ∙ gave))
              | inr (t', released) ↦
                  let out : t' ≡ after =
                    gives-first t' after true flag (reconcile (handle_of r) i o t)
                      (sym (reconcile-open r i o t t' found open_row released)) gave in
                  let done : HasReleased r (at_least_zero i) (at_least_zero o) t t' =
                    Ensures-gives (HasReleased r (at_least_zero i) (at_least_zero o) t) _ t'
                      released
                      (release-Ensures r (at_least_zero i) (at_least_zero o) t (
                        All-Among-elim IsPositive r t.rows s.accounted.positive
                          (find_by-Among quota_key r.id r t.rows found))) in
                  subst (IsSoundFor hs) out (record {
                    accounted =
                        HasReleased-Accounted gone day month r (at_least_zero i) (at_least_zero o) t
                          t' s.accounted found (reserved-held r open_row) done;
                    closed = s.closed;
                    owned =
                        All-IsKnown gone t.rows t'.rows hs
                          (λ k.
                            ap (λ rows. handle_at rows k) done.rows
                            ∙ handle_at-set_by r.id (ended (at_least_zero i) (at_least_zero o))
                                t.rows k (λ x. refl))
                          s.owned;
                  })
            ]
    | inr closed ↦
        subst (IsSoundFor hs)
          (gives-first t after false flag (reconcile (handle_of r) i o t)
            (sym (reconcile-closed r i o t found closed)) gave)
          s
  ]

  reconcile-IsSound :
      (res : Reservation) (i o : ℤ) (flag : Bool) (t after : QuotaTables) (hs : List Reservation)
      → IsSoundFor hs t
      → IsKnown gone t.rows res
      → reconcile res i o t ≡ gives (after, flag)
      → IsSoundFor hs after
  reconcile-IsSound res i o flag t after hs s (inl row) gave =
      let (r, found, same) = HasRow-cases t.rows res row in
      reconcile-row r i o flag t after hs s found
        (ap (λ (h : Reservation). reconcile h i o t) same ∙ gave)
  reconcile-IsSound res i o flag t after hs s (inr lost) gave =
      absurd
        (fails-gives no_reservation (after, flag) (sym (reconcile-lost res i o t lost.1) ∙ gave))

  reserve-IsSound :
      (settings : QuotaSettings) (m : Moment) (id : ℕ) (user : Text) (n : ℕ) (t : QuotaTables)
      (hs : List Reservation) (after : QuotaTables) (res : Reservation)
      → IsSoundFor hs t
      → contains (map quota_key gone) id ≡ false
      → HasReserved settings m id user n t (after, res)
      → IsSoundFor (res ∷ hs) after
  reserve-IsSound settings m id user n t hs after res s unused done =
      let row : QuotaRow = new_row settings m id user n in
      let newest : HasRow (t.rows ++ row ∷ []) (handle_of row) =
        ap (Option.map handle_of) (find_by-append_one quota_key row t.rows done.fresh) in
      record {
        accounted =
            reserve-Accounted gone day month settings m id user n t (after, res) done s.accounted;
        closed = s.closed;
        owned = (
          inl (
              ap (λ rows. handle_at rows res.id) done.rows
              ∙ subst (HasRow (t.rows ++ row ∷ [])) (sym done.handle) newest),
          subst (λ rows. All (IsKnown gone rows) hs) (sym done.rows)
              (IsKnown-append gone t.rows row hs unused s.owned),
        );
      }

  sweep_rows-IsSound :
      (rs : List QuotaRow) (t after : QuotaTables) (hs : List Reservation)
      → IsSoundFor hs t
      → Distinct (map quota_key rs)
      → All (Pending t) rs
      → sweep_rows rs t ≡ gives after
      → IsSoundFor hs after
  unfolding sweep_rows
  sweep_rows-IsSound [] t after hs s d p gave =
      subst (IsSoundFor hs) (Ensures-gives (λ x. t ≡ x) (gives t) after gave refl) s
  sweep_rows-IsSound (r ∷ rs) t after hs s d p gave = elim (Fallible-cases (sweep_row r t)) [
    | inl (e, failed) ↦ absurd (fails-gives e after (sym (rw (failed, sweep_rows) refl) ∙ gave))
    | inr (t', swept_one) ↦
        let done : Accounted gone day month t'
            × (t'.rows ≡ set_by quota_key r.id (finish_one r) t.rows) =
          Ensures-gives
            (λ x.
              Accounted gone day month x × (x.rows ≡ set_by quota_key r.id (finish_one r) t.rows))
            (sweep_row r t) t' swept_one
            (sweep_row-Accounted gone day month r t s.accounted p.0.0 p.0.1) in
        sweep_rows-IsSound rs t' after hs
          (record {
            accounted = done.0;
            closed = s.closed;
            owned =
                All-IsKnown gone t.rows t'.rows hs
                  (λ k.
                    ap (λ rows. handle_at rows k) done.1
                    ∙ handle_at-set_by r.id (finish_one r) t.rows k (handle_of-finish_one r))
                  s.owned;
          })
          d.1 (Pending-later t t' r (finish_one r) rs (finish_one-id r) done.1 d.0 p.1)
          (sweep_rows-tail r rs t t' after swept_one gave)
  ]

  sweep-IsSound :
      (now : ℕ) (limit : ℤ) (t after : QuotaTables) (hs : List Reservation)
      → IsSoundFor hs t
      → sweep_stale_reservations now limit t ≡ gives after
      → IsSoundFor hs after
  unfolding sweep_stale_reservations
  sweep-IsSound now limit t after hs s gave =
      sweep_rows-IsSound (due now limit t.rows) t after hs s
        (due-Distinct now limit t.rows s.accounted.ids)
        (due-Pending now limit t (due now limit t.rows) s.accounted.ids (λ r m. m)).0 gave

pub step-IsSound : (w v : QuotaWorld) → QuotaStep w v → IsSound w → IsSound v
step-IsSound w v (reserves settings m id user n {after = after} {res = res} unused gave) s =
    reserve-IsSound w.gone w.cleaned_day w.cleaned_month settings m id user n w.tables w.handles
      after res s unused
      (Ensures-gives (HasReserved settings m id user n w.tables)
        (reserve settings m id user n w.tables) (after, res) gave
        (reserve-HasReserved settings m id user n w.tables))
step-IsSound w v (reconciles res i o flag {after = after} mine gave) s =
    reconcile-IsSound w.gone w.cleaned_day w.cleaned_month res i o flag w.tables after w.handles s
      (All-Among-elim (IsKnown w.gone w.tables.rows) res w.handles s.owned mine) gave
step-IsSound w v (starts res mine) s =
    mark_provider_started-IsSound w.gone w.cleaned_day w.cleaned_month res w.tables w.handles s
step-IsSound w v (retains res mine) s =
    retain-IsSound w.gone w.cleaned_day w.cleaned_month res w.tables w.handles s
step-IsSound w v (sweeps now limit {after = after} gave) s =
    sweep-IsSound w.gone w.cleaned_day w.cleaned_month now limit w.tables after w.handles s gave
step-IsSound w v (cleans m) s = record {
  accounted = clean_quotas-Accounted w.gone w.cleaned_day w.cleaned_month m w.tables s.accounted;
  closed =
      All-append IsClosed w.gone (outdated m w.tables.rows) s.closed
        (outdated-IsClosed m w.tables.rows);
  owned = IsKnown-clean w.gone m w.tables w.handles s.accounted.ids s.owned;
}
