-- ===== src/Planner/Terms/Fates.antt =====
-- What the loop of build_blog_plan (logo-admin/categories_planner.py) does with each live term.
use arb_data_warehouse.Prelude.{
  Bool, Bool-cases, List, Option, Option-cases, Text, [], arith, bit, contains, count_if,
  count_if-append, false, has_key, if◌then◌else◌, inl, inr, lookup, none, not, some, true, ℕ, ◌+◌,
  ◌==◌, ◌∷◌, ◌≡◌, nat_eq, text_eq, pair_eq,
}
use arb_data_warehouse.Planner.Types.{
  Action, Delete, Desired, Extra, Reason, Term, TermSpec, Update, logical, map_to, store_custom,
}
use arb_data_warehouse.Planner.Terms.{
  Context, PlanState, emit_delete, emit_update, empty_state, is_survivor, plan_action, plan_mapped,
  plan_store_custom, plan_survivor, plan_term, plan_terms, slug_of_desired, spec_of_desired,
  spec_of_extra, update_of,
}

abbrev pub update_has_id : ℕ → Update → Bool
update_has_id id u = u.term_id == id

abbrev pub delete_has_id : ℕ → Delete → Bool
delete_has_id id d = d.term_id == id

-- How often a term is updated or deleted.
abbrev pub touches : ℕ → PlanState → ℕ
touches id st = count_if (update_has_id id) st.updates + count_if (delete_has_id id) st.deletes

abbrev pub custom_elsewhere : Context → Term → Action → Bool
custom_elsewhere c t store_custom = not (has_key (logical t) c.extras_by_slug)
custom_elsewhere c t _ = false

-- A slug that stays with another store: a store custom that none of this store's extras owns.
abbrev pub is_left_alone : Context → Term → Bool
is_left_alone c t = elim (lookup (logical t) c.dispositions) [
  | none ↦ true
  | some d ↦ custom_elsewhere c t d.action
]

touches-emit_update :
    (id : ℕ) (c : Context) (st : PlanState) (t : Term) (s : TermSpec)
    → touches id (emit_update c st t s) ≡ touches id st + bit (t.term_id == id)
unfolding emit_update update_of count_if
touches-emit_update id c st t s = rw count_if-append (omega arith)

touches-emit_delete :
    (id : ℕ) (st : PlanState) (t : Term) (why : Reason) (target : Option Text)
    → touches id (emit_delete st t why target) ≡ touches id st + bit (t.term_id == id)
unfolding emit_delete count_if
touches-emit_delete id st t why target = rw count_if-append (omega arith)

module _ (id : ℕ) (c : Context) (st : PlanState) (t : Term) where
  touches-plan_store_custom :
      (o : Option Extra)
      → touches id (plan_store_custom c st t o)
        ≡ touches id st + elim o [ none ↦ 0 | some x ↦ bit (t.term_id == id) ]
  unfolding plan_store_custom
  touches-plan_store_custom none = omega arith
  touches-plan_store_custom (some x) =
      elim (Bool-cases (contains st.converged_extras x.override_id)) [
        | inl merged ↦ rw merged (touches-emit_delete id st t Reason.merge (some x.slug))
        | inr first ↦ rw first (touches-emit_update id c _ t (spec_of_extra x t.description))
      ]

  touches-plan_survivor :
      (n : ℕ) (o : Option Desired)
      → touches id (plan_survivor c st t n o) ≡ touches id st + bit (t.term_id == id)
  unfolding plan_survivor
  touches-plan_survivor n none = touches-emit_delete id st t Reason.excluded none
  touches-plan_survivor n (some d) = touches-emit_update id c _ t (spec_of_desired d)

  touches-plan_mapped :
      (n : ℕ) → touches id (plan_mapped c st t n) ≡ touches id st + bit (t.term_id == id)
  unfolding plan_mapped
  touches-plan_mapped n = elim (Bool-cases (is_survivor c n t)) [
    | inl stays ↦ rw stays (touches-plan_survivor n (lookup n c.kept))
    | inr goes ↦
        rw goes (touches-emit_delete id st t Reason.merge (slug_of_desired (lookup n c.kept)))
  ]

  touches-plan_action :
      (a : Action)
      → touches id (plan_action c st t a)
        ≡ touches id st + (if custom_elsewhere c t a then 0 else bit (t.term_id == id))
  unfolding plan_action has_key
  touches-plan_action (map_to n) = touches-plan_mapped n
  touches-plan_action Action.delete = touches-emit_delete id st t Reason.delete none
  touches-plan_action store_custom = elim (Option-cases (lookup (logical t) c.extras_by_slug)) [
    | inl e ↦ rw (e, has_key) (touches-plan_store_custom none)
    | inr (x, e) ↦ rw (e, has_key) (touches-plan_store_custom (some x))
  ]

  touches-plan_term :
      touches id (plan_term c st t)
      ≡ touches id st + (if is_left_alone c t then 0 else bit (t.term_id == id))
  unfolding plan_term
  touches-plan_term = elim (Option-cases (lookup (logical t) c.dispositions)) [
    | inl e ↦ ground arith
    | inr (d, e) ↦ ground (arith, touches-plan_action d.action)
  ]

-- The terms with an id that the plan has to do something with.
abbrev pub is_planned_id : Context → ℕ → Term → Bool
is_planned_id c id t = if is_left_alone c t then false else t.term_id == id

touches-plan_terms :
    (id : ℕ) (c : Context) (st : PlanState) (terms : List Term)
    → touches id (plan_terms c st terms) ≡ touches id st + count_if (is_planned_id c id) terms
unfolding plan_terms count_if
touches-plan_terms id c st [] = omega arith
touches-plan_terms id c st (t ∷ ts) =
    ground (arith, touches-plan_terms id c (plan_term c st t) ts, touches-plan_term id c st t)

-- The loop updates or deletes every live term exactly as often as it is listed, and leaves alone
-- the terms whose slug belongs to another store: for each id, the updates and the deletes
-- with it are together as many as the listed terms with it that are not left alone.
pub fates_partition :
    (c : Context) (terms : List Term) (id : ℕ)
    → count_if (update_has_id id) (plan_terms c empty_state terms).updates
        + count_if (delete_has_id id) (plan_terms c empty_state terms).deletes
      ≡ count_if (is_planned_id c id) terms
unfolding count_if
fates_partition c terms id = omega (arith, touches-plan_terms id c empty_state terms)
