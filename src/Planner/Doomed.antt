-- ===== src/Planner/Doomed.antt =====
-- The terms that a plan deletes (build_blog_plan in logo-admin/categories_planner.py) and the
-- products on them.
use mathlib.Core.Path.{subst}
use arb_data_warehouse.Prelude.{
  All, All-Among-elim, All-append, Among, Bool-cases, Dict, List, Option, Option-cases, Text, [],
  any_of, arith, beq_refl, contains, has_key, has_key-insert, inl, inr, insert, lookup, none, some,
  true, ℕ, ◌∷◌, ◌≡◌, nat_eq, text_eq, pair_eq,
}
use arb_data_warehouse.Planner.Types.{
  Action, Delete, Desired, Extra, Reason, Term, logical, map_to, store_custom,
}
use arb_data_warehouse.Planner.Terms.{
  Context, PlanState, emit_delete, emit_update, empty_state, is_survivor, plan_action, plan_mapped,
  plan_store_custom, plan_survivor, plan_term, plan_terms, slug_of_desired,
}
use arb_data_warehouse.Planner.Memberships.{Product, sku_change}
use arb_data_warehouse.Planner.Memberships.Laws.{doomed_product_has_row, row_for}
use arb_data_warehouse.Planner.Plan.{
  BlogInput, Plan, Snapshot, assemble, build_blog_plan, context_of, planned,
}
use arb_data_warehouse.Planner.Delivery.{planned-from}

-- Every deleted term has an entry among the merge targets.
abbrev pub HasTarget : Dict Text (Option Text) → Delete → Type 0
HasTarget targets d = has_key d.public_slug targets ≡ true

abbrev pub Recorded : PlanState → Type 0
Recorded st = All (HasTarget st.merge_target_slug) st.deletes

All-HasTarget-insert :
    (slug : Text) (o : Option Text) (targets : Dict Text (Option Text)) (ds : List Delete)
    → All (HasTarget targets) ds
    → All (HasTarget (insert slug o targets)) ds
All-HasTarget-insert slug o targets [] h = tt
All-HasTarget-insert slug o targets (d ∷ ds) h = (
  ground (arith, has_key-insert slug d.public_slug o targets),
  All-HasTarget-insert slug o targets ds h.1,
)

Recorded-emit_delete :
    (st : PlanState) (t : Term) (why : Reason) (target : Option Text)
    → Recorded st
    → Recorded (emit_delete st t why target)
unfolding emit_delete
Recorded-emit_delete st t why target h =
    All-append (HasTarget (insert (logical t) target st.merge_target_slug)) st.deletes _
      (All-HasTarget-insert (logical t) target st.merge_target_slug st.deletes h)
      (
        ground (
          arith,
          has_key-insert (logical t) (logical t) target st.merge_target_slug,
          beq_refl (logical t),
        ),
        tt,
      )

Recorded-plan_store_custom :
    (c : Context) (st : PlanState) (t : Term) (o : Option Extra)
    → Recorded st
    → Recorded (plan_store_custom c st t o)
unfolding plan_store_custom emit_update
Recorded-plan_store_custom c st t none h = h
Recorded-plan_store_custom c st t (some x) h =
    elim (Bool-cases (contains st.converged_extras x.override_id)) [
      | inl e ↦ rw e (Recorded-emit_delete st t Reason.merge (some x.slug) h)
      | inr e ↦ rw e h
    ]

Recorded-plan_survivor :
    (c : Context) (st : PlanState) (t : Term) (n : ℕ) (o : Option Desired)
    → Recorded st
    → Recorded (plan_survivor c st t n o)
unfolding plan_survivor emit_update
Recorded-plan_survivor c st t n none h = Recorded-emit_delete st t Reason.excluded none h
Recorded-plan_survivor c st t n (some d) h = h

Recorded-plan_action :
    (c : Context) (st : PlanState) (t : Term) (a : Action)
    → Recorded st
    → Recorded (plan_action c st t a)
unfolding plan_action plan_mapped
Recorded-plan_action c st t (map_to n) h = elim (Bool-cases (is_survivor c n t)) [
  | inl e ↦ rw e (Recorded-plan_survivor c st t n (lookup n c.kept) h)
  | inr e ↦ rw e (Recorded-emit_delete st t Reason.merge (slug_of_desired (lookup n c.kept)) h)
]
Recorded-plan_action c st t Action.delete h = Recorded-emit_delete st t Reason.delete none h
Recorded-plan_action c st t store_custom h =
    Recorded-plan_store_custom c st t (lookup (logical t) c.extras_by_slug) h

Recorded-plan_terms :
    (c : Context) (st : PlanState) (terms : List Term)
    → Recorded st
    → Recorded (plan_terms c st terms)
unfolding plan_terms plan_term
Recorded-plan_terms c st [] h = h
Recorded-plan_terms c st (t ∷ ts) h =
    Recorded-plan_terms c (plan_term c st t) ts
      (elim (Option-cases (lookup (logical t) c.dispositions)) [
        | inl e ↦ rw (e, plan_term) h
        | inr (d, e) ↦ rw (e, plan_term) (Recorded-plan_action c st t d.action h)
      ])

-- Every product that is on a term which the plan deletes has a membership row, so that it leaves
-- the term before the term is deleted.
pub doomed_products_move :
    (b : BlogInput) (p : Plan) (d : Delete) (product : Product)
    → build_blog_plan b ≡ planned p
    → Among d p.deletes
    → Among product b.products
    → contains product.slugs d.public_slug ≡ true
    → any_of (row_for product.product_id) p.memberships ≡ true
doomed_products_move b p d product e a m h =
    let (snap, _, _, q) = planned-from b p e in
    subst
      (λ (r : Plan). Among d r.deletes → any_of (row_for product.product_id) r.memberships ≡ true) q
      (doomed_at snap) a
  where
    doomed_at :
        (snap : Snapshot)
        → Among d (assemble b snap (plan_terms (context_of b) empty_state b.terms)).deletes
        → any_of
            (row_for product.product_id)
            (assemble b snap (plan_terms (context_of b) empty_state b.terms)).memberships
          ≡ true
    doomed_at snap a' =
        unfold assemble in
        doomed_product_has_row (plan_terms (context_of b) empty_state b.terms)
          (sku_change b.target.kept b.extra_memberships) product b.products d.public_slug m h
          (All-Among-elim
            (HasTarget (plan_terms (context_of b) empty_state b.terms).merge_target_slug) d
            (plan_terms (context_of b) empty_state b.terms).deletes
            (Recorded-plan_terms (context_of b) empty_state b.terms tt) (unfold assemble in a'))
