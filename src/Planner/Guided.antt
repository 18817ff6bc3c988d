-- ===== src/Planner/Guided.antt =====
-- Where the updates and merges of a plan lead to (the loop over the live terms of build_blog_plan in
-- logo-admin/categories_planner.py).
use arb_data_warehouse.Prelude.{
  All, All-append, All-insert, All-lookup, Among, Bool-cases, Dict, List, Option, Option-cases,
  Text, [], ap, arith, beq_refl, contains, count_if, false, inl, inr, lookup, none, refl, some,
  true, values, ℕ, ◌==◌, ◌∷◌, ◌≡◌, ◌≤◌, nat_eq, text_eq, pair_eq,
}
use arb_data_warehouse.Planner.Types.{
  Action, Desired, Extra, Reason, Target, Term, TermSpec, Update, logical, map_to, store_custom,
}
use arb_data_warehouse.Planner.Terms.{
  Context, PlanState, changes_of, emit_delete, emit_update, is_survivor, plan_action, plan_mapped,
  plan_store_custom, plan_survivor, plan_term, plan_terms, slug_of_desired, spec_of_desired,
  spec_of_extra, update_of,
}
use arb_data_warehouse.Planner.Terms.Coverage.{extra_final, node_final}
use arb_data_warehouse.Planner.Plan.{BlogInput, context_of}
use arb_data_warehouse.Planner.Delivery.{All-extras_by_slug, wanted}

-- An update that ends at another slug than the public one says that it changes the slug.
abbrev pub IsHonest : Update → Type 0
IsHonest u = (u.public_slug == u.set.slug) ≡ false → u.changed.slug ≡ true

-- The target tree has the slug that a merge leads to.
abbrev pub IsWanted : Target → Option Text → Type 0
IsWanted target none = Unit
IsWanted target (some s) = 1 ≤ wanted target s

pub update_of-IsHonest : (c : Context) (t : Term) (s : TermSpec) → IsHonest (update_of c t s)
unfolding update_of changes_of
update_of-IsHonest c t s h = ground arith

pub wanted-lookup :
    (n : ℕ) (d : Desired) (kept : Dict ℕ Desired)
    → lookup n kept ≡ some d
    → 1 ≤ count_if (node_final d.slug) kept
unfolding lookup count_if
wanted-lookup n d [] h = absurd (cc)
wanted-lookup n d ((k, e) ∷ kept) h = elim (Bool-cases (k == n)) [
  | inl same ↦
      let got : e ≡ d = ground arith in
      ground (arith, ap (λ (v : Desired). v.slug) got, beq_refl d.slug)
  | inr other ↦ ground (arith, wanted-lookup n d kept)
]

pub wanted-Among :
    (x : Extra) (extras : List Extra) → Among x extras → 1 ≤ count_if (extra_final x.slug) extras
unfolding count_if
wanted-Among x [] m = absurd m
wanted-Among x (y ∷ ys) (inl e) = ground (arith, ap (λ (v : Extra). v.slug) e, beq_refl x.slug)
wanted-Among x (y ∷ ys) (inr m) = omega (arith, wanted-Among x ys m)

module _ (b : BlogInput) where
  abbrev pub IsGuided : PlanState → Type 0
  IsGuided st = All IsHonest st.updates × All (IsWanted b.target) (values st.merge_target_slug)

  IsGuided-emit_update :
      (st : PlanState) (t : Term) (s : TermSpec)
      → IsGuided st
      → IsGuided (emit_update (context_of b) st t s)
  unfolding emit_update
  IsGuided-emit_update st t s h =
      (All-append IsHonest st.updates _ h.0 (update_of-IsHonest (context_of b) t s, tt), h.1)

  IsGuided-emit_delete :
      (st : PlanState) (t : Term) (why : Reason) (o : Option Text)
      → IsWanted b.target o
      → IsGuided st
      → IsGuided (emit_delete st t why o)
  unfolding emit_delete
  IsGuided-emit_delete st t why o w h =
      (h.0, All-insert (IsWanted b.target) (logical t) o st.merge_target_slug h.1 w)

  IsWanted-desired : (n : ℕ) → IsWanted b.target (slug_of_desired (lookup n b.target.kept))
  IsWanted-desired n = elim (Option-cases (lookup n b.target.kept)) [
    | inl e ↦ rw e tt
    | inr (d, e) ↦ rw e (omega (arith, wanted-lookup n d b.target.kept e))
  ]

  IsGuided-plan_store_custom :
      (st : PlanState) (t : Term) (o : Option Extra)
      → ((x : Extra) → o ≡ some x → Among x b.target.extras)
      → IsGuided st
      → IsGuided (plan_store_custom (context_of b) st t o)
  unfolding plan_store_custom
  IsGuided-plan_store_custom st t none own h = h
  IsGuided-plan_store_custom st t (some x) own h =
      elim (Bool-cases (contains st.converged_extras x.override_id)) [
        | inl e ↦
            let w : IsWanted b.target (some x.slug) =
              omega (arith, wanted-Among x b.target.extras (own x refl)) in
            rw e (IsGuided-emit_delete st t Reason.merge (some x.slug) w h)
        | inr e ↦ rw e (IsGuided-emit_update _ t (spec_of_extra x t.description) h)
      ]

  IsGuided-plan_survivor :
      (st : PlanState) (t : Term) (n : ℕ) (o : Option Desired)
      → IsGuided st
      → IsGuided (plan_survivor (context_of b) st t n o)
  unfolding plan_survivor
  IsGuided-plan_survivor st t n none h = IsGuided-emit_delete st t Reason.excluded none tt h
  IsGuided-plan_survivor st t n (some d) h = IsGuided-emit_update _ t (spec_of_desired d) h

  IsGuided-plan_action :
      (st : PlanState) (t : Term) (a : Action)
      → IsGuided st
      → IsGuided (plan_action (context_of b) st t a)
  unfolding plan_action plan_mapped context_of
  IsGuided-plan_action st t (map_to n) h = elim (Bool-cases (is_survivor (context_of b) n t)) [
    | inl e ↦ rw e (IsGuided-plan_survivor st t n (lookup n b.target.kept) h)
    | inr e ↦ rw e (IsGuided-emit_delete st t Reason.merge _ (IsWanted-desired n) h)
  ]
  IsGuided-plan_action st t Action.delete h = IsGuided-emit_delete st t Reason.delete none tt h
  IsGuided-plan_action st t store_custom h =
      IsGuided-plan_store_custom st t (lookup (logical t) (context_of b).extras_by_slug)
        (λ x e.
          All-lookup (λ y. Among y b.target.extras) (logical t) x (context_of b).extras_by_slug
            (All-extras_by_slug b) e)
        h

  pub IsGuided-plan_terms :
      (st : PlanState) (ts : List Term) → IsGuided st → IsGuided (plan_terms (context_of b) st ts)
  unfolding plan_terms plan_term
  IsGuided-plan_terms st [] h = h
  IsGuided-plan_terms st (t ∷ ts) h =
      IsGuided-plan_terms (plan_term (context_of b) st t) ts
        (elim (Option-cases (lookup (logical t) (context_of b).dispositions)) [
          | inl e ↦ rw (e, plan_term) h
          | inr (d, e) ↦ rw (e, plan_term) (IsGuided-plan_action st t d.action h)
        ])
