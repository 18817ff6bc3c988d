-- ===== src/Planner/Terms/Coverage.antt =====
-- The final slugs that the loop of build_blog_plan (logo-admin/categories_planner.py) writes: one
-- for each node and each extra that it marks as converged.
use arb_data_warehouse.Prelude.{
  All, All-lookup, Among, Bool, Bool-cases, Distinct, List, Option, Option-cases, Text, [], arith,
  bit, contains, contains-set_add, count_if, count_if-append, covered-set_add, false, inl, inr,
  is_covered, lookup, lookup-Among, map, nat_beq_iff, none, refl, some, true, values, ℕ, ◌++◌, ◌+◌,
  ◌==◌, ◌∷◌, ◌≡◌, nat_eq, text_eq, pair_eq,
}
use arb_data_warehouse.Planner.Types.{
  Action, Desired, Extra, Reason, Term, TermSpec, Update, logical, map_to, store_custom,
}
use arb_data_warehouse.Planner.Terms.{
  Context, PlanState, emit_delete, emit_update, empty_state, is_survivor, plan_action, plan_mapped,
  plan_store_custom, plan_survivor, plan_term, plan_terms, slug_of_desired, spec_of_desired,
  spec_of_extra, update_of,
}

abbrev pub has_final : Text → Update → Bool
has_final slug u = u.set.slug == slug

abbrev pub node_key : ℕ × Desired → ℕ
node_key e = e.0

abbrev pub node_final : Text → ℕ × Desired → Bool
node_final slug e = e.1.slug == slug

abbrev pub extra_key : Extra → ℕ
extra_key x = x.override_id

abbrev pub extra_final : Text → Extra → Bool
extra_final slug x = x.slug == slug

-- The survivor of a node is among the terms that the loop has been through.
abbrev pub survivor_done : Context → List ℕ → ℕ → Bool
survivor_done c done n = elim (c.survivors n) [ none ↦ false | some k ↦ contains done k ]

pub record Covers (c : Context) (extras : List Extra) (slug : Text) (done : List ℕ) (st : PlanState)
    : Type 0 where
  pub finals :
      count_if (has_final slug) st.updates
      ≡ count_if (is_covered node_key st.nodes_with_primary_here (node_final slug)) c.kept
        + count_if (is_covered extra_key st.converged_extras (extra_final slug)) extras
  pub processed :
      (n : ℕ) → contains st.nodes_with_primary_here n ≡ true → survivor_done c done n ≡ true

-- What the input has to be like: no node and no extra is listed twice, and the extras are found by
-- slugs of their own.
pub record IsProper (c : Context) (extras : List Extra) : Type 0 where
  pub nodes : Distinct (map node_key c.kept)
  pub overrides : Distinct (map extra_key extras)
  pub by_slug : All (λ x. Among x extras) (values c.extras_by_slug)

finals-append :
    (slug : Text) (c : Context) (us : List Update) (t : Term) (s : TermSpec)
    → count_if (has_final slug) (us ++ update_of c t s ∷ [])
      ≡ count_if (has_final slug) us + bit (s.slug == slug)
unfolding count_if update_of
finals-append slug c us t s = rw count_if-append (omega arith)

module _ (c : Context) (extras : List Extra) (slug : Text) (proper : IsProper c extras)
    (done : List ℕ) (st : PlanState) (t : Term) (new : contains done t.term_id ≡ false)
    (h : Covers c extras slug done st) where
  survivor_done-step :
      (n : ℕ) → survivor_done c done n ≡ true → survivor_done c (t.term_id ∷ done) n ≡ true
  unfolding contains
  survivor_done-step n d = ground arith

  Covers-emit_delete :
      (why : Reason) (target : Option Text)
      → Covers c extras slug (t.term_id ∷ done) (emit_delete st t why target)
  unfolding emit_delete
  Covers-emit_delete why target = record {
    finals = h.finals;
    processed = λ n m. survivor_done-step n (h.processed n m);
  }

  Covers-plan_store_custom :
      (o : Option Extra)
      → lookup (logical t) c.extras_by_slug ≡ o
      → Covers c extras slug (t.term_id ∷ done) (plan_store_custom c st t o)
  unfolding plan_store_custom emit_update
  Covers-plan_store_custom none e = record {
    finals = h.finals;
    processed = λ n m. survivor_done-step n (h.processed n m);
  }
  Covers-plan_store_custom (some x) e =
      elim (Bool-cases (contains st.converged_extras x.override_id)) [
        | inl merged ↦ rw merged (Covers-emit_delete Reason.merge (some x.slug))
        | inr first ↦ rw first (record {
          finals = omega (
            arith,
            h.finals,
            finals-append slug c st.updates t (spec_of_extra x t.description),
            covered-set_add extra_key st.converged_extras (extra_final slug) x extras
                proper.overrides
                (All-lookup (λ y. Among y extras) (logical t) x c.extras_by_slug proper.by_slug e)
                first,
          );
          processed = λ n m. survivor_done-step n (h.processed n m);
        })
      ]

  -- A survivor that comes up is not done yet, since its id is new.
  survivor-new : (n : ℕ) → is_survivor c n t ≡ true → contains st.nodes_with_primary_here n ≡ false
  survivor-new n s = ground (arith, h.processed n, new)

  survivor_done-here :
      (n : ℕ) → is_survivor c n t ≡ true → survivor_done c (t.term_id ∷ done) n ≡ true
  unfolding contains
  survivor_done-here n s = ground arith

  Covers-plan_survivor :
      (n : ℕ) (o : Option Desired)
      → is_survivor c n t ≡ true
      → lookup n c.kept ≡ o
      → Covers c extras slug (t.term_id ∷ done) (plan_survivor c st t n o)
  unfolding plan_survivor emit_update
  Covers-plan_survivor n none s e = Covers-emit_delete Reason.excluded none
  Covers-plan_survivor n (some d) s e = record {
    finals = omega (
      arith,
      h.finals,
      finals-append slug c st.updates t (spec_of_desired d),
      covered-set_add node_key st.nodes_with_primary_here (node_final slug) (n, d) c.kept
          proper.nodes (lookup-Among n d c.kept e) (survivor-new n s),
    );
    processed = λ m k. ground (
      arith,
      contains-set_add st.nodes_with_primary_here n m,
      h.processed m,
      survivor_done-step m,
      survivor_done-here n s,
      nat_beq_iff m n,
    );
  }

  Covers-plan_mapped : (n : ℕ) → Covers c extras slug (t.term_id ∷ done) (plan_mapped c st t n)
  unfolding plan_mapped
  Covers-plan_mapped n = elim (Bool-cases (is_survivor c n t)) [
    | inl stays ↦ rw stays (Covers-plan_survivor n (lookup n c.kept) stays refl)
    | inr goes ↦ rw goes (Covers-emit_delete Reason.merge (slug_of_desired (lookup n c.kept)))
  ]

  Covers-plan_action : (a : Action) → Covers c extras slug (t.term_id ∷ done) (plan_action c st t a)
  unfolding plan_action
  Covers-plan_action (map_to n) = Covers-plan_mapped n
  Covers-plan_action Action.delete = Covers-emit_delete Reason.delete none
  Covers-plan_action store_custom =
      Covers-plan_store_custom (lookup (logical t) c.extras_by_slug) refl

  unmoved : Covers c extras slug (t.term_id ∷ done) st
  unmoved = record { finals = h.finals; processed = λ n m. survivor_done-step n (h.processed n m) }

  Covers-plan_term : Covers c extras slug (t.term_id ∷ done) (plan_term c st t)
  unfolding plan_term
  Covers-plan_term = elim (Option-cases (lookup (logical t) c.dispositions)) [
    | inl e ↦ rw (e, plan_term) unmoved
    | inr (d, e) ↦ rw (e, plan_term) (Covers-plan_action d.action)
  ]

-- The ids of the terms that follow are new, one after the other.
abbrev pub Fresh : List ℕ → List Term → Type 0
Fresh done [] = Unit
Fresh done (t ∷ ts) = (contains done t.term_id ≡ false) × Fresh (t.term_id ∷ done) ts

Covers-plan_terms :
    (c : Context) (extras : List Extra) (slug : Text) (proper : IsProper c extras) (done : List ℕ)
    (st : PlanState) (terms : List Term)
    → Fresh done terms
    → Covers c extras slug done st
    → (done' : List ℕ) × Covers c extras slug done' (plan_terms c st terms)
unfolding plan_terms
Covers-plan_terms c extras slug proper done st [] fresh h = (done, h)
Covers-plan_terms c extras slug proper done st (t ∷ ts) fresh h =
    Covers-plan_terms c extras slug proper (t.term_id ∷ done) (plan_term c st t) ts fresh.1
      (Covers-plan_term c extras slug proper done st t fresh.0 h)

none_covered :
    {A : Type 0} (key : A → ℕ) (p : A → Bool) (xs : List A) → count_if (is_covered key [] p) xs ≡ 0
unfolding count_if contains
none_covered key p [] = refl
none_covered key p (x ∷ xs) = omega (arith, none_covered key p xs)

Covers-empty :
    (c : Context) (extras : List Extra) (slug : Text) → Covers c extras slug [] empty_state
unfolding count_if contains
Covers-empty c extras slug = record {
  finals = omega (
    arith,
    none_covered node_key (node_final slug) c.kept,
    none_covered extra_key (extra_final slug) extras,
  );
  processed = λ n m. cc;
}

-- After the loop, where the terms have distinct ids, the updates write each slug once for each
-- node and each extra with that slug that is marked as converged.
pub finals-plan_terms :
    (c : Context) (extras : List Extra) (slug : Text) (terms : List Term)
    → IsProper c extras
    → Fresh [] terms
    → count_if (has_final slug) (plan_terms c empty_state terms).updates
      ≡ count_if
          (is_covered node_key
            (plan_terms c empty_state terms).nodes_with_primary_here
            (node_final slug))
          c.kept
        + count_if
            (is_covered extra_key
              (plan_terms c empty_state terms).converged_extras
              (extra_final slug))
            extras
finals-plan_terms c extras slug terms proper fresh =
    (Covers-plan_terms c extras slug proper [] empty_state terms fresh
      (Covers-empty c extras slug)).1.finals
