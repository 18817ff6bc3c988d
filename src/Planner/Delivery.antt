-- ===== src/Planner/Delivery.antt =====
-- The target tree against the final slugs of the plan of build_blog_plan
-- (logo-admin/categories_planner.py).
use mathlib.Core.Path.{subst}
use arb_data_warehouse.Planner.Collisions.{final_create_slugs, final_update_slugs, finals}
use arb_data_warehouse.Prelude.{
  All, All-insert, All-set_default, Among, Bool, Bool-cases, Dict, Distinct, List, Option, Text, [],
  ap, arith, bit, count_if, count_if-append, count_if-sort_by, covered_or_open, inl, inr, insert,
  is_covered, is_empty, is_open, map, none, refl, some, sort_by, sorted_texts, text_le, true,
  values, ℕ, ◌++◌, ◌+◌, ◌==◌, ◌∙◌, ◌∷◌, ◌≡◌, nat_eq, text_eq, pair_eq,
}
use arb_data_warehouse.Planner.Types.{Desired, Disposition, Extra, Target, Term, TermSpec, Update}
use arb_data_warehouse.Planner.Terms.{
  PlanState, add_extra_slugs, empty_state, extras_by_slug_from, plan_terms,
}
use arb_data_warehouse.Planner.Terms.Coverage.{
  Fresh, IsProper, extra_final, extra_key, finals-plan_terms, has_final, node_final, node_key,
}
use arb_data_warehouse.Planner.Creates.{
  create_le, creating_from, extra_creates, node_creates, order_creates,
}
use arb_data_warehouse.Planner.Plan.{
  BlogInput, Plan, Snapshot, assemble, build_blog_plan, context_of, plan_snapshot, planned,
  unmapped_slugs,
}

abbrev spec_final : Text → TermSpec → Bool
spec_final slug s = s.slug == slug

-- The extras that the dict holds are extras of the store.
All-Among-weaken :
    {A : Type 0} (y : A) (xs zs : List A)
    → All (λ x. Among x zs) xs
    → All (λ x. Among x (y ∷ zs)) xs
All-Among-weaken y [] zs h = tt
All-Among-weaken y (x ∷ xs) zs h = (inr h.0, All-Among-weaken y xs zs h.1)

All-Among : {A : Type 0} (xs : List A) → All (λ x. Among x xs) xs
All-Among [] = tt
All-Among (x ∷ xs) = (inl refl, All-Among-weaken x xs xs (All-Among xs))

module _ (extras : List Extra) where
  All-add_extra_slugs :
      (d : Dict Text Extra) (x : Extra)
      → Among x extras
      → All (λ y. Among y extras) (values d)
      → All (λ y. Among y extras) (values (add_extra_slugs d x))
  unfolding add_extra_slugs
  All-add_extra_slugs d x m a = elim (Bool-cases (is_empty x.previous_slug)) [
    | inl e ↦ rw e (All-insert (λ y. Among y extras) x.slug x d a m)
    | inr e ↦ rw e (
        All-set_default (λ y. Among y extras) x.previous_slug x (insert x.slug x d)
          (All-insert (λ y. Among y extras) x.slug x d a m) m)
  ]

  All-extras_by_slug_from :
      (d : Dict Text Extra) (xs : List Extra)
      → All (λ x. Among x extras) xs
      → All (λ y. Among y extras) (values d)
      → All (λ y. Among y extras) (values (extras_by_slug_from d xs))
  unfolding extras_by_slug_from
  All-extras_by_slug_from d [] m a = a
  All-extras_by_slug_from d (x ∷ xs) m a =
      All-extras_by_slug_from (add_extra_slugs d x) xs m.1 (All-add_extra_slugs d x m.0 a)

-- A kept node without a primary here is created or absorbed.
node_creates-open :
    (dispositions : Dict Text Disposition) (terms : List Term) (here : List ℕ) (slug : Text)
    (kept : Dict ℕ Desired)
    → let (creates, absorbed) = node_creates dispositions terms here kept in
      count_if (spec_final slug) creates + count_if (λ s. s == slug) absorbed
      ≡ count_if (is_open node_key here (node_final slug)) kept
unfolding node_creates count_if
node_creates-open dispositions terms here slug [] = omega arith
node_creates-open dispositions terms here slug ((n, d) ∷ kept) =
    ground (arith, node_creates-open dispositions terms here slug kept)

extra_creates-open :
    (converged : List ℕ) (slug : Text) (extras : List Extra)
    → count_if (spec_final slug) (extra_creates converged extras)
      ≡ count_if (is_open extra_key converged (extra_final slug)) extras
unfolding extra_creates count_if
extra_creates-open converged slug [] = refl
extra_creates-open converged slug (x ∷ xs) = ground (arith, extra_creates-open converged slug xs)

pub count_if-map {ℓ κ} :
    {A : Type ℓ} {B : Type κ} (p : B → Bool) (f : A → B) (xs : List A)
    → count_if p (map f xs) ≡ count_if (λ a. p (f a)) xs
unfolding count_if
count_if-map p f [] = refl
count_if-map p f (x ∷ xs) = ap (λ n. bit (p (f x)) + n) (count_if-map p f xs)

-- What a blog's input has to be like: terms, nodes and extras are each listed once.
pub record IsProperInput (b : BlogInput) : Type 0 where
  pub fresh : Fresh [] b.terms
  pub nodes : Distinct (map node_key b.target.kept)
  pub overrides : Distinct (map extra_key b.target.extras)

pub All-extras_by_slug :
    (b : BlogInput) → All (λ x. Among x b.target.extras) (values (context_of b).extras_by_slug)
unfolding context_of
All-extras_by_slug b =
    All-extras_by_slug_from b.target.extras [] b.target.extras (All-Among b.target.extras) tt

IsProper-context_of : (b : BlogInput) → IsProperInput b → IsProper (context_of b) b.target.extras
unfolding context_of
IsProper-context_of b h = record {
  nodes = h.nodes;
  overrides = h.overrides;
  by_slug = All-extras_by_slug b;
}

-- How many kept nodes and store extras of the target have a slug.
abbrev pub wanted : Target → Text → ℕ
wanted target slug =
    count_if (node_final slug) target.kept + count_if (extra_final slug) target.extras

-- How often a text is in a list of texts.
abbrev pub times : Text → List Text → ℕ
times slug = count_if (λ s. s == slug)

-- A plan comes from a snapshot, and no live slug was unmapped.
pub planned-from :
    (b : BlogInput) (p : Plan)
    → build_blog_plan b ≡ planned p
    → (snap : Snapshot) × (b.snapshot ≡ some snap)
      × (is_empty (unmapped_slugs b.dispositions b.terms) ≡ true)
      × (assemble b snap (plan_terms (context_of b) empty_state b.terms) ≡ p)
unfolding build_blog_plan
planned-from b p h = go b.snapshot refl h
  where
    go :
        (o : Option Snapshot)
        → b.snapshot ≡ o
        → plan_snapshot b o ≡ planned p
        → (snap : Snapshot) × (b.snapshot ≡ some snap)
          × (is_empty (unmapped_slugs b.dispositions b.terms) ≡ true)
          × (assemble b snap (plan_terms (context_of b) empty_state b.terms) ≡ p)
    go none e q = absurd (unfold plan_snapshot in cc)
    go (some snap) e q =
        (snap, e, unfold plan_snapshot in ground arith, unfold plan_snapshot in ground arith)

times-finals :
    (slug : Text) (le : TermSpec → TermSpec → Bool) (us : List Update) (cs es : List TermSpec)
    (absorbed : List Text)
    → times slug (final_update_slugs us ++ final_create_slugs (sort_by le (cs ++ es)))
        + times slug (sort_by text_le absorbed)
      ≡ (count_if (has_final slug) us
          + (count_if (spec_final slug) cs + count_if (spec_final slug) es))
        + times slug absorbed
times-finals slug le us cs es absorbed = rw (
  count_if-append, count_if-map, count_if-map, count_if-sort_by, count_if-sort_by, count_if-append,
)

finals-blog :
    (b : BlogInput) (slug : Text)
    → IsProperInput b
    → let st = plan_terms (context_of b) empty_state b.terms in
      count_if (has_final slug) st.updates
      ≡ count_if (is_covered node_key st.nodes_with_primary_here (node_final slug)) b.target.kept
        + count_if (is_covered extra_key st.converged_extras (extra_final slug)) b.target.extras
unfolding context_of
finals-blog b slug h =
    finals-plan_terms (context_of b) b.target.extras slug b.terms (IsProper-context_of b h) h.fresh

wanted-parts :
    (b : BlogInput) (slug : Text) (st : PlanState)
    → count_if (has_final slug) st.updates
      ≡ count_if (is_covered node_key st.nodes_with_primary_here (node_final slug)) b.target.kept
        + count_if (is_covered extra_key st.converged_extras (extra_final slug)) b.target.extras
    → let made = node_creates b.dispositions b.terms st.nodes_with_primary_here b.target.kept in
      (count_if (has_final slug) st.updates
          + (count_if (spec_final slug) made.0
              + count_if (spec_final slug) (extra_creates st.converged_extras b.target.extras)))
        + times slug made.1
      ≡ wanted b.target slug
wanted-parts b slug st h = omega (
  arith,
  node_creates-open b.dispositions b.terms st.nodes_with_primary_here slug b.target.kept,
  extra_creates-open st.converged_extras slug b.target.extras,
  covered_or_open node_key st.nodes_with_primary_here (node_final slug) b.target.kept,
  covered_or_open extra_key st.converged_extras (extra_final slug) b.target.extras,
)

assemble-delivers :
    (b : BlogInput) (snap : Snapshot) (slug : Text) (st : PlanState)
    → count_if (has_final slug) st.updates
      ≡ count_if (is_covered node_key st.nodes_with_primary_here (node_final slug)) b.target.kept
        + count_if (is_covered extra_key st.converged_extras (extra_final slug)) b.target.extras
    → times slug (finals (assemble b snap st)) + times slug (assemble b snap st).absorbed_slugs
      ≡ wanted b.target slug
unfolding assemble finals order_creates sorted_texts
assemble-delivers b snap slug st h =
    let made = node_creates b.dispositions b.terms st.nodes_with_primary_here b.target.kept in
    let extra = extra_creates st.converged_extras b.target.extras in
    times-finals slug (create_le (creating_from [] (made.0 ++ extra))) st.updates made.0 extra
      made.1
    ∙ wanted-parts b slug st h

-- Where the input lists no term, node or extra twice, the plan delivers the target exactly: for
-- each slug, the updates and creates that end at it, together with its listings as absorbed by a
-- store custom, are as many as the kept nodes and the store's extras that want it.
pub delivers_target :
    (b : BlogInput) (p : Plan) (slug : Text)
    → IsProperInput b
    → build_blog_plan b ≡ planned p
    → times slug (finals p) + times slug p.absorbed_slugs ≡ wanted b.target slug
delivers_target b p slug h e =
    let (snap, _, _, q) = planned-from b p e in
    subst (λ r. times slug (finals r) + times slug r.absorbed_slugs ≡ wanted b.target slug) q
      (assemble-delivers b snap slug (plan_terms (context_of b) empty_state b.terms)
        (finals-blog b slug h))
