-- ===== src/Planner/Converged.antt =====
-- A blog that already has its target tree (build_blog_plan in logo-admin/categories_planner.py).
use arb_data_warehouse.Planner.Survivors.Laws.{maps_to}
use arb_data_warehouse.Prelude.{
  All, All-append, Bool-cases, Dict, List, Option-cases, Text, [], any_of, ap, arith, beq_refl,
  contains, contains-set_add, false, has_key, has_key-insert, inl, inr, insert, lookup, refl,
  set_add, set_eq_refl, set_minus-nil, set_union, some, true, ℕ, ◌==◌, ◌∷◌, ◌≡◌, nat_eq, text_eq,
  pair_eq,
}
use arb_data_warehouse.Planner.Types.{
  Desired, Disposition, Term, Update, logical, map_to, unchanged,
}
use arb_data_warehouse.Planner.Names.{normalize_wp_name}
use arb_data_warehouse.Planner.Terms.{
  Context, PlanState, changes_of, emit_update, is_survivor, live_parent_slug_of, plan_action,
  plan_mapped, plan_survivor, plan_term, plan_terms, spec_of_desired, update_of,
}
use arb_data_warehouse.Planner.Creates.{node_creates}
use arb_data_warehouse.Planner.Memberships.{
  Product, SkuChange, after_term_ops, carried_slug, carried_slugs, final_slugs, needs_row,
  rows_from, sku_change, sku_extra_add, sku_remove, touches_doomed,
}
use arb_data_warehouse.Planner.Plan.{unmapped_slugs}
use arb_data_warehouse.Planner.Redirects.{moves_url, update_redirects}

-- A live term is the survivor of a kept node, and has all that the node wants.
pub record Settled (c : Context) (t : Term) : Type 0 where
  pub node_id : ℕ
  pub desired : Desired
  pub disposition : Disposition
  pub found : lookup (logical t) c.dispositions ≡ some disposition
  pub mapped : disposition.action ≡ map_to node_id
  pub survives : is_survivor c node_id t ≡ true
  pub kept : lookup node_id c.kept ≡ some desired
  pub not_parked : t.parked_from ≡ []
  pub slug : t.slug ≡ desired.slug
  pub name : normalize_wp_name c.unescape t.name ≡ desired.name
  pub parent : live_parent_slug_of c t ≡ desired.parent_slug
  pub description : t.description ≡ desired.description
  pub sort_order : t.sort_order ≡ desired.sort_order

settled_state : Context → PlanState → (t : Term) → ℕ → Desired → PlanState
settled_state c st t n d =
    emit_update c
      (record st {
        nodes_with_primary_here = set_add st.nodes_with_primary_here n;
        kept_current = insert (logical t) d.slug st.kept_current;
      })
      t (spec_of_desired d)

module _ (c : Context) (t : Term) (h : Settled c t) where
  plan_term-settled : (st : PlanState) → plan_term c st t ≡ settled_state c st t h.node_id h.desired
  unfolding plan_term plan_action plan_mapped plan_survivor settled_state
  plan_term-settled st = ground (arith, h.found, h.mapped, h.survives, h.kept)

  changes_of-settled : changes_of c t (spec_of_desired h.desired) ≡ unchanged
  unfolding changes_of
  changes_of-settled = ground (
    arith,
    h.not_parked,
    h.slug,
    h.name,
    h.parent,
    h.description,
    h.sort_order,
    beq_refl h.desired.slug,
    beq_refl h.desired.name,
    beq_refl h.desired.parent_slug,
    beq_refl h.desired.description,
  )

-- Nothing has been changed or deleted so far.
pub record Quiet (st : PlanState) : Type 0 where
  pub updates : All (λ (u : Update). u.changed ≡ unchanged) st.updates
  pub deletes : st.deletes ≡ []
  pub merges : st.merge_target_slug ≡ []

Quiet-step :
    (c : Context) (st : PlanState) (t : Term) → Settled c t → Quiet st → Quiet (plan_term c st t)
Quiet-step c st t h q = rw (plan_term-settled c t h st) (
    unfold settled_state emit_update update_of in
    record {
      updates =
          All-append (λ (u : Update). u.changed ≡ unchanged) st.updates
            (update_of c t (spec_of_desired h.desired) ∷ []) q.updates
            (unfold update_of in (changes_of-settled c t h, tt));
      deletes = q.deletes;
      merges = q.merges;
    })

-- What the loop has recorded of a slug and of a node stays recorded.
module _ (slug : Text) (n : ℕ) where
  abbrev KnowsSlug : PlanState → Type 0
  KnowsSlug st = has_key slug st.kept_current ≡ true

  abbrev KnowsNode : PlanState → Type 0
  KnowsNode st = contains st.nodes_with_primary_here n ≡ true

  KnowsSlug-step :
      (c : Context) (st : PlanState) (t : Term)
      → Settled c t
      → KnowsSlug st
      → KnowsSlug (plan_term c st t)
  KnowsSlug-step c st t h k = rw (plan_term-settled c t h st) (
      unfold settled_state emit_update in
      ground (arith, has_key-insert (logical t) slug h.desired.slug st.kept_current))

  KnowsNode-step :
      (c : Context) (st : PlanState) (t : Term)
      → Settled c t
      → KnowsNode st
      → KnowsNode (plan_term c st t)
  KnowsNode-step c st t h k = rw (plan_term-settled c t h st) (
      unfold settled_state emit_update in
      ground (arith, contains-set_add st.nodes_with_primary_here h.node_id n))

  KnowsSlug-plan_terms :
      (c : Context) (st : PlanState) (ts : List Term)
      → All (Settled c) ts
      → KnowsSlug st
      → KnowsSlug (plan_terms c st ts)
  unfolding plan_terms
  KnowsSlug-plan_terms c st [] h k = k
  KnowsSlug-plan_terms c st (t ∷ ts) h k =
      KnowsSlug-plan_terms c (plan_term c st t) ts h.1 (KnowsSlug-step c st t h.0 k)

  KnowsNode-plan_terms :
      (c : Context) (st : PlanState) (ts : List Term)
      → All (Settled c) ts
      → KnowsNode st
      → KnowsNode (plan_terms c st ts)
  unfolding plan_terms
  KnowsNode-plan_terms c st [] h k = k
  KnowsNode-plan_terms c st (t ∷ ts) h k =
      KnowsNode-plan_terms c (plan_term c st t) ts h.1 (KnowsNode-step c st t h.0 k)

pub Quiet-plan_terms :
    (c : Context) (st : PlanState) (ts : List Term)
    → All (Settled c) ts
    → Quiet st
    → Quiet (plan_terms c st ts)
unfolding plan_terms
Quiet-plan_terms c st [] h q = q
Quiet-plan_terms c st (t ∷ ts) h q =
    Quiet-plan_terms c (plan_term c st t) ts h.1 (Quiet-step c st t h.0 q)

-- The slug of every live term is kept.
pub slug_known :
    (c : Context) (st : PlanState) (ts : List Term) (slug : Text)
    → All (Settled c) ts
    → any_of (λ t. logical t == slug) ts ≡ true
    → has_key slug (plan_terms c st ts).kept_current ≡ true
unfolding plan_terms any_of
slug_known c st [] slug h a = absurd (cc)
slug_known c st (t ∷ ts) slug h a = elim (Bool-cases (logical t == slug)) [
  | inl e ↦ KnowsSlug-plan_terms slug 0 c (plan_term c st t) ts h.1 (
      rw (plan_term-settled c t h.0 st) (
        unfold settled_state emit_update in
        ground (arith, has_key-insert (logical t) slug h.0.desired.slug st.kept_current)))
  | inr e ↦ slug_known c (plan_term c st t) ts slug h.1 (ground arith)
]

-- A node that a live term maps to has its term here.
pub node_known :
    (c : Context) (st : PlanState) (ts : List Term) (n : ℕ)
    → All (Settled c) ts
    → any_of (maps_to c.dispositions n) ts ≡ true
    → contains (plan_terms c st ts).nodes_with_primary_here n ≡ true
unfolding plan_terms any_of
node_known c st [] n h a = absurd (cc)
node_known c st (t ∷ ts) n h a = elim (Bool-cases (maps_to c.dispositions n t)) [
  | inl e ↦ KnowsNode-plan_terms [] n c (plan_term c st t) ts h.1 (
      rw (plan_term-settled c t h.0 st) (
        unfold settled_state emit_update in
        ground (
          arith,
          contains-set_add st.nodes_with_primary_here h.0.node_id n,
          h.0.found,
          h.0.mapped,
        )))
  | inr e ↦ node_known c (plan_term c st t) ts n h.1 (ground arith)
]

pub node_creates-none :
    (dispositions : Dict Text Disposition) (terms : List Term) (here : List ℕ)
    (kept : Dict ℕ Desired)
    → All (λ (e : ℕ × Desired). contains here e.0 ≡ true) kept
    → node_creates dispositions terms here kept ≡ ([], [])
unfolding node_creates
node_creates-none dispositions terms here [] h = refl
node_creates-none dispositions terms here ((n, d) ∷ kept) h =
    rw h.0 (node_creates-none dispositions terms here kept h.1)

abbrev no_change : SkuChange
no_change = record { extra_add = []; removed = [] }

module _ (st : PlanState) (quiet : Quiet st) where
  carried-after :
      (slugs : List Text)
      → All (λ s. has_key s st.kept_current ≡ true) slugs
      → carried_slugs st slugs ≡ after_term_ops st slugs
  unfolding carried_slugs after_term_ops carried_slug has_key
  carried-after [] h = refl
  carried-after (s ∷ slugs) h = elim (Option-cases (lookup s st.kept_current)) [
    | inl e ↦ absurd (ground arith)
    | inr (k, e) ↦ rw (e, carried_slug) (ap (λ l. set_add l k) (carried-after slugs h.1))
  ]

  touches_doomed-quiet : (slugs : List Text) → touches_doomed st slugs ≡ false
  unfolding touches_doomed any_of has_key lookup
  touches_doomed-quiet [] = refl
  touches_doomed-quiet (s ∷ slugs) =
      ground (arith, ap (has_key s) quiet.merges, touches_doomed-quiet slugs)

  needs_row-quiet :
      (p : Product)
      → All (λ s. has_key s st.kept_current ≡ true) p.slugs
      → needs_row st no_change p ≡ false
  unfolding needs_row final_slugs set_union
  needs_row-quiet p h =
      rw (carried-after p.slugs h, set_minus-nil, set_eq_refl, touches_doomed-quiet p.slugs)

  pub rows-quiet :
      (changes : Text → SkuChange) (products : List Product)
      → ((sku : Text) → changes sku ≡ no_change)
      → All (λ (p : Product). All (λ s. has_key s st.kept_current ≡ true) p.slugs) products
      → rows_from st changes products ≡ []
  unfolding rows_from
  rows-quiet changes [] same h = refl
  rows-quiet changes (p ∷ products) same h =
      rw (same p.sku, needs_row-quiet p h.0) (rows-quiet changes products same h.1)

pub update_redirects-none :
    (us : List Update) → All (λ (u : Update). u.changed ≡ unchanged) us → update_redirects us ≡ []
unfolding update_redirects moves_url
update_redirects-none [] h = refl
update_redirects-none (u ∷ us) h = rw h.0 (update_redirects-none us h.1)

pub unmapped-none :
    (c : Context) (ts : List Term) → All (Settled c) ts → unmapped_slugs c.dispositions ts ≡ []
unfolding unmapped_slugs has_key
unmapped-none c [] h = refl
unmapped-none c (t ∷ ts) h = ground (arith, h.0.found, unmapped-none c ts h.1)

pub sku_change-none : (kept : Dict ℕ Desired) (sku : Text) → sku_change kept [] sku ≡ no_change
unfolding sku_change sku_extra_add sku_remove
sku_change-none kept sku = refl
