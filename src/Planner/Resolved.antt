-- ===== src/Planner/Resolved.antt =====
-- The public URLs of blog 1 after its plan (the redirects of build_blog_plan in
-- logo-admin/categories_planner.py).
use mathlib.Core.Path.{subst}
use arb_data_warehouse.Prelude.{
  All, All-lookup, Among, Bool-cases, Dict, List, Option, Option-cases, Text, [], ap, arith, false,
  if◌then◌else◌, inl, inr, is_empty, lookup, none, refl, some, sym, true, values, ◌++◌, ◌==◌, ◌∷◌,
  ◌≡◌, ◌≤◌, ◌⊎◌, nat_eq, text_eq, pair_eq,
}
use arb_data_warehouse.Planner.Types.{Delete, Reason, Target, Update}
use arb_data_warehouse.Planner.Terms.{PlanState, empty_state, plan_terms}
use arb_data_warehouse.Planner.Plan.{
  BlogInput, Plan, Snapshot, assemble, build_blog_plan, context_of, planned,
}
use arb_data_warehouse.Planner.Delivery.{planned-from, wanted}
use arb_data_warehouse.Planner.Redirects.{
  Redirect, category_path, delete_path, delete_redirects, deleted_redirect_path, merge_target,
  moves_url, redirects_of, update_redirects,
}
use arb_data_warehouse.Planner.Guided.{IsGuided, IsGuided-plan_terms, IsHonest, IsWanted}

-- The redirect from one category's public URL to another's.
abbrev pub path_redirect : Text → Text → Redirect
path_redirect old new = record { old_path = category_path old; new_path = category_path new }

-- An update whose term's public slug becomes another one.
abbrev pub MovesSlug : Update → Type 0
MovesSlug u = (u.public_slug == u.set.slug) ≡ false

-- Where a deleted term's URL leads: the store page, or the category that the target tree has.
abbrev pub LeadsOn : Target → Text → Type 0
LeadsOn target to =
    (to ≡ deleted_redirect_path) ⊎ ((s : Text) × (to ≡ category_path s) × (1 ≤ wanted target s))

-- Every URL that stops resolving is redirected, and no other.
pub record HasRedirects (target : Target) (p : Plan) : Type 0 where
  pub moved :
      (u : Update)
      → Among u p.updates
      → MovesSlug u
      → Among (path_redirect u.public_slug u.set.slug) p.redirects
  pub deleted :
      (d : Delete)
      → Among d p.deletes
      → (to : Text) × LeadsOn target to
        × Among (record { old_path = category_path d.public_slug; new_path = to }) p.redirects
  pub only :
      (r : Redirect)
      → Among r p.redirects
      → ((u : Update) × Among u p.updates
          × MovesSlug u
          × (r ≡ path_redirect u.public_slug u.set.slug))
        ⊎ ((d : Delete) × Among d p.deletes × (r.old_path ≡ category_path d.public_slug))

Among-left : {A : Type 0} (a : A) (xs ys : List A) → Among a xs → Among a (xs ++ ys)
Among-left a [] ys m = absurd m
Among-left a (x ∷ xs) ys (inl e) = inl e
Among-left a (x ∷ xs) ys (inr m) = inr (Among-left a xs ys m)

Among-right : {A : Type 0} (a : A) (xs ys : List A) → Among a ys → Among a (xs ++ ys)
Among-right a [] ys m = m
Among-right a (x ∷ xs) ys m = inr (Among-right a xs ys m)

Among-either : {A : Type 0} (a : A) (xs ys : List A) → Among a (xs ++ ys) → Among a xs ⊎ Among a ys
Among-either a [] ys m = inr m
Among-either a (x ∷ xs) ys (inl e) = inl (inl e)
Among-either a (x ∷ xs) ys (inr m) = elim (Among-either a xs ys m) [
  | inl h ↦ inl (inr h)
  | inr h ↦ inr h
]

Among-update_redirects :
    (u : Update) (us : List Update)
    → All IsHonest us
    → Among u us
    → MovesSlug u
    → Among (path_redirect u.public_slug u.set.slug) (update_redirects us)
unfolding update_redirects moves_url
Among-update_redirects u [] h m moves = absurd m
Among-update_redirects u (x ∷ us) h (inl e) moves =
    let moves' : MovesSlug x = subst MovesSlug e moves in
    let said : x.changed.slug ≡ true = h.0 moves' in
    rw (said, moves') (inl (ap (λ (v : Update). path_redirect v.public_slug v.set.slug) e))
Among-update_redirects u (x ∷ us) h (inr m) moves =
    let rest = Among-update_redirects u us h.1 m moves in
    elim (Bool-cases (moves_url x)) [ inl e ↦ rw e (inr rest) | inr e ↦ rw e rest ]

update_redirects-only :
    (r : Redirect) (us : List Update)
    → Among r (update_redirects us)
    → (u : Update) × Among u us × MovesSlug u × (r ≡ path_redirect u.public_slug u.set.slug)
unfolding update_redirects
update_redirects-only r [] m = absurd m
update_redirects-only r (x ∷ us) m = elim (Bool-cases (moves_url x)) [
  | inl e ↦ elim (rw e at m) [
    | inl q ↦ (x, inl refl, unfold moves_url in ground arith, q)
    | inr n ↦ let (u, a, v, q) = update_redirects-only r us n in (u, inr a, v, q)
  ]
  | inr e ↦ let (u, a, v, q) = update_redirects-only r us (rw e at m) in (u, inr a, v, q)
]

module _ (targets : Dict Text (Option Text)) where
  Among-delete_redirects :
      (d : Delete) (ds : List Delete)
      → Among d ds
      → Among
          (record { old_path = category_path d.public_slug; new_path = delete_path targets d })
          (delete_redirects targets ds)
  unfolding delete_redirects
  Among-delete_redirects d [] m = absurd m
  Among-delete_redirects d (x ∷ ds) (inl e) = inl (
      ap
        (λ (v : Delete). record {
          old_path = category_path v.public_slug;
          new_path = delete_path targets v;
        })
        e)
  Among-delete_redirects d (x ∷ ds) (inr m) = inr (Among-delete_redirects d ds m)

  delete_redirects-only :
      (r : Redirect) (ds : List Delete)
      → Among r (delete_redirects targets ds)
      → (d : Delete) × Among d ds × (r.old_path ≡ category_path d.public_slug)
  unfolding delete_redirects
  delete_redirects-only r [] m = absurd m
  delete_redirects-only r (x ∷ ds) (inl e) = (x, inl refl, ap (λ (v : Redirect). v.old_path) e)
  delete_redirects-only r (x ∷ ds) (inr m) =
      let (d, a, q) = delete_redirects-only r ds m in (d, inr a, q)

merge_target-wanted :
    (target : Target) (targets : Dict Text (Option Text)) (slug s : Text)
    → All (IsWanted target) (values targets)
    → merge_target targets slug ≡ some s
    → 1 ≤ wanted target s
unfolding merge_target
merge_target-wanted target targets slug s h e = elim (Option-cases (lookup slug targets)) [
  | inl n ↦ absurd (ground arith)
  | inr (none, n) ↦ absurd (ground arith)
  | inr (some k, n) ↦
      let w : 1 ≤ wanted target k = All-lookup (IsWanted target) slug (some k) targets h n in
      elim (Bool-cases (is_empty k)) [
        | inl b ↦ absurd (ground arith)
        | inr b ↦ let same : k ≡ s = ground arith in subst (λ v. 1 ≤ wanted target v) same w
      ]
]

delete_path-LeadsOn :
    (target : Target) (targets : Dict Text (Option Text)) (d : Delete)
    → All (IsWanted target) (values targets)
    → LeadsOn target (delete_path targets d)
delete_path-LeadsOn target targets d h = go d.reason refl
  where
    go : (why : Reason) → d.reason ≡ why → LeadsOn target (delete_path targets d)
    go Reason.merge e = elim (Option-cases (merge_target targets d.public_slug)) [
      | inl n ↦ inl (unfold delete_path in ground arith)
      | inr (s, n) ↦ inr (
        s,
        unfold delete_path in ground arith,
        merge_target-wanted target targets d.public_slug s h n,
      )
    ]
    go Reason.delete e = inl (unfold delete_path in ground arith)
    go Reason.excluded e = inl (unfold delete_path in ground arith)

assemble-HasRedirects :
    (b : BlogInput) (snap : Snapshot) (st : PlanState)
    → b.blog_id ≡ 1
    → IsGuided b st
    → HasRedirects b.target (assemble b snap st)
unfolding assemble redirects_of
assemble-HasRedirects b snap st one h =
    let ups : List Redirect = update_redirects st.updates in
    let dels : List Redirect = delete_redirects st.merge_target_slug st.deletes in
    let all : (if b.blog_id == 1 then ups ++ dels else []) ≡ ups ++ dels = rw one refl in
    record {
      moved = λ u m v.
          subst (Among (path_redirect u.public_slug u.set.slug)) (sym all)
            (Among-left _ ups dels (Among-update_redirects u st.updates h.0 m v));
      deleted = λ d m. (
        delete_path st.merge_target_slug d,
        delete_path-LeadsOn b.target st.merge_target_slug d h.1,
        subst (Among _) (sym all)
            (Among-right _ ups dels (Among-delete_redirects st.merge_target_slug d st.deletes m)),
      );
      only = λ r m. elim (Among-either r ups dels (subst (Among r) all m)) [
        | inl n ↦ inl (update_redirects-only r st.updates n)
        | inr n ↦ inr (delete_redirects-only st.merge_target_slug r st.deletes n)
      ];
    }

-- In a plan of blog 1, each update whose slug differs from the term's public slug has a redirect
-- from the public URL to the new one; each delete has a redirect from the term's public URL, which
-- leads to the store page or to a category that the target tree wants; and every redirect is from
-- the URL of such an update, to its new one, or from the URL of a delete.
pub dead_urls_redirected :
    (b : BlogInput) (p : Plan)
    → b.blog_id ≡ 1
    → build_blog_plan b ≡ planned p
    → HasRedirects b.target p
dead_urls_redirected b p one e =
    let (snap, _, _, q) = planned-from b p e in
    subst (HasRedirects b.target) q (
      assemble-HasRedirects b snap (plan_terms (context_of b) empty_state b.terms) one
        (IsGuided-plan_terms b empty_state b.terms (tt, tt)))
