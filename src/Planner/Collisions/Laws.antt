-- ===== src/Planner/Collisions/Laws.antt =====
-- When two categories of a blog would end under one slug (logo-admin/categories_planner.py).
use arb_data_warehouse.Prelude.{
  Bool, List, Text, [], any_of, arith, contains, contains-set_add, contains-set_minus,
  contains-set_union, contains-sort_by, count_if, count_if-append, leb, map, not, refl,
  sorted_texts, text_eq, ℕ, ◌&&◌, ◌+◌, ◌==◌, ◌||◌, ◌∷◌, ◌≡◌, nat_eq, pair_eq,
}
use arb_data_warehouse.Planner.Plan.{Plan}
use arb_data_warehouse.Planner.Delivery.{count_if-map, times}
use arb_data_warehouse.Planner.Types.{TermSpec, Update}
use arb_data_warehouse.Planner.Collisions.{
  collide_from, finals, plan_slug_collisions, untouched_slugs,
}

-- How many updates and creates of the plan end at a slug.
abbrev pub ends_at : Plan → Text → ℕ
ends_at p s =
    count_if (λ (u : Update). u.set.slug == s) p.updates
    + count_if (λ (c : TermSpec). c.slug == s) p.creates

-- A live term has the slug and no update is about that slug.
abbrev pub stays : Plan → Text → Bool
stays p s = contains p.kept_slugs s && not (any_of (λ (u : Update). u.public_slug == s) p.updates)

-- The plan ends at a slug twice, or once while a live term stays there, or a store custom absorbs
-- it.
abbrev pub collides : Plan → Text → Bool
collides p s =
    leb 2 (ends_at p s) || (leb 1 (ends_at p s) && stays p s) || contains p.absorbed_slugs s

times-finals_of : (p : Plan) (s : Text) → times s (finals p) ≡ ends_at p s
unfolding finals
times-finals_of p s = rw (count_if-append, count_if-map, count_if-map)

contains-map {ℓ} :
    {A : Type ℓ} (f : A → Text) (s : Text) (xs : List A)
    → contains (map f xs) s ≡ any_of (λ a. f a == s) xs
unfolding contains any_of
contains-map f s [] = refl
contains-map f s (x ∷ xs) =
    ground (arith, contains-map f s xs, text_eq.same_iff s (f x), text_eq.same_iff (f x) s)

contains-untouched_slugs : (p : Plan) (s : Text) → contains (untouched_slugs p) s ≡ stays p s
unfolding untouched_slugs
contains-untouched_slugs p s = rw (contains-set_minus, contains-map)

contains-times : (s : Text) (slugs : List Text) → contains slugs s ≡ leb 1 (times s slugs)
unfolding contains count_if
contains-times s [] = refl
contains-times s (x ∷ xs) =
    ground (arith, contains-times s xs, text_eq.same_iff s x, text_eq.same_iff x s)

contains-collide_from :
    (kept seen slugs : List Text) (s : Text)
    → contains (collide_from kept seen slugs) s
      ≡ (contains slugs s && (contains seen s || contains kept s || leb 2 (times s slugs)))
unfolding contains collide_from count_if
contains-collide_from kept seen [] s = refl
contains-collide_from kept seen (x ∷ xs) s = ground (
  arith,
  contains-collide_from kept (x ∷ seen) xs s,
  contains-set_add (collide_from kept (x ∷ seen) xs) x s,
  contains-times s xs,
  text_eq.same_iff s x,
  text_eq.same_iff x s,
)

pub plan_slug_collisions_exact :
    (p : Plan) (s : Text) → contains (plan_slug_collisions p) s ≡ collides p s
unfolding plan_slug_collisions sorted_texts contains
plan_slug_collisions_exact p s =
    rw
      (
        contains-sort_by, contains-set_union, contains-collide_from, contains-untouched_slugs,
        contains-times,
      )
      (ground (arith, times-finals_of p s))
