-- ===== src/Planner/Creates/Order.antt =====
-- The order in which the creates land (build_blog_plan in logo-admin/categories_planner.py).
use arb_data_warehouse.Prelude.{
  All, All-Among-elim, Among, Among-sort_by, Ascending, Ascending-sort_by, Bool, Bool-cases, Dict,
  Distinct, List, Option, Text, [], any_of, ap, arith, beq_refl, contains, false, inl, inr, insert,
  is_empty, lookup, lookup-insert, map, none, not, refl, some, sort_by, suc, sym, text_beq_iff,
  text_eq, text_le_total, text_le_trans, true, zero, ℕ, ◌&&◌, ◌<◌, ◌==◌, ◌∙◌, ◌∷◌, ◌≡◌, ◌≤◌, ◌⊎◌,
  nat_eq, pair_eq,
}
use arb_data_warehouse.Planner.Types.{TermSpec}
use arb_data_warehouse.Planner.Creates.{
  create_le, creating_from, depth_from, depth_of, order_creates,
}

create_le_total :
    (creating : Dict Text TermSpec) (a b : TermSpec)
    → (create_le creating a b ≡ true) ⊎ (create_le creating b a ≡ true)
unfolding create_le
create_le_total creating a b = elim (text_le_total a.slug b.slug) [
  | inl h ↦ ground arith
  | inr h ↦ ground arith
]

create_le_trans :
    (creating : Dict Text TermSpec) (a b c : TermSpec)
    → create_le creating a b ≡ true
    → create_le creating b c ≡ true
    → create_le creating a c ≡ true
unfolding create_le
create_le_trans creating a b c h k = ground (arith, text_le_trans a.slug b.slug c.slug)

-- Below the cut one more round changes nothing.
depth_from-suc :
    (creating : Dict Text TermSpec) (rounds : ℕ) (o : Option TermSpec)
    → depth_from creating rounds o < rounds
    → depth_from creating (suc rounds) o ≡ depth_from creating rounds o
unfolding depth_from
depth_from-suc creating zero o h = absurd (omega arith)
depth_from-suc creating (suc rounds) none h = refl
depth_from-suc creating (suc rounds) (some s) h = elim (Bool-cases (is_empty s.parent_slug)) [
  | inl e ↦ rw e
  | inr e ↦
      rw e (ap suc (depth_from-suc creating rounds (lookup s.parent_slug creating) (ground arith)))
]

-- A create that is looked up by its slug is one deeper than its parent, where the loop has not
-- broken off.
depth_of-parent :
    (creating : Dict Text TermSpec) (c p : TermSpec)
    → lookup c.slug creating ≡ some c
    → is_empty c.parent_slug ≡ false
    → p.slug ≡ c.parent_slug
    → depth_of creating c.slug ≤ 10
    → depth_of creating c.slug ≡ suc (depth_of creating p.slug)
unfolding depth_of
depth_of-parent creating c p l e q h =
    let open_up : depth_from creating 11 (lookup c.slug creating)
        ≡ suc (depth_from creating 10 (lookup c.parent_slug creating)) =
      rw l (unfold depth_from in rw e) in
    rw q (
      open_up
      ∙ ap suc (
          sym
            (depth_from-suc creating 10 (lookup c.parent_slug creating) (omega (arith, open_up)))))

abbrev pub create_slugs : List TermSpec → List Text
create_slugs = map (λ (c : TermSpec). c.slug)

lookup-creating_from_other :
    (d : Dict Text TermSpec) (slug : Text) (creates : List TermSpec)
    → contains (create_slugs creates) slug ≡ false
    → lookup slug (creating_from d creates) ≡ lookup slug d
unfolding creating_from contains
lookup-creating_from_other d slug [] h = refl
lookup-creating_from_other d slug (s ∷ ss) h =
    lookup-creating_from_other (insert s.slug s d) slug ss (ground arith)
    ∙ ground (
      arith,
      lookup-insert s.slug slug s d,
      text_eq.same_iff slug s.slug,
      text_eq.same_iff s.slug slug,
    )

lookup-creating_from :
    (d : Dict Text TermSpec) (c : TermSpec) (creates : List TermSpec)
    → Distinct (create_slugs creates)
    → Among c creates
    → lookup c.slug (creating_from d creates) ≡ some c
unfolding creating_from
lookup-creating_from d c [] h a = absurd a
lookup-creating_from d c (s ∷ ss) h (inl q) = rw q (
    lookup-creating_from_other (insert s.slug s d) s.slug ss h.0
    ∙ ground (arith, lookup-insert s.slug s.slug s d, beq_refl s.slug))
lookup-creating_from d c (s ∷ ss) h (inr a) = lookup-creating_from (insert s.slug s d) c ss h.1 a

-- The first create nests under the second one.
abbrev pub nests_under : TermSpec → TermSpec → Bool
nests_under c p = not (is_empty c.parent_slug) && p.slug == c.parent_slug

-- No create stands before the create of its parent.
abbrev pub ParentsFirst : List TermSpec → Type 0
ParentsFirst [] = Unit
ParentsFirst (c ∷ ys) = (any_of (nests_under c) ys ≡ false) × ParentsFirst ys

-- No create is nested more than ten deep below another one.
abbrev pub Shallow : List TermSpec → Type 0
Shallow creates = All (λ (c : TermSpec). depth_of (creating_from [] creates) c.slug ≤ 10) creates

none_nests :
    (c : TermSpec) (ys : List TermSpec)
    → ((p : TermSpec) → Among p ys → nests_under c p ≡ false)
    → any_of (nests_under c) ys ≡ false
unfolding any_of
none_nests c [] h = refl
none_nests c (y ∷ ys) h = ground (arith, h y (inl refl), none_nests c ys (λ p a. h p (inr a)))

module _ (creates : List TermSpec) (distinct : Distinct (create_slugs creates))
    (shallow : Shallow creates) where
  -- What is not below a create in the order is not its parent.
  not-parent :
      (c p : TermSpec)
      → Among c creates
      → create_le (creating_from [] creates) c p ≡ true
      → nests_under c p ≡ false
  unfolding create_le
  not-parent c p a le = elim (Bool-cases (nests_under c p)) [
    | inr apart ↦ apart
    | inl under ↦
        let below =
          All-Among-elim (λ (v : TermSpec). depth_of (creating_from [] creates) v.slug ≤ 10) c
            creates shallow a in
        let deeper =
          depth_of-parent (creating_from [] creates) c p
            (lookup-creating_from [] c creates distinct a) (ground arith)
            ((text_beq_iff p.slug c.parent_slug).0 (ground arith)) below in
        absurd (ground (arith, deeper))
  ]

  ParentsFirst-Ascending :
      (xs : List TermSpec)
      → ((c : TermSpec) → Among c xs → Among c creates)
      → Ascending (create_le (creating_from [] creates)) xs
      → ParentsFirst xs
  ParentsFirst-Ascending [] sub h = tt
  ParentsFirst-Ascending (c ∷ ys) sub h = (
    none_nests c ys (λ p a. not-parent c p (sub c (inl refl)) (h.0 p a)),
    ParentsFirst-Ascending ys (λ d b. sub d (inr b)) h.1,
  )

  -- Where no slug is created twice and no create is nested more than ten deep below another
  -- one, the creates are ordered so that none stands before the create of its parent.
  pub order_creates-ParentsFirst : ParentsFirst (order_creates creates)
  unfolding order_creates
  order_creates-ParentsFirst =
      let le : TermSpec → TermSpec → Bool = create_le (creating_from [] creates) in
      ParentsFirst-Ascending (sort_by le creates) (λ c a. Among-sort_by le c creates a)
        (Ascending-sort_by le (create_le_total (creating_from [] creates))
          (create_le_trans (creating_from [] creates)) creates)
