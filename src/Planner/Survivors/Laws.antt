-- ===== src/Planner/Survivors/Laws.antt =====
-- The survivor of a node (_elect_survivors in logo-admin/categories_planner.py) against the live
-- terms that map to it.
use mathlib.Core.List.{append-nil, append_assoc}
use arb_data_warehouse.Prelude.{
  Among, Among-keep_if, Bool, Bool-cases, Dict, List, List-cases, Option, Option-cases, Text, [],
  ap, arith, false, if◌then◌else◌, inl, inr, keep_if, keep_if-Among, lookup, lookup-insert, ltb,
  none, refl, some, sym, true, ℕ, ◌++◌, ◌<◌, ◌==◌, ◌∙◌, ◌∷◌, ◌≡◌, ◌≤◌, ◌⊎◌, nat_eq, text_eq,
  pair_eq,
}
use arb_data_warehouse.Planner.Types.{Desired, Disposition, Term}
use arb_data_warehouse.Planner.Survivors.{
  add_candidate, candidate_step, candidates_from, is_explicit, is_identity, least_id, node_of, pool,
  survivor, winner,
}

abbrev pub maps_to : Dict Text Disposition → ℕ → Term → Bool
maps_to dispositions n t = elim (node_of dispositions t) [ none ↦ false | some m ↦ n == m ]

abbrev pub live_at : Dict ℕ (List Term) → ℕ → List Term
live_at c n = elim (lookup n c) [ none ↦ [] | some ts ↦ ts ]

live_at-add_candidate :
    (m : ℕ) (t : Term) (c : Dict ℕ (List Term)) (n : ℕ)
    → live_at (add_candidate m t c) n ≡ live_at c n ++ (if n == m then t ∷ [] else [])
unfolding add_candidate
live_at-add_candidate m t c n = elim (Option-cases (lookup m c)) [
  | inl e ↦ ground (arith, lookup-insert m n (t ∷ []) c, append-nil (live_at c n))
  | inr (ts, e) ↦ ground (arith, lookup-insert m n (ts ++ t ∷ []) c, append-nil (live_at c n))
]

live_at-candidate_step :
    (dispositions : Dict Text Disposition) (c : Dict ℕ (List Term)) (t : Term) (n : ℕ)
    → live_at (candidate_step dispositions c t) n
      ≡ live_at c n ++ (if maps_to dispositions n t then t ∷ [] else [])
unfolding candidate_step
live_at-candidate_step dispositions c t n = elim (Option-cases (node_of dispositions t)) [
  | inl e ↦ ground (arith, append-nil (live_at c n))
  | inr (m, e) ↦ ground (arith, live_at-add_candidate m t c n)
]

regroup :
    (dispositions : Dict Text Disposition) (t : Term) (xs ys : List Term) (n : ℕ)
    → (xs ++ (if maps_to dispositions n t then t ∷ [] else [])) ++ ys
      ≡ xs ++ (if maps_to dispositions n t then t ∷ ys else ys)
regroup dispositions t xs ys n = elim (Bool-cases (maps_to dispositions n t)) [
  | inl e ↦ rw (e, append_assoc)
  | inr e ↦ rw (e, append-nil)
]

live_at-candidates_from :
    (dispositions : Dict Text Disposition) (c : Dict ℕ (List Term)) (ts : List Term) (n : ℕ)
    → live_at (candidates_from dispositions c ts) n
      ≡ live_at c n ++ keep_if (maps_to dispositions n) ts
unfolding candidates_from keep_if
live_at-candidates_from dispositions c [] n = sym (append-nil _)
live_at-candidates_from dispositions c (t ∷ ts) n =
    live_at-candidates_from dispositions (candidate_step dispositions c t) ts n
    ∙ ap (λ l. l ++ keep_if (maps_to dispositions n) ts) (live_at-candidate_step dispositions c t n)
    ∙ regroup dispositions t (live_at c n) (keep_if (maps_to dispositions n) ts) n

winner-live_at :
    (dispositions : Dict Text Disposition) (desired : Option Desired) (o : Option (List Term))
    → ◌≡◌ {A = Option ℕ}
        (elim o [ none ↦ none | some live ↦ winner (pool dispositions desired live) ])
        (winner (pool dispositions desired (elim o [ none ↦ [] | some live ↦ live ])))
unfolding pool winner keep_if
winner-live_at dispositions desired none = refl
winner-live_at dispositions desired (some live) = refl

-- The live terms of the blog that map to a node are the candidates.
pub survivor-live :
    (dispositions : Dict Text Disposition) (kept : Dict ℕ Desired) (terms : List Term) (n : ℕ)
    → survivor dispositions kept terms n
      ≡ winner (pool dispositions (lookup n kept) (keep_if (maps_to dispositions n) terms))
unfolding survivor lookup
survivor-live dispositions kept terms n =
    winner-live_at dispositions (lookup n kept) (lookup n (candidates_from dispositions [] terms))
    ∙ ap (λ l. winner (pool dispositions (lookup n kept) l))
        (live_at-candidates_from dispositions [] terms n)

least_id-bounds :
    (m : ℕ) (ts : List Term)
    → (least_id m ts ≤ m) × ((t : Term) → Among t ts → least_id m ts ≤ t.term_id)
unfolding least_id
least_id-bounds m [] = (omega arith, λ t h. absurd h)
least_id-bounds m (x ∷ ts) = elim (Bool-cases (ltb x.term_id m)) [
  | inl e ↦
      let ih = least_id-bounds x.term_id ts in
      rw e (ground arith, λ t h. elim h [ inl q ↦ ground arith | inr q ↦ ih.1 t q ])
  | inr e ↦
      let ih = least_id-bounds m ts in
      rw e (ih.0, λ t h. elim h [ inl q ↦ ground arith | inr q ↦ ih.1 t q ])
]

least_id-found :
    (m : ℕ) (ts : List Term)
    → (least_id m ts ≡ m) ⊎ ((t : Term) × Among t ts × (t.term_id ≡ least_id m ts))
unfolding least_id
least_id-found m [] = inl refl
least_id-found m (x ∷ ts) = elim (Bool-cases (ltb x.term_id m)) [
  | inl e ↦ rw e (elim (least_id-found x.term_id ts) [
    | inl q ↦ inr (x, inl refl, sym q)
    | inr (t, a, q) ↦ inr (t, inr a, q)
  ])
  | inr e ↦ rw e (elim (least_id-found m ts) [ inl q ↦ inl q | inr (t, a, q) ↦ inr (t, inr a, q) ])
]

-- The winner is an element with the least id.
pub winner-least :
    (ts : List Term) (k : ℕ)
    → winner ts ≡ some k
    → (t : Term) × Among t ts × (t.term_id ≡ k) × ((u : Term) → Among u ts → k ≤ u.term_id)
unfolding winner
winner-least [] k h = absurd (cc)
winner-least (x ∷ ts) k h =
    let low = least_id-bounds x.term_id ts in
    let is_k : least_id x.term_id ts ≡ k = ground arith in
    let least : (u : Term) → Among u (x ∷ ts) → k ≤ u.term_id =
      λ u a. elim a [ inl q ↦ ground arith | inr q ↦ omega (arith, low.1 u q) ] in
    elim (least_id-found x.term_id ts) [
      | inl q ↦ (x, inl refl, ground arith, least)
      | inr (t, a, q) ↦ (t, inr a, ground arith, least)
    ]

-- How well a live term fits as the survivor: an explicit primary first, then the term that already
-- has the final slug, then any other.
abbrev pub rank : Dict Text Disposition → Option Desired → Term → ℕ
rank dispositions desired t =
    if is_explicit dispositions t then 0 else if is_identity desired t then 1 else 2

-- One term fits better than another, or as well with an id that is not above.
abbrev pub IsPreferred : Dict Text Disposition → Option Desired → ℕ → Term → Term → Type 0
IsPreferred dispositions desired k t u =
    (rank dispositions desired t < rank dispositions desired u)
    ⊎ ((rank dispositions desired t ≡ rank dispositions desired u) × (k ≤ u.term_id))

module _ (dispositions : Dict Text Disposition) (desired : Option Desired) (live : List Term) where
  abbrev explicit : List Term
  explicit = keep_if (is_explicit dispositions) live

  abbrev identity : List Term
  identity = keep_if (is_identity desired) live

  -- The pool is made of the terms of live that rank best.
  abbrev Ranks : List Term → Type 0
  Ranks chosen =
      (t : Term)
      → Among t chosen
      → Among t live
        × ((u : Term)
            → Among u live
            → (rank dispositions desired t < rank dispositions desired u)
              ⊎ ((rank dispositions desired t ≡ rank dispositions desired u) × Among u chosen))

  none_kept : (p : Term → Bool) (u : Term) → keep_if p live ≡ [] → Among u live → p u ≡ false
  none_kept p u e a = elim (Bool-cases (p u)) [
    | inl y ↦ absurd (rw e at (keep_if-Among p u live a y))
    | inr n ↦ n
  ]

  Ranks-explicit : Ranks explicit
  Ranks-explicit t a =
      let (al, y) = Among-keep_if (is_explicit dispositions) t live a in
      (
        al,
        λ u b. elim (Bool-cases (is_explicit dispositions u)) [
          | inl z ↦ inr (ground arith, keep_if-Among (is_explicit dispositions) u live b z)
          | inr z ↦ inl (ground arith)
        ],
      )

  Ranks-identity : explicit ≡ [] → Ranks identity
  Ranks-identity e t a =
      let (al, y) = Among-keep_if (is_identity desired) t live a in
      (
        al,
        λ u b. elim (Bool-cases (is_identity desired u)) [
          | inl z ↦ inr (
            ground (
              arith,
              none_kept (is_explicit dispositions) u e b,
              none_kept (is_explicit dispositions) t e al,
            ),
            keep_if-Among (is_identity desired) u live b z,
          )
          | inr z ↦ inl (
              ground (
                arith,
                none_kept (is_explicit dispositions) u e b,
                none_kept (is_explicit dispositions) t e al,
              ))
        ],
      )

  Ranks-live : explicit ≡ [] → identity ≡ [] → Ranks live
  Ranks-live e i t a = (
    a,
    λ u b. inr (
      ground (
        arith,
        none_kept (is_explicit dispositions) u e b,
        none_kept (is_explicit dispositions) t e a,
        none_kept (is_identity desired) u i b,
        none_kept (is_identity desired) t i a,
      ),
      b,
    ),
  )

  Ranks-pool : Ranks (pool dispositions desired live)
  unfolding pool
  Ranks-pool = elim (List-cases explicit) [
    | inr (y, ys, e) ↦ rw e (rw e at Ranks-explicit)
    | inl e ↦ elim (List-cases identity) [
      | inr (y, ys, i) ↦ rw (e, i) (rw i at (Ranks-identity e))
      | inl i ↦ rw (e, i) (Ranks-live e i)
    ]
  ]

-- The survivor of a node is a live term that maps to the node, and no live term that does so
-- is preferred to it: explicit primaries first, then the term with the final slug, then the
-- lowest term_id.
pub survivor_choice :
    (dispositions : Dict Text Disposition) (kept : Dict ℕ Desired) (terms : List Term) (n k : ℕ)
    (u : Term)
    → survivor dispositions kept terms n ≡ some k
    → Among u terms
    → maps_to dispositions n u ≡ true
    → (t : Term) × Among t terms
      × (maps_to dispositions n t ≡ true)
      × (t.term_id ≡ k)
      × IsPreferred dispositions (lookup n kept) k t u
survivor_choice dispositions kept terms n k u h b mu =
    let live : List Term = keep_if (maps_to dispositions n) terms in
    let (t, a, e, low) =
      winner-least (pool dispositions (lookup n kept) live) k
        (sym (survivor-live dispositions kept terms n) ∙ h) in
    let (al, better) = Ranks-pool dispositions (lookup n kept) live t a in
    let (at, m) = Among-keep_if (maps_to dispositions n) t terms al in
    (
      t,
      at,
      m,
      e,
      elim (better u (keep_if-Among (maps_to dispositions n) u terms b mu)) [
        | inl lt ↦ inl lt
        | inr (eq, c) ↦ inr (eq, low u c)
      ],
    )
