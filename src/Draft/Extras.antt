-- ===== src/Draft/Extras.antt =====
-- What single stores change keeps web addresses apart (logo-admin/categories_draft.py: set_override,
-- delete_override).
use arb_data_warehouse.Outcomes.{Ensures, Ensures-bind, Ensures-check, anything, gives, map_gives}
use arb_data_warehouse.Prelude.{
  All, Bool, Bool-cases, Distinct, List, Option, Option-cases, Text, [], any_of, any_of-append, ap,
  arith, contains, false, find_by, if◌then◌else◌, inl, inr, map, nat_beq_iff, none, not, or_else,
  refl, set_by, set_by-absent, some, sym, true, ℕ, ◌&&◌, ◌++◌, ◌==◌, ◌∙◌, ◌∷◌, ◌≡◌, nat_eq, text_eq,
  pair_eq,
}
use arb_data_warehouse.Draft.Slugs.{slugify}
use arb_data_warehouse.Draft.Edits.{
  DraftTables, EditResult, Override, OverrideKind, exclude, extra_node, has_slug, is_extra,
  is_extra_owner, known_parent, override_key, rename, slug_taken, unknown_category, validate_slug,
}
use arb_data_warehouse.Draft.Overrides.{
  OverrideInput, OverrideShape, blog_slug_owner, drop_override, extra_shape, node_shape,
  required_name, shape_of,
}
use arb_data_warehouse.Draft.Apart.{IsFreeOfExtras, no_owner, slugs_of}

-- The extra that a shape makes, if any, has no category's slug.
abbrev pub NoneHas : List Text → OverrideKind → OverrideShape → Type 0
NoneHas slugs kind shape = All (λ s. (is_extra kind && has_slug s shape.slug) ≡ false) slugs

none_listed_has :
    (slug : Text) (slugs : List Text)
    → contains slugs slug ≡ false
    → All (λ s. (slug == s) ≡ false) slugs
unfolding contains
none_listed_has slug [] h = tt
none_listed_has slug (s ∷ ss) h = (ground arith, none_listed_has slug ss (ground arith))

plain-NoneHas :
    (slugs : List Text) (kind : OverrideKind) (shape : OverrideShape)
    → shape.slug ≡ none
    → NoneHas slugs kind shape
plain-NoneHas [] kind shape h = tt
plain-NoneHas (s ∷ ss) kind shape h =
    (ground (arith, ap (has_slug s) h), plain-NoneHas ss kind shape h)

taken_by_none :
    (kind : OverrideKind) (slug : Text) (slugs : List Text)
    → All (λ s. (slug == s) ≡ false) slugs
    → All (λ s. (is_extra kind && has_slug s (some slug)) ≡ false) slugs
taken_by_none kind slug [] h = tt
taken_by_none kind slug (s ∷ ss) h = (ground (arith, h.0), taken_by_none kind slug ss h.1)

node_shape-NoneHas :
    (unescape : Text → Text) (renames : Bool) (input : OverrideInput) (kind : OverrideKind)
    (slugs : List Text) (t : DraftTables)
    → Ensures (NoneHas slugs kind) (node_shape unescape renames input t)
unfolding node_shape
node_shape-NoneHas unescape renames input kind slugs t =
    let P : OverrideShape → Type 0 = NoneHas slugs kind in
    elim (Option-cases input.node_id) [
      | inl e ↦ rw (e, node_shape) tt
      | inr (id, e) ↦
          let names : EditResult (Option Text) =
            if renames
            then map_gives (λ n. some n) (required_name unescape input.name)
            else gives none in
          rw (e, node_shape)
            (Ensures-check P (known_parent t.nodes (some id)) unknown_category _ (λ known.
              Ensures-bind P (λ n. Unit) names _ (anything names)
                (λ name u.
                  plain-NoneHas slugs kind
                    (record { node_id = some id; name = name; slug = none; parent_node_id = none })
                    refl)))
    ]

extra_shape-NoneHas :
    (unescape lower : Text → Text) (input : OverrideInput) (kind : OverrideKind) (t : DraftTables)
    → Ensures (NoneHas (slugs_of t.nodes) kind) (extra_shape unescape lower input t)
unfolding extra_shape blog_slug_owner
extra_shape-NoneHas unescape lower input kind t =
    let P : OverrideShape → Type 0 = NoneHas (slugs_of t.nodes) kind in
    let named : EditResult Text = required_name unescape input.name in
    Ensures-bind P (λ n. Unit) named _ (anything named)
      (λ name u.
        let chosen : EditResult Text =
          validate_slug lower (or_else input.slug (slugify unescape lower name)) in
        Ensures-bind P (λ s. Unit) chosen _ (anything chosen)
          (λ slug v.
            Ensures-check P (known_parent t.nodes input.parent_node_id) unknown_category _ (λ known.
              Ensures-check P (not (blog_slug_owner input.blog_id slug input.override_id t))
                slug_taken _
                (λ free. taken_by_none kind slug (slugs_of t.nodes) (
                  none_listed_has slug (slugs_of t.nodes)
                    (no_owner slug t.nodes (ground arith)))))))

pub shape_of-NoneHas :
    (unescape lower : Text → Text) (kind : OverrideKind) (input : OverrideInput) (t : DraftTables)
    → Ensures (NoneHas (slugs_of t.nodes) kind) (shape_of unescape lower kind input t)
unfolding shape_of
shape_of-NoneHas unescape lower extra_node input t =
    extra_shape-NoneHas unescape lower input extra_node t
shape_of-NoneHas unescape lower rename input t =
    node_shape-NoneHas unescape true input rename (slugs_of t.nodes) t
shape_of-NoneHas unescape lower exclude input t =
    node_shape-NoneHas unescape false input exclude (slugs_of t.nodes) t

-- Rows whose extras have no category's slug.
pub All-free :
    (slugs : List Text) (before after : List Override) (Q : Text → Type 0)
    → All (IsFreeOfExtras before) slugs
    → All Q slugs
    → ((s : Text) → IsFreeOfExtras before s → Q s → IsFreeOfExtras after s)
    → All (IsFreeOfExtras after) slugs
All-free [] before after Q h q step = tt
All-free (s ∷ ss) before after Q h q step =
    (step s h.0 q.0, All-free ss before after Q h.1 q.1 step)

pub append-free :
    (os : List Override) (o : Override) (s : Text)
    → IsFreeOfExtras os s
    → is_extra_owner s o ≡ false
    → IsFreeOfExtras (os ++ o ∷ []) s
unfolding any_of
append-free os o s h new = ground (arith, any_of-append (is_extra_owner s) os (o ∷ []))

pub set_by-free :
    (id : ℕ) (f : Override → Override) (os : List Override) (s : Text)
    → IsFreeOfExtras os s
    → ((o : Override) → find_by override_key id os ≡ some o → is_extra_owner s (f o) ≡ false)
    → Distinct (map override_key os)
    → IsFreeOfExtras (set_by override_key id f os) s
unfolding any_of set_by find_by
set_by-free id f [] s h new d = refl
set_by-free id f (o ∷ os) s h new d = elim (Bool-cases (o.override_id == id)) [
  | inl e ↦
      let here : is_extra_owner s (f o) ≡ false = new o (rw e refl) in
      let absent : contains (map override_key os) id ≡ false =
        ap (contains (map override_key os)) (sym ((nat_beq_iff o.override_id id).0 e)) ∙ d.0 in
      rw (e, set_by-absent override_key id f os absent) (ground arith)
  | inr e ↦
      let rest : IsFreeOfExtras (set_by override_key id f os) s =
        set_by-free id f os s (ground arith) (λ x found. new x (rw e found)) d.1 in
      rw e (ground arith)
]

pub drop-free :
    (id : ℕ) (os : List Override) (s : Text)
    → IsFreeOfExtras os s
    → IsFreeOfExtras (drop_override id os) s
unfolding any_of drop_override
drop-free id [] s h = refl
drop-free id (o ∷ os) s h = ground (arith, drop-free id os s)
