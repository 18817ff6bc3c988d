-- ===== src/Draft/Overridden.antt =====
-- Setting and deleting a store's override keeps web addresses apart (logo-admin/categories_draft.py:
-- set_override, delete_override).
use mathlib.Core.Path.{subst}
use arb_data_warehouse.Outcomes.{Ensures, Ensures-bind, Ensures-check}
use arb_data_warehouse.Prelude.{
  Bool-cases, Distinct, Distinct-append_one, List, Option-cases, Text, [], any_of, ap, arith,
  contains, count_if, false, find_by, inl, inr, map, map-set_by, not, refl, sym, true, ℕ, ◌&&◌,
  ◌++◌, ◌==◌, ◌||◌, ◌∙◌, ◌∷◌, ◌≡◌, ◌≤◌, nat_eq, text_eq, pair_eq,
}
use arb_data_warehouse.Draft.Edits.{
  DraftTables, MapRow, Override, OverrideKind, duplicate_override, exclude, extra_node, has_slug,
  is_extra, is_extra_owner, is_primary_of, override_key, rename, unknown_override,
}
use arb_data_warehouse.Draft.Overrides.{
  OverrideInput, OverrideShape, Snapshots, drop_mapped, drop_override, insert_override, is_clash,
  kind_of, rewritten, same_kind, set_override, shape_of, update_override,
}
use arb_data_warehouse.Draft.Apart.{IsApart, IsFreeOfExtras, slugs_of}
use arb_data_warehouse.Draft.Extras.{
  All-free, NoneHas, append-free, drop-free, set_by-free, shape_of-NoneHas,
}

-- Addresses apart, and nodes and mappings as they were.
abbrev pub Overridden : DraftTables → DraftTables → Type 0
Overridden t after = IsApart after × (after.nodes ≡ t.nodes) × (after.slug_map ≡ t.slug_map)

same_kind-only : (a b : OverrideKind) → same_kind a b ≡ true → a ≡ b
same_kind-only extra_node extra_node h = refl
same_kind-only rename rename h = refl
same_kind-only exclude exclude h = refl
same_kind-only extra_node rename h = absurd (cc)
same_kind-only extra_node exclude h = absurd (cc)
same_kind-only rename extra_node h = absurd (cc)
same_kind-only rename exclude h = absurd (cc)
same_kind-only exclude extra_node h = absurd (cc)
same_kind-only exclude rename h = absurd (cc)

map-append_override :
    (os : List Override) (o : Override)
    → map override_key (os ++ o ∷ []) ≡ map override_key os ++ o.override_id ∷ []
map-append_override [] o = refl
map-append_override (x ∷ os) o = ap (λ l. x.override_id ∷ l) (map-append_override os o)

module _ (t : DraftTables) (h : IsApart t) (snapshots : Snapshots) (id : ℕ) (kind : OverrideKind)
    (input : OverrideInput) (shape : OverrideShape)
    (fits : NoneHas (slugs_of t.nodes) kind shape) where
  insert_override-Overridden :
      Ensures (Overridden t) (insert_override snapshots id kind shape input t)
  unfolding insert_override is_extra_owner
  insert_override-Overridden =
      Ensures-check (Overridden t)
        (not (
          contains (map override_key t.overrides) id
          || any_of (is_clash input.blog_id kind shape) t.overrides))
        duplicate_override _
        (λ fresh. (
          record {
            ids = h.ids;
            slugs = h.slugs;
            extras =
                All-free (slugs_of t.nodes) t.overrides _
                  (λ s. (is_extra kind && has_slug s shape.slug) ≡ false) h.extras fits
                  (λ s free new. append-free t.overrides _ s free new);
            override_ids = subst Distinct (sym (map-append_override t.overrides _)) (
                Distinct-append_one (map override_key t.overrides) id h.override_ids
                  (ground arith));
          },
          refl,
          refl,
        ))

  update_override-Overridden :
      Ensures (Overridden t) (update_override snapshots id kind shape input t)
  unfolding update_override is_extra_owner
  update_override-Overridden = elim (Option-cases (find_by override_key id t.overrides)) [
    | inl e ↦ rw (e, update_override) tt
    | inr (current, e) ↦
        rw (e, update_override)
          (Ensures-check (Overridden t)
            (current.blog_id == input.blog_id && same_kind current.kind kind) unknown_override _
            (λ matches.
              let kinds : current.kind ≡ kind = same_kind-only current.kind kind (ground arith) in
              (
                record {
                  ids = h.ids;
                  slugs = h.slugs;
                  extras =
                      All-free (slugs_of t.nodes) t.overrides _
                        (λ s. (is_extra kind && has_slug s shape.slug) ≡ false) h.extras fits
                        (λ s free new.
                          set_by-free id (rewritten snapshots kind shape input current) t.overrides
                            s free
                            (λ o found.
                              let same : o ≡ current = ground arith in
                              let own : o.kind ≡ kind =
                                ap (λ (x : Override). x.kind) same ∙ kinds in
                              ap (λ k. is_extra k && has_slug s shape.slug) own ∙ new)
                            h.override_ids);
                  override_ids =
                      subst Distinct
                        (sym (
                          map-set_by override_key id (rewritten snapshots kind shape input current)
                            t.overrides (λ o. refl)))
                        h.override_ids;
                },
                refl,
                refl,
              )))
  ]

pub set_override-Overridden :
    (unescape lower : Text → Text) (snapshots : Snapshots) (id : ℕ) (input : OverrideInput)
    (t : DraftTables)
    → IsApart t
    → Ensures (Overridden t) (set_override unescape lower snapshots id input t)
unfolding set_override
set_override-Overridden unescape lower snapshots id input t h =
    elim (Option-cases (kind_of input.kind_text)) [
      | inl e ↦ rw (e, set_override) tt
      | inr (kind, e) ↦
          rw (e, set_override)
            (Ensures-bind (Overridden t) (NoneHas (slugs_of t.nodes) kind)
              (shape_of unescape lower kind input t) _
              (shape_of-NoneHas unescape lower kind input t)
              (λ shape fits. elim (Option-cases input.override_id) [
                | inl new ↦
                    rw new (insert_override-Overridden t h snapshots id kind input shape fits)
                | inr (k, old) ↦
                    rw old (update_override-Overridden t h snapshots k kind input shape fits)
              ]))
    ]

contains-drop_override :
    (id k : ℕ) (os : List Override)
    → contains (map override_key os) k ≡ false
    → contains (map override_key (drop_override id os)) k ≡ false
unfolding contains drop_override
contains-drop_override id k [] h = refl
contains-drop_override id k (o ∷ os) h = ground (arith, contains-drop_override id k os)

Distinct-drop_override :
    (id : ℕ) (os : List Override)
    → Distinct (map override_key os)
    → Distinct (map override_key (drop_override id os))
unfolding drop_override
Distinct-drop_override id [] d = tt
Distinct-drop_override id (o ∷ os) d = elim (Bool-cases (o.override_id == id)) [
  | inl e ↦ rw e (Distinct-drop_override id os d.1)
  | inr e ↦ rw e (contains-drop_override id o.override_id os d.0, Distinct-drop_override id os d.1)
]

pub dropped-IsApart :
    (id : ℕ) (t : DraftTables)
    → IsApart t
    → IsApart (record t {
      overrides = drop_override id t.overrides;
      slug_map = drop_mapped id t.slug_map;
    })
dropped-IsApart id t h = record {
  ids = h.ids;
  slugs = h.slugs;
  extras =
      All-free (slugs_of t.nodes) t.overrides (drop_override id t.overrides)
        (IsFreeOfExtras t.overrides) h.extras h.extras
        (λ s free again. drop-free id t.overrides s free);
  override_ids = Distinct-drop_override id t.overrides h.override_ids;
}

pub count-drop_mapped :
    (k id : ℕ) (rows : List MapRow)
    → count_if (is_primary_of k) (drop_mapped id rows) ≤ count_if (is_primary_of k) rows
unfolding count_if drop_mapped
count-drop_mapped k id [] = omega arith
count-drop_mapped k id (m ∷ ms) = ground (arith, count-drop_mapped k id ms)
