-- ===== src/Draft/Edits.antt =====
-- Creating and changing categories (logo-admin/categories_draft.py: _slug_owner, create_node,
-- update_node, _carry_identity_mapping). The columns that say who
-- changed a row and when, and the audit rows, are left out.
use arb_data_warehouse.Outcomes.{Fallible, check, fails, gives, ◌>>=◌, ◌>>◌}
use arb_data_warehouse.Planner.Names.{decimal, strip}
use arb_data_warehouse.Prelude.{
  Bool, List, Option, Text, [], any_of, contains, false, if◌then◌else◌, is_empty, length, map, none,
  not, some, suc, true, zero, ℕ, ℤ, ◌&&◌, ◌++◌, ◌+◌, ◌==◌, ◌||◌, ◌∷◌, nat_eq, text_eq, pair_eq,
}
use arb_data_warehouse.Draft.Nodes.{Node, find_node, resequence_siblings, same_parent, set_node}
use arb_data_warehouse.Draft.Slugs.{clean_category_name, is_slug, slugify}

pub data OverrideKind : Type 0 where
  extra_node : OverrideKind
  rename : OverrideKind
  exclude : OverrideKind

-- A row of catmgr.node_store_override.
pub record Override : Type 0 where
  pub override_id : ℕ
  pub blog_id : ℕ
  pub blog_path : Text
  pub kind : OverrideKind
  pub node_id : Option ℕ
  pub name : Option Text
  pub slug : Option Text
  pub parent_node_id : Option ℕ
  pub include_descendants : Bool
  pub sort_order : ℤ
  pub previous_slug : Option Text

abbrev pub override_key : Override → ℕ
override_key o = o.override_id

-- A row of catmgr.slug_map.
pub record MapRow : Type 0 where
  pub old_slug : Text
  pub target_node_id : Option ℕ
  pub override_id : Option ℕ
  pub is_primary : Bool

pub record DraftTables : Type 0 where
  pub nodes : List Node
  pub overrides : List Override
  pub slug_map : List MapRow

pub data EditError : Type 0 where
  unknown_category : EditError
  name_required : EditError
  invalid_slug : EditError
  slug_taken : EditError
  duplicate_node : EditError
  unknown_override : EditError
  unknown_kind : EditError
  node_required : EditError
  duplicate_override : EditError
  no_suffix_left : EditError

abbrev pub EditResult {ℓ} : Type ℓ → Type ℓ
EditResult A = Fallible EditError A

abbrev pub is_extra : OverrideKind → Bool
is_extra extra_node = true
is_extra _ = false

abbrev pub is_the : Option ℕ → ℕ → Bool
is_the none id = false
is_the (some k) id = id == k

abbrev pub has_slug : Text → Option Text → Bool
has_slug slug none = false
has_slug slug (some s) = s == slug

unfoldable pub is_node_owner : Text → Option ℕ → Node → Bool
is_node_owner slug excluded n = n.slug == slug && not (is_the excluded n.node_id)

unfoldable pub is_extra_owner : Text → Override → Bool
is_extra_owner slug o = is_extra o.kind && has_slug slug o.slug

-- `_slug_owner(cursor, slug, exclude_node_id=...)` for a global node: whether there is an owner.
unfoldable pub slug_owner : Text → Option ℕ → DraftTables → Bool
slug_owner slug excluded t =
    any_of (is_node_owner slug excluded) t.nodes || any_of (is_extra_owner slug) t.overrides

unfoldable pub validate_slug : (Text → Text) → Text → EditResult Text
validate_slug lower slug =
    let cleaned = lower (strip slug) in
    if is_slug cleaned then gives cleaned else fails invalid_slug

-- The loop over base-2, base-3, ...: as many rounds as there are owners are enough.
unfoldable pub free_slug : ℕ → Text → ℕ → Text → DraftTables → EditResult Text
free_slug zero base suffix slug t = fails no_suffix_left
free_slug (suc fuel) base suffix slug t =
    let rest = free_slug fuel base (suc suffix) (base ++ b'-' ∷ decimal suffix) t in
    if slug_owner slug none t then rest else gives slug

abbrev pub owners : DraftTables → ℕ
owners t = length t.nodes + length t.overrides

-- A slug that is given must be free, one that is not is made of the name.
unfoldable pub choose_slug :
    (Text → Text) → (Text → Text) → Text → Option Text → DraftTables → EditResult Text
choose_slug unescape lower name none t =
    free_slug (suc (owners t)) (slugify unescape lower name) 2 (slugify unescape lower name) t
choose_slug unescape lower name (some given) t = do
  slug ← validate_slug lower given
  check (not (slug_owner slug none t)) slug_taken
  gives slug

-- No parent, or one that is there.
unfoldable pub known_parent : List Node → Option ℕ → Bool
known_parent nodes none = true
known_parent nodes (some k) = elim (find_node k nodes) [ none ↦ false | some n ↦ true ]

-- An empty slug is none.
abbrev pub given_slug : Option Text → Option Text
given_slug none = none
given_slug (some []) = none
given_slug (some (c ∷ cs)) = some (c ∷ cs)

abbrev pub node_row : ℕ → Option ℕ → Text → Text → Text → Node
node_row id parent name slug description = record {
  node_id = id;
  parent_id = parent;
  name = name;
  slug = slug;
  sort_order = 0;
  description = description;
}

abbrev pub node_key : Node → ℕ
node_key n = n.node_id

-- `id` stands for the reserved id or the sequence's next value; an id that is there is refused by the
-- database.
unfoldable pub create_node :
    (Text → Text → Bool)
    → (Text → Text)
    → (Text → Text)
    → ℕ
    → Option ℕ
    → Text
    → Option Text
    → Text
    → Option ℤ
    → DraftTables
    → EditResult DraftTables
create_node name_le unescape lower id parent name_text slug_text description position t = do
  let name = clean_category_name unescape name_text
  check (not (is_empty name)) name_required
  check (known_parent t.nodes parent) unknown_category
  slug ← choose_slug unescape lower name (given_slug slug_text) t
  check (not (contains (map node_key t.nodes) id)) duplicate_node
  gives (record t {
    nodes =
        resequence_siblings name_le (t.nodes ++ node_row id parent name slug description ∷ [])
          parent (some id) position;
  })

unfoldable pub is_primary_of : ℕ → MapRow → Bool
is_primary_of id m = same_parent m.target_node_id (some id) && m.is_primary

unfoldable pub is_row_of : Text → MapRow → Bool
is_row_of slug m = m.old_slug == slug

unfoldable pub demote : Text → List MapRow → List MapRow
demote slug [] = []
demote slug (m ∷ ms) =
    (if is_row_of slug m then record m { is_primary = false } else m) ∷ demote slug ms

unfoldable pub first_primary : ℕ → List MapRow → Option Text
first_primary id [] = none
first_primary id (m ∷ ms) = if is_primary_of id m then some m.old_slug else first_primary id ms

abbrev pub carried_row : ℕ → Text → Bool → MapRow
carried_row id slug primary = record {
  old_slug = slug;
  target_node_id = some id;
  override_id = none;
  is_primary = primary;
}

-- `live` is slug_is_live on the snapshots.
unfoldable pub carry_identity_mapping : (Text → Bool) → ℕ → Text → List MapRow → List MapRow
carry_identity_mapping live id old_slug rows =
    if not (live old_slug) || any_of (is_row_of old_slug) rows
    then rows
    else elim (first_primary id rows) [
      | none ↦ rows ++ carried_row id old_slug true ∷ []
      | some primary ↦
          if live primary
          then rows ++ carried_row id old_slug false ∷ []
          else demote primary rows ++ carried_row id old_slug true ∷ []
    ]

unfoldable pub cleaned_name : (Text → Text) → Option Text → EditResult (Option Text)
cleaned_name unescape none = gives none
cleaned_name unescape (some name) = do
  let cleaned = clean_category_name unescape name
  check (not (is_empty cleaned)) name_required
  gives (some cleaned)

-- A new slug must have no other owner.
unfoldable pub checked_slug :
    (Text → Text) → Node → Option Text → DraftTables → EditResult (Option Text)
checked_slug lower node none t = gives none
checked_slug lower node (some given) t = do
  slug ← validate_slug lower given
  check (slug == node.slug || not (slug_owner slug (some node.node_id) t)) slug_taken
  gives (some slug)

abbrev pub value_or {ℓ} : {A : Type ℓ} → Option A → A → A
value_or none a = a
value_or (some b) a = b

-- Writing values that are there already writes nothing new.
unfoldable pub update_node :
    (Text → Text)
    → (Text → Text)
    → (Text → Bool)
    → ℕ
    → Option Text
    → Option Text
    → Option Text
    → DraftTables
    → EditResult DraftTables
update_node unescape lower live id name slug description t = elim (find_node id t.nodes) [
  | none ↦ fails unknown_category
  | some node ↦ (do
    new_name ← cleaned_name unescape name
    new_slug ← checked_slug lower node slug t
    let row = record node {
      name = value_or new_name node.name;
      slug = value_or new_slug node.slug;
      description = value_or description node.description;
    }
    gives (record t {
      nodes =
          set_node id
            (λ n. record n { name = row.name; slug = row.slug; description = row.description })
            t.nodes;
      slug_map =
          if row.slug == node.slug
          then t.slug_map
          else carry_identity_mapping live id node.slug t.slug_map;
    }))
]
