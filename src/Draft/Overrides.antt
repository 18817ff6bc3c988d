-- ===== src/Draft/Overrides.antt =====
-- What single stores change of the draft tree (logo-admin/categories_draft.py: set_override,
-- _extra_live_slug, delete_override).
use arb_data_warehouse.Outcomes.{check, fails, gives, map_gives, ◌>>=◌, ◌>>◌}
use arb_data_warehouse.Planner.Names.{strip}
use arb_data_warehouse.Prelude.{
  Bool, List, Option, Text, [], any_of, contains, false, find_by, if◌then◌else◌, is_empty, map,
  none, not, or_else, set_add, set_by, some, text, true, ℕ, ℤ, ◌&&◌, ◌++◌, ◌==◌, ◌||◌, ◌∷◌, nat_eq,
  text_eq, pair_eq,
}
use arb_data_warehouse.Draft.Nodes.{same_parent}
use arb_data_warehouse.Draft.Slugs.{clean_category_name, slugify}
use arb_data_warehouse.Draft.Edits.{
  DraftTables, EditResult, MapRow, Override, OverrideKind, duplicate_override, exclude, extra_node,
  has_slug, is_extra, is_extra_owner, is_node_owner, is_the, known_parent, name_required,
  node_required, override_key, rename, slug_taken, unknown_category, unknown_kind, unknown_override,
  validate_slug, value_or,
}

-- The arguments of set_override.
pub record OverrideInput : Type 0 where
  pub blog_id : ℕ
  pub kind_text : Text
  pub override_id : Option ℕ
  pub node_id : Option ℕ
  pub name : Text
  pub slug : Text
  pub parent_node_id : Option ℕ
  pub include_descendants : Bool
  pub sort_order : ℤ
  pub blog_path : Text

-- What the snapshots say: the path of a blog, and the first of some slugs that it has live.
pub record Snapshots : Type 0 where
  pub path_of : ℕ → Text
  pub live_among : ℕ → List Text → Option Text

unfoldable pub kind_of : Text → Option OverrideKind
kind_of s =
    if s == text "extra_node"
    then some extra_node
    else if s == text "rename"
    then some rename
    else if s == text "exclude"
    then some exclude
    else none

unfoldable pub is_blog_owner : ℕ → Text → Option ℕ → Override → Bool
is_blog_owner blog slug excluded o =
    is_extra_owner slug o && (o.blog_id == blog && not (is_the excluded o.override_id))

-- `_slug_owner(cursor, slug, exclude_override_id=..., blog_id=...)` for a store extra.
unfoldable pub blog_slug_owner : ℕ → Text → Option ℕ → DraftTables → Bool
blog_slug_owner blog slug excluded t =
    any_of (is_node_owner slug none) t.nodes
    || any_of (is_blog_owner blog slug excluded) t.overrides

-- The columns that an input's kind lets through.
pub record OverrideShape : Type 0 where
  pub node_id : Option ℕ
  pub name : Option Text
  pub slug : Option Text
  pub parent_node_id : Option ℕ

unfoldable pub required_name : (Text → Text) → Text → EditResult Text
required_name unescape name =
    let cleaned = clean_category_name unescape name in
    if is_empty cleaned then fails name_required else gives cleaned

unfoldable pub extra_shape :
    (Text → Text) → (Text → Text) → OverrideInput → DraftTables → EditResult OverrideShape
extra_shape unescape lower input t = do
  name ← required_name unescape input.name
  slug ← validate_slug lower (or_else input.slug (slugify unescape lower name))
  check (known_parent t.nodes input.parent_node_id) unknown_category
  check (not (blog_slug_owner input.blog_id slug input.override_id t)) slug_taken
  gives (record {
    node_id = none;
    name = some name;
    slug = some slug;
    parent_node_id = input.parent_node_id;
  })

-- `rename` and `exclude` are of a category that is there.
unfoldable pub node_shape :
    (Text → Text) → Bool → OverrideInput → DraftTables → EditResult OverrideShape
node_shape unescape renames input t = elim input.node_id [
  | none ↦ fails node_required
  | some id ↦ (do
    check (known_parent t.nodes (some id)) unknown_category
    name ←
        (if renames
          then map_gives (λ n. some n) (required_name unescape input.name)
          else gives none)
    gives (record { node_id = some id; name = name; slug = none; parent_node_id = none }))
]

unfoldable pub shape_of :
    (Text → Text)
    → (Text → Text)
    → OverrideKind
    → OverrideInput
    → DraftTables
    → EditResult OverrideShape
shape_of unescape lower extra_node input t = extra_shape unescape lower input t
shape_of unescape lower rename input t = node_shape unescape true input t
shape_of unescape lower exclude input t = node_shape unescape false input t

abbrev pub same_kind : OverrideKind → OverrideKind → Bool
same_kind extra_node extra_node = true
same_kind rename rename = true
same_kind exclude exclude = true
same_kind a b = false

-- The unique indexes: one rename and one exclusion of a category on a blog, one extra of a slug.
unfoldable pub is_clash : ℕ → OverrideKind → OverrideShape → Override → Bool
is_clash blog kind shape o =
    o.blog_id == blog
    && (same_kind o.kind kind
        && (if is_extra kind
            then has_slug (value_or shape.slug []) o.slug
            else same_parent o.node_id shape.node_id))

-- `candidate` stripped, unless it is empty, the new slug or seen.
unfoldable pub seen_slugs : Text → List (Option Text) → List Text → List Text
seen_slugs new_slug [] seen = seen
seen_slugs new_slug (candidate ∷ rest) seen =
    let s = strip (value_or candidate []) in
    seen_slugs new_slug rest (if is_empty s || s == new_slug then seen else set_add seen s)

unfoldable pub extra_live_slug : Snapshots → ℕ → List (Option Text) → Text → Option Text
extra_live_slug snapshots blog candidates new_slug =
    let seen = seen_slugs new_slug candidates [] in
    if is_empty seen then none else snapshots.live_among blog seen

unfoldable pub lineage : Snapshots → OverrideKind → OverrideShape → Override → Option Text
lineage snapshots kind shape current =
    if is_extra kind
    then extra_live_slug snapshots current.blog_id (current.slug ∷ current.previous_slug ∷ [])
        (value_or shape.slug [])
    else current.previous_slug

unfoldable pub insert_override :
    Snapshots
    → ℕ
    → OverrideKind
    → OverrideShape
    → OverrideInput
    → DraftTables
    → EditResult DraftTables
insert_override snapshots id kind shape input t = do
  check
      (not (
        contains (map override_key t.overrides) id
        || any_of (is_clash input.blog_id kind shape) t.overrides))
      duplicate_override
  gives (record t {
    overrides =
        t.overrides
        ++ record {
          override_id = id;
          blog_id = input.blog_id;
          blog_path = or_else input.blog_path (snapshots.path_of input.blog_id);
          kind = kind;
          node_id = shape.node_id;
          name = shape.name;
          slug = shape.slug;
          parent_node_id = shape.parent_node_id;
          include_descendants = input.include_descendants;
          sort_order = input.sort_order;
          previous_slug = none;
        }
          ∷ [];
  })

abbrev pub rewritten :
    Snapshots → OverrideKind → OverrideShape → OverrideInput → Override → Override → Override
rewritten snapshots kind shape input current o = record o {
  name = shape.name;
  slug = shape.slug;
  parent_node_id = shape.parent_node_id;
  include_descendants = input.include_descendants;
  sort_order = input.sort_order;
  previous_slug = lineage snapshots kind shape current;
}

-- A write of a row that is there, if its blog and its kind are the given ones.
unfoldable pub update_override :
    Snapshots
    → ℕ
    → OverrideKind
    → OverrideShape
    → OverrideInput
    → DraftTables
    → EditResult DraftTables
update_override snapshots id kind shape input t = elim (find_by override_key id t.overrides) [
  | none ↦ fails unknown_override
  | some current ↦ (do
    check (current.blog_id == input.blog_id && same_kind current.kind kind) unknown_override
    gives (record t {
      overrides = set_by override_key id (rewritten snapshots kind shape input current) t.overrides;
    }))
]

-- `id` stands for the reserved id or the sequence's next value.
unfoldable pub set_override :
    (Text → Text)
    → (Text → Text)
    → Snapshots
    → ℕ
    → OverrideInput
    → DraftTables
    → EditResult DraftTables
set_override unescape lower snapshots id input t = elim (kind_of input.kind_text) [
  | none ↦ fails unknown_kind
  | some kind ↦ (do
    shape ← shape_of unescape lower kind input t
    elim input.override_id [
      | none ↦ insert_override snapshots id kind shape input t
      | some k ↦ update_override snapshots k kind shape input t
    ])
]

unfoldable pub drop_override : ℕ → List Override → List Override
drop_override id [] = []
drop_override id (o ∷ os) =
    let rest = drop_override id os in if o.override_id == id then rest else o ∷ rest

-- The mappings to an extra go with it, as the foreign key says.
unfoldable pub drop_mapped : ℕ → List MapRow → List MapRow
drop_mapped id [] = []
drop_mapped id (m ∷ ms) =
    let rest = drop_mapped id ms in if is_the m.override_id id then rest else m ∷ rest

unfoldable pub delete_override : ℕ → DraftTables → EditResult DraftTables
delete_override id t = do
  check (contains (map override_key t.overrides) id) unknown_override
  gives
      (record t { overrides = drop_override id t.overrides; slug_map = drop_mapped id t.slug_map })
