-- ===== src/Draft/EditTests.antt =====
-- Runs of the edits of categories (logo-admin/categories_draft.py) at concrete drafts, and the theorems at
-- them.
use arb_data_warehouse.Outcomes.{gives}
use arb_data_warehouse.Planner.Names.{
  collapse, decimal, decimal_from, decode, is_space, lstrip, rstrip, strip,
}
use arb_data_warehouse.Prelude.{
  Bool, Text, [], any_of, contains, false, if◌then◌else◌, insert_by, keep_if, leb, map, none, refl,
  sort_by, text, text_beq, text_le, true, ℕ, ◌&&◌, ◌+◌, ◌∷◌, ◌≡◌, nat_eq, text_eq, pair_eq,
}
use arb_data_warehouse.Draft.Nodes.{
  Node, insert_at, place, renumber, resequence_siblings, set_node, sibling_le, siblings_of,
}
use arb_data_warehouse.Draft.Slugs.{
  clean_category_name, debris_step, drop_apostrophes, drop_debris, hyphenate, is_debris, is_slug,
  is_slug_char, lstrip_hyphens, rstrip_hyphens, slugify, slugify-accepted,
}
use arb_data_warehouse.Draft.Overrides.{Snapshots}
use arb_data_warehouse.Draft.Edits.{
  DraftTables, EditResult, choose_slug, create_node, free_slug, is_extra_owner, is_node_owner,
  known_parent, slug_owner,
}
use arb_data_warehouse.Draft.Sound.{
  DraftReach, IsSound, creates, edited_draft-IsSound, edits, no_nodes,
}
use arb_data_warehouse.Draft.Search.{choose_slug-finds}

abbrev same : Text → Text
same s = s

abbrev small : Text → Text
small s = map (λ c. if leb 65 c && leb c 90 then c + 32 else c) s

unfoldable run_slugify : Text → Text
unfolding slugify clean_category_name strip lstrip rstrip is_space collapse decode text_beq
    drop_debris is_debris debris_step drop_apostrophes hyphenate is_slug_char lstrip_hyphens
    rstrip_hyphens
run_slugify name = slugify same small name

test-slugify : run_slugify (text " Men's  Hats & Caps & ") ≡ text "mens-hats-caps"
unfolding run_slugify
test-slugify = refl

test-odd_name : run_slugify (text "&&!") ≡ text "category"
unfolding run_slugify
test-odd_name = refl

slugify-accepted_example : is_slug (slugify same small (text "&&!")) ≡ true
slugify-accepted_example = slugify-accepted same small (text "&&!")

abbrev no_draft : DraftTables
no_draft = record { nodes = []; overrides = []; slug_map = [] }

abbrev hats : ℕ → Text → ℕ → Node
hats id slug order = record {
  node_id = id;
  parent_id = none;
  name = text "Hats";
  slug = slug;
  sort_order = order;
  description = [];
}

abbrev first_draft : DraftTables
first_draft = record no_draft { nodes = hats 1 (text "hats") 10 ∷ [] }

abbrev second_draft : DraftTables
second_draft = record no_draft { nodes = hats 1 (text "hats") 10 ∷ hats 2 (text "hats-2") 20 ∷ [] }

unfoldable run_create : ℕ → DraftTables → EditResult DraftTables
unfolding create_node run_slugify choose_slug free_slug slug_owner is_node_owner is_extra_owner
    any_of known_parent contains resequence_siblings siblings_of renumber insert_at place keep_if
    sort_by insert_by sibling_le set_node decimal decimal_from text_le
run_create id t = create_node text_le same small id none (text "Hats") none [] none t

test-create : run_create 1 no_draft ≡ gives first_draft
unfolding run_create
test-create = refl

test-create_again : run_create 2 first_draft ≡ gives second_draft
unfolding run_create
test-create_again = refl

first_create :
    create_node text_le same small 1 none (text "Hats") none [] none no_draft ≡ gives first_draft
unfolding run_create
first_create = test-create

second_create :
    create_node text_le same small 2 none (text "Hats") none [] none first_draft
    ≡ gives second_draft
unfolding run_create
second_create = test-create_again

abbrev nothing_live : Text → Bool
nothing_live s = false

abbrev no_snapshots : Snapshots
no_snapshots = record { path_of = λ b. []; live_among = λ b slugs. none }

second_reach : DraftReach text_le same small second_draft
second_reach =
    edits nothing_live no_snapshots
      (edits nothing_live no_snapshots no_nodes
        (creates 1 none (text "Hats") none [] none first_draft first_create))
      (creates 2 none (text "Hats") none [] none second_draft second_create)

edited_draft-IsSound_example : IsSound second_draft
edited_draft-IsSound_example = edited_draft-IsSound text_le same small second_draft second_reach

choose_slug-finds_example :
    (slug : Text) × (choose_slug same small (text "Hats") none second_draft ≡ gives slug)
    × (slug_owner slug none second_draft ≡ false)
choose_slug-finds_example = choose_slug-finds same small (text "Hats") second_draft
