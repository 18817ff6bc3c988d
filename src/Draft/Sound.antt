-- ===== src/Draft/Sound.antt =====
-- The draft under any sequence of edits of its categories (logo-admin/categories_draft.py: create_node,
-- update_node, move_node).
use mathlib.Core.Path.{subst}
use arb_data_warehouse.Outcomes.{Ensures-check, Ensures-gives, gives}
use arb_data_warehouse.Prelude.{
  Bool, List, Option, Text, [], arith, contains, count_if, map, sym, ℕ, ℤ, ◌≡◌, nat_eq, text_eq,
  pair_eq,
}
use arb_data_warehouse.Draft.Nodes.{Node, accepted}
use arb_data_warehouse.Draft.Moves.{move_node}
use arb_data_warehouse.Draft.Rooted.{IsTree}
use arb_data_warehouse.Draft.Tree.{move_node-IsTree}
use arb_data_warehouse.Draft.Edits.{
  DraftTables, create_node, override_key, unknown_override, update_node,
}
use arb_data_warehouse.Draft.Apart.{IsApart}
use arb_data_warehouse.Draft.Hangs.{HasTree, create_node-HasTree, update_node-HasTree}
use arb_data_warehouse.Draft.Overrides.{OverrideInput, Snapshots, delete_override, set_override}
use arb_data_warehouse.Draft.Overridden.{
  Overridden, count-drop_mapped, dropped-IsApart, set_override-Overridden,
}
use arb_data_warehouse.Draft.Kept.{create_node-IsApart, move_node-IsApart, update_node-IsApart}
use arb_data_warehouse.Draft.Primaries.{OnePrimary}

-- What the program takes from its runtimes and from the snapshots.
pub record DraftSetting : Type 0 where
  pub name_le : Text → Text → Bool
  pub unescape : Text → Text
  pub lower : Text → Text
  pub live : Text → Bool
  pub snapshots : Snapshots

pub data DraftStep (e : DraftSetting) (t : DraftTables) : DraftTables → Type 0 where
  creates :
      (id : ℕ) (parent : Option ℕ) (name : Text) (slug : Option Text) (description : Text)
      (position : Option ℤ) (after : DraftTables)
      → create_node e.name_le e.unescape e.lower id parent name slug description position t
        ≡ gives after
      → DraftStep e t after
  updates :
      (id : ℕ) (name slug description : Option Text) (after : DraftTables)
      → update_node e.unescape e.lower e.live id name slug description t ≡ gives after
      → DraftStep e t after
  overrides :
      (id : ℕ) (input : OverrideInput) (after : DraftTables)
      → set_override e.unescape e.lower e.snapshots id input t ≡ gives after
      → DraftStep e t after
  restores :
      (id : ℕ) (after : DraftTables) → delete_override id t ≡ gives after → DraftStep e t after
  moves :
      (id : ℕ) (parent : Option ℕ) (position : Option ℤ) (nodes : List Node)
      → move_node e.name_le t.nodes id parent position ≡ accepted nodes
      → DraftStep e t (record t { nodes = nodes })

-- From an empty draft. The snapshots, and with them the live slugs, may change between edits.
pub data DraftReach (name_le : Text → Text → Bool) (unescape lower : Text → Text)
    : DraftTables → Type 0 where
  no_nodes :
      DraftReach name_le unescape lower (record { nodes = []; overrides = []; slug_map = [] })
  edits :
      (live : Text → Bool) (snapshots : Snapshots) {t after : DraftTables}
      → DraftReach name_le unescape lower t
      → DraftStep
          (record {
            name_le = name_le;
            unescape = unescape;
            lower = lower;
            live = live;
            snapshots = snapshots;
          })
          t
          after
      → DraftReach name_le unescape lower after

pub record IsSound (t : DraftTables) : Type 0 where
  pub tree : IsTree t.nodes
  pub apart : IsApart t
  pub primaries : OnePrimary t.slug_map

step-IsSound :
    (e : DraftSetting) (t after : DraftTables) → DraftStep e t after → IsSound t → IsSound after
unfolding delete_override
step-IsSound e t after (creates id parent name slug description position out gave) s =
    let made =
      create_node e.name_le e.unescape e.lower id parent name slug description position t in
    let shape : HasTree after = Ensures-gives HasTree made after gave (
      create_node-HasTree e.name_le e.unescape e.lower id parent name slug description position t
        (s.tree, s.primaries)) in
    record {
      tree = shape.0;
      apart = Ensures-gives IsApart made after gave (
          create_node-IsApart e.name_le e.unescape e.lower id parent name slug description position
            t s.apart);
      primaries = shape.1;
    }
step-IsSound e t after (updates id name slug description out gave) s =
    let made = update_node e.unescape e.lower e.live id name slug description t in
    let shape : HasTree after = Ensures-gives HasTree made after gave (
      update_node-HasTree e.unescape e.lower e.live id name slug description t
        (s.tree, s.primaries)) in
    record {
      tree = shape.0;
      apart =
          Ensures-gives IsApart made after gave
            (update_node-IsApart e.unescape e.lower e.live id name slug description t s.apart);
      primaries = shape.1;
    }
step-IsSound e t after (overrides id input out gave) s =
    let kept =
      Ensures-gives (Overridden t) (set_override e.unescape e.lower e.snapshots id input t) after
        gave (set_override-Overridden e.unescape e.lower e.snapshots id input t s.apart) in
    record {
      tree = subst IsTree (sym kept.1) s.tree;
      apart = kept.0;
      primaries = subst OnePrimary (sym kept.2) s.primaries;
    }
step-IsSound e t after (restores id out gave) s =
    Ensures-gives IsSound (delete_override id t) after gave (
      Ensures-check IsSound (contains (map override_key t.overrides) id) unknown_override _
        (λ there. record {
          tree = s.tree;
          apart = dropped-IsApart id t s.apart;
          primaries = λ k. omega (arith, s.primaries k, count-drop_mapped k id t.slug_map);
        }))
step-IsSound e t after (moves id parent position nodes gave) s = record {
  tree = move_node-IsTree e.name_le t.nodes nodes id parent position s.tree gave;
  apart = move_node-IsApart e.name_le t nodes id parent position s.apart gave;
  primaries = s.primaries;
}

-- Whatever categories are created, changed and moved and whatever stores override, from an empty draft: every
-- chain of parents ends at the root level, no two categories have one id or one slug, none has the slug
-- of a store extra, and none has two primary mappings.
pub edited_draft-IsSound :
    (name_le : Text → Text → Bool) (unescape lower : Text → Text) (t : DraftTables)
    → DraftReach name_le unescape lower t
    → IsSound t
unfolding count_if
edited_draft-IsSound name_le unescape lower t no_nodes = record {
  tree = tt;
  apart = record { ids = tt; slugs = tt; extras = tt; override_ids = tt };
  primaries = λ id. omega arith;
}
edited_draft-IsSound name_le unescape lower t (edits live snapshots {t = before} reached step) =
    step-IsSound
      (record {
        name_le = name_le;
        unescape = unescape;
        lower = lower;
        live = live;
        snapshots = snapshots;
      })
      before t step (edited_draft-IsSound name_le unescape lower before reached)
