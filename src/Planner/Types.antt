-- ===== src/Planner/Types.antt =====
-- The data of a blog plan (logo-admin/categories_planner.py): snapshot terms, dispositions, the
-- target tree of the store, and the entries of the plan.
use arb_data_warehouse.Prelude.{Bool, Dict, List, Text, false, or_else, ℕ, nat_eq, text_eq, pair_eq}

-- A row of catmgr.wp_term. No parent is 0; no parked_from is the empty text.
pub record Term : Type 0 where
  pub term_id : ℕ
  pub slug : Text
  pub name : Text
  pub parent_term_id : ℕ
  pub description : Text
  pub sort_order : ℕ
  pub parked_from : Text

-- The slug that the plan reasons about; the live slug is only the fence.
abbrev pub logical : Term → Text
logical t = or_else t.parked_from t.slug

-- What a slug_map row does with its slug: only a map names a target node.
pub data Action : Type 0 where
  map_to : ℕ → Action
  delete : Action
  store_custom : Action

pub record Disposition : Type 0 where
  pub action : Action
  pub is_primary : Bool
  pub implicit : Bool

-- A node's desired term on the blog, without its node_id, which is the key.
pub record Desired : Type 0 where
  pub slug : Text
  pub name : Text
  pub parent_slug : Text
  pub sort_order : ℕ
  pub description : Text

-- A store extra's desired term. No previous slug is the empty text.
pub record Extra : Type 0 where
  pub override_id : ℕ
  pub slug : Text
  pub previous_slug : Text
  pub name : Text
  pub parent_slug : Text
  pub sort_order : ℕ

pub record Target : Type 0 where
  pub kept : Dict ℕ Desired
  pub extras : List Extra

-- Which fields of a term an update changes.
pub record Changed : Type 0 where
  pub slug : Bool
  pub name : Bool
  pub parent : Bool
  pub description : Bool
  pub sort_order : Bool

-- No key of the `changed` dict is set.
abbrev pub unchanged : Changed
unchanged = record {
  slug = false;
  name = false;
  parent = false;
  description = false;
  sort_order = false;
}

-- The end state of a term: the `set` part of an update, and a create.
pub record TermSpec : Type 0 where
  pub slug : Text
  pub name : Text
  pub parent_slug : Text
  pub description : Text
  pub sort_order : ℕ

pub record Update : Type 0 where
  pub term_id : ℕ
  pub expected_slug : Text
  pub public_slug : Text
  pub set : TermSpec
  pub changed : Changed

pub data Reason : Type 0 where
  merge : Reason
  delete : Reason
  excluded : Reason

pub record Delete : Type 0 where
  pub term_id : ℕ
  pub expected_slug : Text
  pub public_slug : Text
  pub reason : Reason
