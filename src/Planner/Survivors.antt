-- ===== src/Planner/Survivors.antt =====
-- _elect_survivors of logo-admin/categories_planner.py: for each node the live term that stays.
pub mod Laws
use arb_data_warehouse.Prelude.{
  Bool, Dict, List, Option, Text, [], false, if◌then◌else◌, insert, is_empty, keep_if, lookup, ltb,
  none, not, or_else, some, ℕ, ◌&&◌, ◌++◌, ◌==◌, ◌∷◌, nat_eq, text_eq, pair_eq,
}
use arb_data_warehouse.Planner.Types.{Action, Desired, Disposition, Term, logical, map_to}

-- The node that a term's slug maps to.
abbrev pub node_of_action : Action → Option ℕ
node_of_action (map_to n) = some n
node_of_action _ = none

abbrev pub node_of : Dict Text Disposition → Term → Option ℕ
node_of dispositions t = elim (lookup (logical t) dispositions) [
  | none ↦ none
  | some d ↦ node_of_action d.action
]

-- `candidates.setdefault(node_id, []).append(term)`
unfoldable pub add_candidate : ℕ → Term → Dict ℕ (List Term) → Dict ℕ (List Term)
add_candidate n t c = elim (lookup n c) [
  | none ↦ insert n (t ∷ []) c
  | some ts ↦ insert n (ts ++ t ∷ []) c
]

unfoldable pub candidate_step :
    Dict Text Disposition → Dict ℕ (List Term) → Term → Dict ℕ (List Term)
candidate_step dispositions c t = elim (node_of dispositions t) [
  | none ↦ c
  | some n ↦ add_candidate n t c
]

unfoldable pub candidates_from :
    Dict Text Disposition → Dict ℕ (List Term) → List Term → Dict ℕ (List Term)
candidates_from dispositions c [] = c
candidates_from dispositions c (t ∷ terms) =
    candidates_from dispositions (candidate_step dispositions c t) terms

-- A primary that an operator chose.
abbrev pub is_explicit : Dict Text Disposition → Term → Bool
is_explicit dispositions t = elim (lookup (logical t) dispositions) [
  | none ↦ false
  | some d ↦ d.is_primary && not d.implicit
]

-- The term that already carries the node's final slug.
abbrev pub is_identity : Option Desired → Term → Bool
is_identity none t = false
is_identity (some d) t = not (is_empty d.slug) && logical t == d.slug

-- `explicit or identity or live`
unfoldable pub pool : Dict Text Disposition → Option Desired → List Term → List Term
pool dispositions desired live =
    or_else (keep_if (is_explicit dispositions) live)
      (or_else (keep_if (is_identity desired) live) live)

-- `min(pool, key=lambda t: t["term_id"])["term_id"]`, with the first term apart.
unfoldable pub least_id : ℕ → List Term → ℕ
least_id m [] = m
least_id m (t ∷ ts) = least_id (if ltb t.term_id m then t.term_id else m) ts

-- `candidates` holds no empty list, so the empty pool does not arise.
unfoldable pub winner : List Term → Option ℕ
winner [] = none
winner (t ∷ ts) = some (least_id t.term_id ts)

-- `survivors.get(node_id)`
unfoldable pub survivor : Dict Text Disposition → Dict ℕ Desired → List Term → ℕ → Option ℕ
survivor dispositions kept terms n = elim (lookup n (candidates_from dispositions [] terms)) [
  | none ↦ none
  | some live ↦ winner (pool dispositions (lookup n kept) live)
]
