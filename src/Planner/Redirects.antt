-- ===== src/Planner/Redirects.antt =====
-- The redirects of build_blog_plan (logo-admin/categories_planner.py): blog 1 only, one for each
-- public URL that stops resolving.
pub mod Laws
use arb_data_warehouse.Prelude.{
  Bool, Dict, List, Option, Text, [], if◌then◌else◌, is_empty, lookup, none, not, some, text, ℕ,
  ◌&&◌, ◌++◌, ◌/◌, ◌==◌, ◌∷◌, nat_eq, text_eq, pair_eq,
}
use arb_data_warehouse.Planner.Types.{Delete, Reason, Update, merge}

abbrev pub category_base : Text
category_base = text "/product-category/"

abbrev pub deleted_redirect_path : Text
deleted_redirect_path = text "/store/"

pub record Redirect : Type 0 where
  pub old_path : Text
  pub new_path : Text

unfoldable pub category_path : Text → Text
category_path slug = category_base ++ (slug ++ text "/")

-- The public URL moves: the slug changes, and not only from a parked slug back to itself.
unfoldable pub moves_url : Update → Bool
moves_url u = u.changed.slug && not (u.public_slug == u.set.slug)

unfoldable pub update_redirects : List Update → List Redirect
update_redirects [] = []
update_redirects (u ∷ us) =
    let rest = update_redirects us in
    if moves_url u
    then record { old_path = category_path u.public_slug; new_path = category_path u.set.slug }
      ∷ rest
    else rest

-- `merge_target_slug.get(slug)` where it is true in a test.
unfoldable pub merge_target : Dict Text (Option Text) → Text → Option Text
merge_target targets slug = elim (lookup slug targets) [
  | some (some s) ↦ if is_empty s then none else some s
  | _ ↦ none
]

-- A merge leads to its target, all other deletes to the store page.
unfoldable pub delete_path : Dict Text (Option Text) → Delete → Text
delete_path targets d = elim d.reason [
  | Reason.merge ↦ elim (merge_target targets d.public_slug) [
    | some s ↦ category_path s
    | none ↦ deleted_redirect_path
  ]
  | _ ↦ deleted_redirect_path
]

unfoldable pub delete_redirects : Dict Text (Option Text) → List Delete → List Redirect
delete_redirects targets [] = []
delete_redirects targets (d ∷ ds) =
    record { old_path = category_path d.public_slug; new_path = delete_path targets d }
    ∷ delete_redirects targets ds

unfoldable pub redirects_of :
    ℕ → List Update → List Delete → Dict Text (Option Text) → List Redirect
redirects_of blog_id updates deletes targets =
    if blog_id == 1 then update_redirects updates ++ delete_redirects targets deletes else []
