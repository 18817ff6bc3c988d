-- ===== src/Planner/Redirects/Laws.antt =====
-- Which public URLs of blog 1 are redirected, and where to (logo-admin/categories_planner.py).
use mathlib.Core.List.{append_cancel_left, append_cancel_right}
use arb_data_warehouse.Prelude.{
  Dict, Option, Option-cases, Text, arith, inl, inr, some, text, ◌++◌, ◌↔◌, ◌≡◌, ◌≢◌, nat_eq,
  text_eq, pair_eq,
}
use arb_data_warehouse.Planner.Types.{Delete, Reason}
use arb_data_warehouse.Planner.Redirects.{
  category_base, category_path, delete_path, deleted_redirect_path, merge_target,
}

category_path-injective : (s t : Text) → category_path s ≡ category_path t → s ≡ t
unfolding category_path
category_path-injective s t h =
    append_cancel_right s t (text "/")
      (append_cancel_left category_base (s ++ text "/") (t ++ text "/") h)

category_path-ne-store : (s : Text) → category_path s ≢ deleted_redirect_path
unfolding category_path
category_path-ne-store s h = cc

-- A deleted term's URL is redirected to itself exactly if the delete is a merge into the very slug
-- that the term has.
pub self_redirect_iff :
    (targets : Dict Text (Option Text)) (d : Delete)
    → (delete_path targets d ≡ category_path d.public_slug)
      ↔ ((d.reason ≡ Reason.merge) × (merge_target targets d.public_slug ≡ some d.public_slug))
self_redirect_iff targets d = (there, back)
  where
    there :
        delete_path targets d ≡ category_path d.public_slug
        → (d.reason ≡ Reason.merge) × (merge_target targets d.public_slug ≡ some d.public_slug)
    there h = elim (Option-cases (merge_target targets d.public_slug)) [
      | inl e ↦ absurd (unfold delete_path in ground (arith, category_path-ne-store d.public_slug))
      | inr (s, e) ↦
          unfold delete_path in
          ground
            (arith, category_path-ne-store d.public_slug, category_path-injective s d.public_slug)
    ]

    back :
        (d.reason ≡ Reason.merge) × (merge_target targets d.public_slug ≡ some d.public_slug)
        → delete_path targets d ≡ category_path d.public_slug
    back h = unfold delete_path in ground arith
