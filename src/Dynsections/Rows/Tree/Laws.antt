-- ===== src/Dynsections/Rows/Tree/Laws.antt =====
-- toggleFolder on the rows of a tree.
use mathlib.Core.List.{map}
use parse_embedded_sdks.Base.{
  ◌≡◌, refl, ap, ap₂, ◌∙◌, true, not, ◌&&◌, ◌||◌, Bool-cases, inl, inr, List, [], ◌∷◌, ◌++◌, codes,
  if◌then◌else◌,
}
use parse_embedded_sdks.Search.Site.{drop_prefix}
use parse_embedded_sdks.Dynsections.Jquery.{Jquery, IsJquery}
use parse_embedded_sdks.Dynsections.Rows.{Row, is_child, is_one_level, toggle_folder}
use parse_embedded_sdks.Dynsections.Rows.Stripes.{is_striped}
use parse_embedded_sdks.Dynsections.Rows.Folder.{
  view, first_view, close_view, open_view, fold_view, toggle_folder-fold_view,
}
use parse_embedded_sdks.Dynsections.Rows.Tree.{
  TreePath, path_id, same_path, is_child_path, TreeView, row_view, first_child_shows, close_node,
  open_node, fold_tree,
}
use parse_embedded_sdks.Dynsections.Rows.Tree.Ids.{
  is_child-path_id, is_below-path_id, same_text-path_id, lower-path_id,
}

is_child_row :
    (p q : TreePath) → is_child (path_id p) (codes "row_" ++ path_id q) ≡ is_child_path p q
is_child_row p q =
    ap₂ (λ a b. is_one_level (drop_prefix (codes "row_" ++ a) (codes "row_" ++ b)))
      (lower-path_id p) (lower-path_id q)
    ∙ is_child-path_id p q

first_view-row_view :
    (p : TreePath) (rows : List TreeView)
    → first_view (path_id p) (map row_view rows) ≡ first_child_shows p rows
first_view-row_view p [] = refl
first_view-row_view p (t ∷ rows) =
    ap₂ (λ b rest. if b then t.1 else rest) (is_child_row p t.0) (first_view-row_view p rows)

close_rows :
    (p : TreePath) (rows : List TreeView)
    → map (close_view (path_id p)) (map row_view rows) ≡ map row_view (map (close_node p) rows)
close_rows p [] = refl
close_rows p (t ∷ rows) =
    ap₂ (λ b rest. (codes "row_" ++ path_id t.0, t.1 && not b) ∷ rest) (is_below-path_id p t.0)
      (close_rows p rows)

open_rows :
    (p : TreePath) (rows : List TreeView)
    → map (open_view (path_id p)) (map row_view rows) ≡ map row_view (map (open_node p) rows)
open_rows p [] = refl
open_rows p (t ∷ rows) =
    ap₂ (λ b rest. (codes "row_" ++ path_id t.0, t.1 || b) ∷ rest) (is_child_row p t.0)
      (open_rows p rows)

fold_view-row_view :
    (p : TreePath) (rows : List TreeView)
    → fold_view (path_id p) (map row_view rows) ≡ map row_view (fold_tree p rows)
fold_view-row_view p [] = refl
fold_view-row_view p (t ∷ rows) = elim (Bool-cases (same_path t.0 p)) [
  | inl e ↦ elim (Bool-cases (first_child_shows p rows)) [
    | inl k ↦
        rw (same_text-path_id t.0 p, e, first_view-row_view p rows, k)
          (ap (λ l. row_view t ∷ l) (close_rows p rows))
    | inr k ↦
        rw (same_text-path_id t.0 p, e, first_view-row_view p rows, k)
          (ap (λ l. row_view t ∷ l) (open_rows p rows))
  ]
  | inr e ↦ rw (same_text-path_id t.0 p, e) (ap (λ l. row_view t ∷ l) (fold_view-row_view p rows))
]

-- toggleFolder folds the tree. On the rows of a tree, in any order and each visible or not, a click on
-- a folder hides just the rows below it where the first of its children behind it is visible, and else
-- shows just its children; rows in front of the folder do not change. The visible rows are striped
-- afterwards.
pub toggle_folder-fold_tree :
    (jq : Jquery) (p : TreePath) (rows : List Row) (tree : List TreeView)
    → IsJquery jq
    → map (view jq) rows ≡ map row_view tree
    → (map (view jq) (toggle_folder jq (path_id p) rows) ≡ map row_view (fold_tree p tree))
      × (is_striped jq true (toggle_folder jq (path_id p) rows) ≡ true)
toggle_folder-fold_tree jq p rows tree laws h =
    let (folded, striped) = toggle_folder-fold_view jq laws (path_id p) rows in
    (folded ∙ ap (fold_view (path_id p)) h ∙ fold_view-row_view p tree, striped)
