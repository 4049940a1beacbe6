-- ===== src/Dynsections/Rows/Tree.antt =====
-- A directory's table as a tree: the rows have the ids `row_` with the numbers on the path to them, an
-- underscore behind each.
pub mod Ids
pub mod Laws
use mathlib.Core.List.{map}
use parse_embedded_sdks.Base.{
  lower, lower_unit, ℕ, suc, ◌+◌, ◌≤◌, ◌≡◌, ◌≢◌, refl, sym, ap, ap₂, ◌∙◌, Bool, true, false, not,
  ◌&&◌, ◌||◌, Bool-cases, inl, inr, Option, none, some, List, [], ◌∷◌, ◌++◌, Bytes, codes, All, leb,
  ◌==◌, ==_refl, ne→==, if◌then◌else◌, and_split, arith,
}
use parse_embedded_sdks.Search.Ids.{same_text, same_text_eq}
use parse_embedded_sdks.Search.Site.{drop_prefix}
use parse_embedded_sdks.Search.Page.{decimal}
use parse_embedded_sdks.Search.Page.Decimal.{
  IsDigit, decimal-IsDigit, decimal-inj, decimal-ne-nil, append-ne-nil,
}
use parse_embedded_sdks.Dynsections.Jquery.{Jquery, IsJquery}
use parse_embedded_sdks.Dynsections.Rows.{
  Row, is_child, is_below, is_some, is_one_level, digits_end, toggle_folder,
}
use parse_embedded_sdks.Dynsections.Rows.Stripes.{is_striped}
use parse_embedded_sdks.Dynsections.Rows.Folder.{
  View, view, first_view, close_view, open_view, fold_view, toggle_folder-fold_view,
}

abbrev pub TreePath : Type 0
TreePath = List ℕ

abbrev pub path_id : TreePath → Bytes
path_id [] = []
path_id (n ∷ p) = decimal n ++ b'_' ∷ path_id p

-- The tree's own notions: the children of a node, and all nodes below it.
abbrev pub same_path : TreePath → TreePath → Bool
same_path [] [] = true
same_path [] (n ∷ q) = false
same_path (m ∷ p) [] = false
same_path (m ∷ p) (n ∷ q) = (m == n) && same_path p q

abbrev pub is_child_path : TreePath → TreePath → Bool
is_child_path [] [] = false
is_child_path [] (n ∷ []) = true
is_child_path [] (n ∷ k ∷ q) = false
is_child_path (m ∷ p) [] = false
is_child_path (m ∷ p) (n ∷ q) = (m == n) && is_child_path p q

abbrev pub is_below_path : TreePath → TreePath → Bool
is_below_path [] q = true
is_below_path (m ∷ p) [] = false
is_below_path (m ∷ p) (n ∷ q) = (m == n) && is_below_path p q

-- The rows of a tree, each with whether it is visible.
abbrev pub TreeView : Type 0
TreeView = TreePath × Bool

abbrev pub row_view : TreeView → View
row_view t = (codes "row_" ++ path_id t.0, t.1)

abbrev pub first_child_shows : TreePath → List TreeView → Bool
first_child_shows p [] = false
first_child_shows p (t ∷ rows) = if is_child_path p t.0 then t.1 else first_child_shows p rows

abbrev pub close_node : TreePath → TreeView → TreeView
close_node p t = (t.0, t.1 && not (is_below_path p t.0))

abbrev pub open_node : TreePath → TreeView → TreeView
open_node p t = (t.0, t.1 || is_child_path p t.0)

-- The folder's row is the first with its path. A folder closes with all that is below it, where its
-- first child is visible, and else opens with its children alone.
abbrev pub fold_tree : TreePath → List TreeView → List TreeView
fold_tree p [] = []
fold_tree p (t ∷ rows) =
    let rest = fold_tree p rows in
    if same_path t.0 p
    then t ∷ (if first_child_shows p rows then map (close_node p) rows else map (open_node p) rows)
    else t ∷ rest
