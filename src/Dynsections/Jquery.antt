-- ===== src/Dynsections/Jquery.antt =====
-- What docs/html/dynsections.js calls of jQuery, on the attributes of an element: the display of its style,
-- and its classes.
use parse_embedded_sdks.Base.{◌≡◌, Bool, true, false, not, ◌&&◌, ◌||◌, List, Bytes, codes}
use parse_embedded_sdks.Search.Ids.{same_text}

pub record Jquery : Type 0 where
  pub is_visible : Bytes → Bool
  pub show : Bytes → Bytes
  pub hide : Bytes → Bytes
  pub has_class : Bytes → List Bytes → Bool
  pub add_class : Bytes → List Bytes → List Bytes
  pub remove_class : Bytes → List Bytes → List Bytes

-- What the calls do, for elements in a visible part of the page.
pub record IsJquery (jq : Jquery) : Type 0 where
  pub show_lem : (d : Bytes) → jq.is_visible (jq.show d) ≡ true
  pub hide_lem : (d : Bytes) → jq.is_visible (jq.hide d) ≡ false
  pub none_lem : jq.is_visible (codes "none") ≡ false
  pub table_row_lem : jq.is_visible (codes "table-row") ≡ true
  pub add_class_lem :
      (c d : Bytes) (cs : List Bytes)
      → jq.has_class c (jq.add_class d cs) ≡ same_text c d || jq.has_class c cs
  pub remove_class_lem :
      (c d : Bytes) (cs : List Bytes)
      → jq.has_class c (jq.remove_class d cs) ≡ not (same_text c d) && jq.has_class c cs
