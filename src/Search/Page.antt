-- ===== src/Search/Page.antt =====
-- The elements of the search pages: `createResults`, `init_search` and `FindChildElement` of
-- docs/html/search/search.js.
pub mod Laws
pub mod Decimal
use parse_embedded_sdks.Base.{
  ℕ, zero, suc, ◌+◌, ◌/◌, ◌%◌, Bool, true, false, ◌&&◌, Option, none, some, List, [], ◌∷◌, ◌++◌,
  Bytes, codes, ltb, if◌then◌else◌,
}
use parse_embedded_sdks.Search.Ids.{same_text}
use parse_embedded_sdks.Search.Box.{SelectChild, SearchBox, Config, Language}
use parse_embedded_sdks.Search.Query.{on_select_item}

mutual
  -- An element: its tag, its attributes in the order of their setting, its `innerHTML` where that is
  -- set, and its children.
  pub data Element : Type 0 where
    element : Bytes → List (Bytes × Bytes) → Bytes → Elements → Element

  pub data Elements : Type 0 where
    no_more : Elements
    more : Element → Elements → Elements

-- A number in a concatenation. The digits are fewer than the number and one.
decimal_digits : ℕ → ℕ → Bytes
decimal_digits zero n = []
decimal_digits (suc fuel) n =
    let rest = decimal_digits fuel (n / 10) in
    (if ltb n 10 then [] else rest) ++ (b'0' + n % 10) ∷ []

unfoldable pub decimal : ℕ → Bytes
unfolding decimal_digits
decimal n = decimal_digits (n + 1) n

-- A place of a search entry: `[url, in the parent frame or not, scope]`.
pub record Place : Type 0 where
  pub url : Bytes
  pub in_parent : Bool
  pub scope : Bytes

-- An entry of `searchData`: `[id, [label, place, ...]]`.
pub record SearchEntry : Type 0 where
  pub id : Bytes
  pub label : Bytes
  pub places : List Place

-- `setKeyActions` and `setClassAttr`.
abbrev pub key_actions : Bytes → List (Bytes × Bytes)
key_actions action =
    (codes "onkeydown", action) ∷ (codes "onkeypress", action) ∷ (codes "onkeyup", action) ∷ []

abbrev pub class_attr : Bytes → List (Bytes × Bytes)
class_attr attr = (codes "class", attr) ∷ (codes "className", attr) ∷ []

abbrev target_attr : Bool → List (Bytes × Bytes)
target_attr true = (codes "target", codes "_parent") ∷ []
target_attr false = []

unfoldable pub item_id : ℕ → Bytes
item_id e = codes "Item" ++ decimal e

-- The links of several results, from the index `c` on.
unfoldable pub create_children : ℕ → ℕ → List Place → Elements
create_children e c [] = no_more
create_children e c (p ∷ places) =
    more
      (element (codes "a")
        (((codes "id", item_id e ++ codes "_c" ++ decimal c) ∷ [])
          ++ key_actions (
              codes "return searchResults.NavChild(event,"
              ++ decimal e
              ++ codes ","
              ++ decimal c
              ++ codes ")")
          ++ class_attr (codes "SRScope")
          ++ (codes "href", p.url) ∷ target_attr p.in_parent)
        p.scope no_more)
      (create_children e (c + 1) places)

abbrev pub children_div : ℕ → List Place → Element
children_div e places =
    element (codes "div") (class_attr (codes "SRChildren")) [] (create_children e 0 places)

-- The link `srLink`, with its last attributes.
unfoldable pub create_link : ℕ → Bytes → List (Bytes × Bytes) → Element
create_link e label attrs =
    element (codes "a")
      (((codes "id", item_id e) ∷ [])
        ++ key_actions (codes "return searchResults.Nav(event," ++ decimal e ++ codes ")")
        ++ class_attr (codes "SRSymbol")
        ++ attrs)
      label no_more

-- What stands in `srEntry`: a single result, or several.
unfoldable pub entry_elements : ℕ → Bytes → Bytes → List Place → Elements
entry_elements e id label (p ∷ []) =
    more (create_link e label ((codes "href", p.url) ∷ target_attr p.in_parent))
      (more (element (codes "span") (class_attr (codes "SRScope")) p.scope no_more) no_more)
entry_elements e id label places =
    more
      (create_link e label
        ((codes "href", codes "javascript:searchResults.Toggle(\"SR_" ++ id ++ codes "\")") ∷ []))
      (more (children_div e places) no_more)

-- `srResult` of the entry at the index `e`.
unfoldable pub create_result : ℕ → SearchEntry → Element
create_result e entry =
    element (codes "div") ((codes "id", codes "SR_" ++ entry.id) ∷ class_attr (codes "SRResult")) []
      (more
        (element (codes "div") (class_attr (codes "SREntry")) []
          (entry_elements e entry.id entry.label entry.places))
        no_more)

-- `createResults`, from the index `e` on.
unfoldable pub create_results : ℕ → List SearchEntry → Elements
create_results e [] = no_more
create_results e (entry ∷ entries) = more (create_result e entry) (create_results (e + 1) entries)

-- The class that a list of attributes sets.
abbrev class_name : List (Bytes × Bytes) → Bytes
class_name [] = []
class_name ((name, value) ∷ attrs) =
    if same_text name (codes "class") then value else class_name attrs

abbrev pub or_else : Option Element → Option Element → Option Element
or_else (some e) o = some e
or_else none o = o

-- `FindChildElement` below an element, whose children are given: the walk in the order of the page,
-- into the `div` elements only, to the first `div` of class `SRChildren`.
unfoldable pub find_child_element : Elements → Option Element
find_child_element no_more = none
find_child_element (more (element tag attrs html children) siblings) =
    let is_div = same_text tag (codes "div") in
    let inside = find_child_element children in
    let behind = find_child_element siblings in
    if is_div && same_text (class_name attrs) (codes "SRChildren")
    then some (element tag attrs html children)
    else if is_div
    then or_else inside behind
    else behind

abbrev pub children_of : Element → Elements
children_of (element tag attrs html children) = children

-- The link of a filter, by its key and its label in `indexSectionLabels`.
abbrev pub select_link : Bytes × Bytes → Element
select_link (key, label) =
    element (codes "a")
      ((codes "class", codes "SelectItem")
        ∷ (codes "onclick", codes "searchBox.OnSelectItem(" ++ key ++ codes ")")
        ∷ (codes "href", codes "javascript:void(0)")
        ∷ [])
      (codes "<span class=\"SelectionMark\">&#160;</span>" ++ label) no_more

-- What the panel reads of a link, before it sets marks.
abbrev pub select_child : Element → SelectChild
select_child (element tag attrs html children) = record {
  is_item = same_text (class_name attrs) (codes "SelectItem");
  is_marked = false;
}

-- The links of the selection window, as the panel sees them.
abbrev pub select_links : List (Bytes × Bytes) → List SelectChild
select_links [] = []
select_links (l ∷ labels) = select_child (select_link l) ∷ select_links labels

-- `init_search`.
unfoldable pub init_search : Language → Config → List (Bytes × Bytes) → SearchBox → Option SearchBox
init_search lang cfg labels box =
    on_select_item lang cfg 0
      (record box { select_items = box.select_items ++ select_links labels })
