-- ===== src/Search/Windows.antt =====
-- Where the panel puts its windows: getXPos and getYPos, the elements of a SearchBox, its
-- OnSearchFieldFocus, and the positions that OnSearchSelectShow and Search set, of
-- docs/html/search/search.js. Positions are in pixels; what the browser lays out is given with an
-- element.
use parse_embedded_sdks.Base.{
  ℕ, ◌+◌, Bool, true, false, Option, some, List, [], ◌∷◌, Bytes, codes, ◌==◌, if◌then◌else◌, ℤ, pos,
  ◌+ℤ◌, ◌-ℤ◌,
}
use parse_embedded_sdks.Search.Ids.{same_text}
use parse_embedded_sdks.Search.Box.{SearchBox, Config, activate}

-- The elements that a `SearchBox` looks up.
pub data PanelElement : Type 0 where
  search_field search_select search_select_window popup_search_results : PanelElement
  popup_search_results_window search_close search_box : PanelElement

-- The id by which `document.getElementById` finds an element.
abbrev pub element_id : PanelElement → Bytes
element_id search_field = codes "MSearchField"
element_id search_select = codes "MSearchSelect"
element_id search_select_window = codes "MSearchSelectWindow"
element_id popup_search_results = codes "MSearchResults"
element_id popup_search_results_window = codes "MSearchResultsWindow"
element_id search_close = codes "MSearchClose"
element_id search_box = codes "MSearchBox"

-- The size of an element, and `offsetLeft` and `offsetTop` of it and of its offset parents up to the
-- body.
pub record Laid : Type 0 where
  pub offset_width : ℕ
  pub offset_height : ℕ
  pub offsets : List (ℤ × ℤ)

abbrev sum_left : ℤ → List (ℤ × ℤ) → ℤ
sum_left x [] = x
sum_left x ((left, top) ∷ offsets) = sum_left (x +ℤ left) offsets

abbrev sum_top : ℤ → List (ℤ × ℤ) → ℤ
sum_top y [] = y
sum_top y ((left, top) ∷ offsets) = sum_top (y +ℤ top) offsets

-- `getXPos` and `getYPos`.
abbrev pub get_x_pos : Laid → ℤ
get_x_pos item = if item.offset_width == 0 then pos 0 else sum_left (pos 0) item.offsets

abbrev pub get_y_pos : Laid → ℤ
get_y_pos item = if item.offset_width == 0 then pos 0 else sum_top (pos 0) item.offsets

-- `OnSearchFieldFocus`.
abbrev pub on_search_field_focus : Config → Bool → SearchBox → SearchBox
unfolding activate
on_search_field_focus cfg is_active box = activate cfg is_active box

-- The style of a window, as far as it is set.
pub record Style : Type 0 where
  pub display : Bytes
  pub position : Option Bytes
  pub left : Option ℤ
  pub top : Option ℤ
  pub width : Option ℤ

-- `OnSearchSelectShow`, the position of the selection window.
abbrev pub place_select : (inside_frame : Bool) (field window : Laid) → Style → Style
place_select true field window style = record style {
  display = codes "block";
  left = some ((get_x_pos field +ℤ pos (field.offset_width + 6)) -ℤ window.offset_width);
  top = some (get_y_pos field +ℤ pos field.offset_height);
}
place_select false field window style = record style {
  display = codes "block";
  left = some (get_x_pos field);
  top = some (get_y_pos field +ℤ pos field.offset_height);
}

-- `Search`, the styles of the results window and of the results.
abbrev pub place_results :
    (inside_frame : Bool) (client_width : ℕ) (box results : Laid) → Style × Style → Style × Style
place_results true client_width box results (window, popup) =
    let width = some (pos client_width -ℤ 8) in
    if same_text window.display (codes "block") then (window, popup) else (
      record window { position = some (codes "relative"); display = codes "block"; width = width },
      record popup { width = width },
    )
place_results false client_width box results (window, popup) =
    if same_text window.display (codes "block") then (window, popup) else (
      record window {
        display = codes "block";
        top = some (get_y_pos box +ℤ pos 20);
        left = some ((get_x_pos box +ℤ pos 150) -ℤ results.offset_width);
      },
      popup,
    )
