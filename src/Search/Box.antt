-- ===== src/Search/Box.antt =====
-- `SearchBox` of docs/html/search/search.js: the search panel of a documentation page. What the
-- language does is a parameter (`toLowerCase`, `escape`, and the comparison of a text with 1); the
-- identifier that `setTimeout` returns is an argument. Positions and widths on the screen are those of
-- Search/Windows. An outcome is `fault` where the source reads a property of `undefined`.
pub mod Timers
pub mod Laws
use parse_embedded_sdks.Base.{
  ℕ, zero, suc, ◌+◌, ◌-◌, Bool, true, false, not, ◌&&◌, ◌||◌, Option, none, some, List, [], ◌∷◌,
  ◌++◌, Bytes, codes, get_elem?, length, ltb, leb, ◌==◌, if◌then◌else◌,
}
use parse_embedded_sdks.Search.Ids.{to_hex, same_text}
use parse_embedded_sdks.Search.Results.{strip_leading}

-- A child of the selection window: whether its class is `SelectItem`, and whether it is marked.
pub record SelectChild : Type 0 where
  pub is_item : Bool
  pub is_marked : Bool

-- The fields of a `SearchBox`, and the elements of the page that it changes: the text of the field,
-- the class of the box, which windows are displayed, the address of the results frame.
pub record SearchBox : Type 0 where
  pub key_timeout : ℕ
  pub hide_timeout : ℕ
  pub last_search_value : Bytes
  pub last_results_page : Bytes
  pub search_index : ℕ
  pub search_active : Bool
  pub field : Bytes
  pub box_active : Bool
  pub results_block : Bool
  pub close_shown : Bool
  pub select_shown : Bool
  pub select_items : List SelectChild
  pub location : Bytes

-- What does not change: the arguments of the constructor, and the tables of search/searchdata.js.
pub record Config : Type 0 where
  pub results_path : Bytes
  pub search_label : Bytes
  pub section_contents : List Bytes
  pub section_names : List Bytes

-- `toLowerCase`, `escape`, and `text > 1`.
pub record Language : Type 0 where
  pub to_lower_case : Bytes → Bytes
  pub escape : Bytes → Bytes
  pub above_one : Bytes → Bool

-- What a handler does outside. A timeout is set for the given number of milliseconds.
pub data Effect : Type 0 where
  clear_timeout set_search_timeout set_close_timeout focus_select_item : ℕ → Effect
  blur_field focus_field focus_first_result : Effect

-- `this.keyTimeoutLength` and `this.closeSelectionTimeout`.
abbrev pub key_timeout_length : ℕ
key_timeout_length = 500

abbrev pub close_selection_timeout : ℕ
close_selection_timeout = 300

-- `replace(/ +/g, "")`.
abbrev pub remove_blanks : Bytes → Bytes
remove_blanks [] = []
remove_blanks (c ∷ s) = if c == b' ' then remove_blanks s else c ∷ remove_blanks s

-- A new `SearchBox` on a page.
abbrev pub search_box : Config → List SelectChild → Bytes → SearchBox
search_box cfg items location = record {
  key_timeout = 0;
  hide_timeout = 0;
  last_search_value = [];
  last_results_page = [];
  search_index = 0;
  search_active = false;
  field = cfg.search_label;
  box_active = false;
  results_block = false;
  close_shown = false;
  select_shown = false;
  select_items = items;
  location = location;
}

-- `Activate`.
unfoldable pub activate : Config → Bool → SearchBox → SearchBox
activate cfg is_active box =
    let is_label = same_text box.field cfg.search_label in
    if is_active || box.results_block
    then record box {
      box_active = true;
      field = if is_label then [] else box.field;
      search_active = if is_label then true else box.search_active;
    }
    else record box {
      box_active = false;
      field = cfg.search_label;
      search_active = false;
      last_search_value = [];
      last_results_page = [];
    }

-- `OnSearchSelectShow`.
unfoldable pub on_search_select_show : SearchBox → SearchBox × List Effect
on_search_select_show box =
    if box.hide_timeout == 0
    then (record box { select_shown = true }, [])
    else (record box { select_shown = true; hide_timeout = 0 }, clear_timeout box.hide_timeout ∷ [])

-- `OnSearchSelectHide`, with the identifier of the new timeout.
unfoldable pub on_search_select_hide : ℕ → SearchBox → SearchBox × List Effect
on_search_select_hide timer box =
    (record box { hide_timeout = timer }, set_close_timeout close_selection_timeout ∷ [])

-- `CloseResultsWindow` and `CloseSelectionWindow`.
unfoldable pub close_results_window : Config → SearchBox → SearchBox
unfolding activate
close_results_window cfg box =
    activate cfg false (record box { results_block = false; close_shown = false })

abbrev pub close_selection_window : SearchBox → SearchBox
close_selection_window box = record box { select_shown = false }

-- The first child of class `SelectItem`, from an index on.
abbrev pub first_item : ℕ → List SelectChild → Option ℕ
first_item i [] = none
first_item i (c ∷ children) = if c.is_item then some i else first_item (i + 1) children

abbrev pub focus_select : Option ℕ → List Effect
focus_select none = []
focus_select (some i) = focus_select_item i ∷ []

-- The end of `OnSearchFieldChange`, from the text of the field on.
unfoldable pub text_changed : ℕ → SearchBox → SearchBox × List Effect
text_changed timer box =
    let value = remove_blanks box.field in
    if same_text value box.last_search_value
    then (box, [])
    else if not (same_text value [])
    then (record box { key_timeout = timer }, set_search_timeout key_timeout_length ∷ [])
    else (record box { results_block = false; close_shown = false; last_search_value = [] }, [])

-- Effects in front of those of a handler.
abbrev pub preceded : List Effect → SearchBox × List Effect → SearchBox × List Effect
preceded effects (box, later) = (box, effects ++ later)

-- `OnSearchFieldChange` behind the timer, by the key and the shift key, and whether the results frame
-- holds a page of results.
unfoldable pub field_key : Config → ℕ → Bool → Bool → ℕ → SearchBox → SearchBox × List Effect
unfolding text_changed activate on_search_select_show
field_key cfg key shift has_results timer box =
    if key == 40 || key == 13
    then (if shift
        then (let (box', effects) = on_search_select_show box in
            (box', effects ++ focus_select (first_item 0 box'.select_items)))
        else preceded (if has_results then focus_first_result ∷ [] else [])
            (text_changed timer box))
    else if key == 27
    then (
      activate cfg false
          (record box { results_block = false; close_shown = false; last_search_value = [] }),
      blur_field ∷ [],
    )
    else text_changed timer box

-- `OnSearchFieldChange`.
unfoldable pub on_search_field_change :
    Config → ℕ → Bool → Bool → ℕ → SearchBox → SearchBox × List Effect
unfolding field_key
on_search_field_change cfg key shift has_results timer box =
    if box.key_timeout == 0
    then field_key cfg key shift has_results timer box
    else preceded (clear_timeout box.key_timeout ∷ [])
        (field_key cfg key shift has_results timer (record box { key_timeout = 0 }))

-- `SelectItemCount`.
abbrev pub select_item_count : List SelectChild → ℕ
select_item_count [] = 0
select_item_count (c ∷ children) =
    if c.is_item then select_item_count children + 1 else select_item_count children

-- `SelectItemSet`, with `j`.
abbrev pub select_item_set : ℕ → ℕ → List SelectChild → List SelectChild
select_item_set id j [] = []
select_item_set id j (c ∷ children) =
    if c.is_item
    then record c { is_marked = j == id } ∷ select_item_set id (j + 1) children
    else c ∷ select_item_set id j children
