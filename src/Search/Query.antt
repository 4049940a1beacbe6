-- ===== src/Search/Query.antt =====
-- `Search` of a `SearchBox` in docs/html/search/search.js, and the handlers that call it:
-- `OnSelectItem` and `OnSearchSelectKey`.
pub mod Laws
use parse_embedded_sdks.Base.{
  ℕ, zero, suc, ◌+◌, ◌-◌, Bool, true, false, not, ◌&&◌, ◌||◌, Option, none, some, List, [], ◌∷◌,
  ◌++◌, Bytes, codes, get_elem?, take, ltb, leb, ◌==◌, if◌then◌else◌,
}
use parse_embedded_sdks.Search.Ids.{to_hex, same_text, starts_with}
use parse_embedded_sdks.Search.Results.{strip_leading}
use parse_embedded_sdks.Search.Box.{
  SearchBox, Config, Language, Effect, focus_field, remove_blanks, select_item_count,
  select_item_set, close_selection_window,
}

abbrev pub one_more : Option ℕ → Option ℕ
one_more none = none
one_more (some i) = some (suc i)

-- `indexOf`.
abbrev pub index_of : (part text : Bytes) → Option ℕ
index_of part [] = if starts_with part [] then some 0 else none
index_of part (c ∷ text) =
    if starts_with part (c ∷ text) then some 0 else one_more (index_of part text)

-- `0xD800 <= code && code <= 0xDBFF`, of the first code unit.
abbrev pub is_high_surrogate : Bytes → Bool
is_high_surrogate [] = false
is_high_surrogate (c ∷ s) = leb 55296 c && leb c 56319

-- `idxChar`.
abbrev pub index_char : Language → Bytes → Bytes
index_char lang value =
    if is_high_surrogate (lang.to_lower_case value) && lang.above_one value
    then take 2 value
    else lang.to_lower_case (take 1 value)

-- A text that is `undefined` in a concatenation.
abbrev pub or_undefined : Option Bytes → Bytes
or_undefined none = codes "undefined"
or_undefined (some s) = s

-- `resultsPage` and `resultsPageWithSearch`, by the position in the section's contents.
abbrev pub results_page : Language → Config → ℕ → Bytes → Option ℕ → Bytes × Bytes
results_page lang cfg section value none =
    let page = cfg.results_path ++ codes "/nomatches.html" in (page, page)
results_page lang cfg section value (some i) =
    let name = or_undefined (get_elem? cfg.section_names section) in
    let page = cfg.results_path ++ codes "/" ++ name ++ codes "_" ++ to_hex i ++ codes ".html" in
    (page, page ++ codes "?" ++ lang.escape value)

-- The end of `Search`: the frame's address, the windows, and what is remembered.
abbrev pub show_results : Bytes → Bytes × Bytes → SearchBox → SearchBox
show_results value pages box = record box {
  key_timeout = 0;
  location = pages.1;
  close_shown = if box.results_block then box.close_shown else true;
  results_block = true;
  last_search_value = value;
  last_results_page = pages.0;
}

-- `Search`, by the contents of the section; `none` is the fault of `indexOf` on `undefined`.
abbrev search_in : Language → Config → SearchBox → Option Bytes → Option SearchBox
search_in lang cfg box none = none
search_in lang cfg box (some contents) =
    let value = strip_leading box.field in
    let pages =
      results_page lang cfg box.search_index value (index_of (index_char lang value) contents) in
    some (show_results value pages box)

unfoldable pub search : Language → Config → SearchBox → Option SearchBox
search lang cfg box = search_in lang cfg box (get_elem? cfg.section_contents box.search_index)

-- `OnSelectItem`.
unfoldable pub on_select_item : Language → Config → ℕ → SearchBox → Option SearchBox
unfolding search
on_select_item lang cfg id box =
    let box' = record box {
      search_index = id;
      select_items = select_item_set id 0 box.select_items;
    } in
    let searched = search lang cfg box' in
    if not (same_text (remove_blanks box.field) []) && box.search_active
    then searched
    else some box'

abbrev pub then_close : Option SearchBox → Option (SearchBox × List Effect)
then_close none = none
then_close (some box) = some (close_selection_window box, focus_field ∷ [])

abbrev pub without_effects : Option SearchBox → Option (SearchBox × List Effect)
without_effects none = none
without_effects (some box) = some (box, [])

-- `OnSearchSelectKey`.
unfoldable pub on_search_select_key :
    Language → Config → ℕ → SearchBox → Option (SearchBox × List Effect)
unfolding on_select_item
on_search_select_key lang cfg key box =
    if key == 40 && ltb box.search_index (select_item_count box.select_items)
    then without_effects (on_select_item lang cfg (box.search_index + 1) box)
    else if key == 38 && ltb 0 box.search_index
    then without_effects (on_select_item lang cfg (box.search_index - 1) box)
    else if key == 13 || key == 27
    then then_close (on_select_item lang cfg box.search_index box)
    else some (box, [])
