-- ===== src/Search/Query/Laws.antt =====
-- The filter of the search panel: which one a key selects, and the one past the last.
use parse_embedded_sdks.Base.{
  ℕ, zero, suc, ◌+◌, ◌≤◌, ◌≡◌, refl, ap, ap₂, ◌∙◌, true, false, not, ◌&&◌, Bool-cases, inl, inr,
  none, some, List, [], ◌∷◌, Bytes, get_elem?, length, lt→ltb, ltb, leb, if◌then◌else◌, arith,
}
use parse_embedded_sdks.Search.Ids.{same_text}
use parse_embedded_sdks.Search.Box.{
  SearchBox, SelectChild, Config, Language, remove_blanks, select_item_count, select_item_set,
}
use parse_embedded_sdks.Search.Query.{search, on_select_item, on_search_select_key, without_effects}

-- The number of filters that are marked.
abbrev pub marked_count : List SelectChild → ℕ
marked_count [] = 0
marked_count (c ∷ children) =
    if c.is_item && c.is_marked then marked_count children + 1 else marked_count children

marked_from :
    (id j : ℕ) (children : List SelectChild)
    → marked_count (select_item_set id j children)
      ≡ (if leb j id && ltb id (j + select_item_count children) then 1 else 0)
marked_from id j [] = ground arith
marked_from id j (c ∷ children) = elim (Bool-cases c.is_item) [
  | inl e ↦ rw e (ground (arith, marked_from id (j + 1) children))
  | inr e ↦ rw e (marked_from id j children)
]

-- `SelectItemSet` marks one filter, where the window has the index, and none where it has not.
pub select_item_set-marked :
    (id : ℕ) (children : List SelectChild)
    → marked_count (select_item_set id 0 children)
      ≡ (if ltb id (select_item_count children) then 1 else 0)
select_item_set-marked id children = ground (arith, marked_from id 0 children)

get-behind : (cs : List Bytes) (i : ℕ) → length cs ≤ i → get_elem? cs i ≡ none
get-behind [] i h = refl
get-behind (c ∷ cs) zero h = absurd (omega arith)
get-behind (c ∷ cs) (suc i) h = get-behind cs i (omega arith)

search_behind :
    (lang : Language) (cfg : Config) (box : SearchBox)
    → get_elem? cfg.section_contents box.search_index ≡ none
    → search lang cfg box ≡ none
unfolding search
search_behind lang cfg box h = rw h refl

select_behind :
    (lang : Language) (cfg : Config) (id : ℕ) (box : SearchBox)
    → get_elem? cfg.section_contents id ≡ none
    → same_text (remove_blanks box.field) [] ≡ false
    → box.search_active ≡ true
    → on_select_item lang cfg id box ≡ none
unfolding on_select_item
select_behind lang cfg id box h hf ha =
    let box' = record box {
      search_index = id;
      select_items = select_item_set id 0 box.select_items;
    } in
    ap₂ (λ p q. if not p && q then search lang cfg box' else some box') hf ha
    ∙ search_behind lang cfg box' h

-- On the last filter, the key `Down` selects the one behind it, which is none: where the panel is
-- active and its field has text, the search that follows reads a property of `undefined`.
pub on_search_select_key_past :
    (lang : Language) (cfg : Config) (box : SearchBox)
    → box.search_index + 1 ≡ select_item_count box.select_items
    → length cfg.section_contents ≡ select_item_count box.select_items
    → same_text (remove_blanks box.field) [] ≡ false
    → box.search_active ≡ true
    → on_search_select_key lang cfg 40 box ≡ none
unfolding on_search_select_key
on_search_select_key_past lang cfg box hi hl hf ha =
    rw (lt→ltb box.search_index (select_item_count box.select_items) (omega arith)) (
      ap without_effects (
        select_behind lang cfg (box.search_index + 1) box
          (get-behind cfg.section_contents (box.search_index + 1) (omega arith)) hf ha))
