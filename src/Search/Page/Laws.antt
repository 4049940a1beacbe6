-- ===== src/Search/Page/Laws.antt =====
-- The results that `createResults` builds, as `FindChildElement` sees them, and the first filter.
use parse_embedded_sdks.Base.{
  ℕ, suc, ◌+◌, ◌≡◌, refl, ap, ◌∙◌, Bool, true, false, Bool-cases, inl, inr, Option, none, some,
  List, [], ◌∷◌, ◌++◌, Bytes, length, ◌==◌, if◌then◌else◌, ◌&&◌, not, ltb, ne→==, arith,
}
use parse_embedded_sdks.Search.Box.{
  SearchBox, remove_blanks, SelectChild, Config, Language, select_item_count, select_item_set,
}
use parse_embedded_sdks.Search.Query.{on_select_item, search}
use parse_embedded_sdks.Search.Ids.{same_text}
use parse_embedded_sdks.Search.Query.Laws.{marked_count, select_item_set-marked}
use parse_embedded_sdks.Search.Page.{
  Element, Elements, no_more, more, Place, SearchEntry, create_children, children_div, create_link,
  entry_elements, create_result, find_child_element, or_else, children_of, select_links,
  init_search,
}

-- The number of elements side by side.
abbrev pub element_count : Elements → ℕ
element_count no_more = 0
element_count (more e siblings) = element_count siblings + 1

create_children-count :
    (e c : ℕ) (places : List Place) → element_count (create_children e c places) ≡ length places
unfolding create_children
create_children-count e c [] = refl
create_children-count e c (p ∷ places) = omega (arith, create_children-count e (c + 1) places)

find_places :
    (e : ℕ) (id label : Bytes) (places : List Place)
    → find_child_element (entry_elements e id label places)
      ≡ (if length places == 1 then none else some (children_div e places))
unfolding find_child_element entry_elements create_link
find_places e id label [] = refl
find_places e id label (p ∷ []) = refl
find_places e id label (p ∷ q ∷ places) =
    rw (ne→== (suc (suc (length places))) 1 (omega arith)) refl

or_else-none : (o : Option Element) → or_else o none ≡ o
or_else-none none = refl
or_else-none (some e) = refl

-- `FindChildElement` finds no children of a result that `createResults` has built where the entry has
-- a single place; otherwise it finds the element that holds the links to the places, as many as there
-- are places.
pub find_child_element-create_result :
    (e : ℕ) (entry : SearchEntry)
    → (find_child_element (children_of (create_result e entry))
        ≡ (if length entry.places == 1 then none else some (children_div e entry.places)))
      × (element_count (children_of (children_div e entry.places)) ≡ length entry.places)
unfolding find_child_element create_result
find_child_element-create_result e entry = (
  or_else-none (find_child_element (entry_elements e entry.id entry.label entry.places))
      ∙ find_places e entry.id entry.label entry.places,
  create_children-count e 0 entry.places,
)

count_links :
    (labels : List (Bytes × Bytes)) → select_item_count (select_links labels) ≡ length labels
count_links [] = refl
count_links (l ∷ labels) = omega (arith, count_links labels)

count_set :
    (id j : ℕ) (children : List SelectChild)
    → select_item_count (select_item_set id j children) ≡ select_item_count children
count_set id j [] = refl
count_set id j (c ∷ children) = elim (Bool-cases c.is_item) [
  | inl e ↦ rw e (ap (λ n. n + 1) (count_set id (j + 1) children))
  | inr e ↦ rw e (count_set id j children)
]

and_false : (p : Bool) (q : Bool) → q ≡ false → p && q ≡ false
and_false true q h = h
and_false false q h = refl

select_inactive :
    (lang : Language) (cfg : Config) (id : ℕ) (box : SearchBox)
    → box.search_active ≡ false
    → on_select_item lang cfg id box
      ≡ some
          (record box { search_index = id; select_items = select_item_set id 0 box.select_items })
unfolding on_select_item
select_inactive lang cfg id box h =
    let box' = record box {
      search_index = id;
      select_items = select_item_set id 0 box.select_items;
    } in
    ap (λ b. if b then search lang cfg box' else some box')
      (and_false (not (same_text (remove_blanks box.field) [])) box.search_active h)

-- `init_search`, on a panel that is not active and a window without filters, makes a filter of each
-- label, selects the first, and marks just that one where there is any.
pub init_search-selects :
    (lang : Language) (cfg : Config) (labels : List (Bytes × Bytes)) (box : SearchBox)
    → box.search_active ≡ false
    → box.select_items ≡ []
    → (box' : SearchBox) × (init_search lang cfg labels box ≡ some box')
      × (box'.search_index ≡ 0)
      × (select_item_count box'.select_items ≡ length labels)
      × (marked_count box'.select_items ≡ (if ltb 0 (length labels) then 1 else 0))
unfolding init_search
init_search-selects lang cfg labels box ha hi =
    let items = select_item_set 0 0 (select_links labels) in
    (
      record box { search_index = 0; select_items = items },
      select_inactive lang cfg 0
            (record box { select_items = box.select_items ++ select_links labels }) ha
          ∙ ap
              (λ l. some (record box {
                search_index = 0;
                select_items = select_item_set 0 0 (l ++ select_links labels);
              }))
              hi,
      refl,
      count_set 0 0 (select_links labels) ∙ count_links labels,
      select_item_set-marked 0 (select_links labels)
          ∙ ap (λ n. if ltb 0 n then 1 else 0) (count_links labels),
    )
