-- ===== src/Search/Site/Laws.antt =====
-- A search, from the text in the panel's field to the entries that the page of results shows.
use parse_embedded_sdks.Base.{
  lower, lower_unit, ℕ, ◌+◌, ◌<◌, ◌≡◌, ◌≢◌, refl, sym, ap, ap₂, ◌∙◌, true, Option, none, some, [],
  ◌∷◌, ◌++◌, append_assoc, Bytes, codes, All, All-append, drop, get_elem?, arith,
}
use parse_embedded_sdks.Search.Escape.{escape, unescape}
use parse_embedded_sdks.Search.Escape.Laws.{unescape-escape, escape-ne-hash}
use parse_embedded_sdks.Search.Ids.{to_hex, to_hex-ne_marks, convert_to_id}
use parse_embedded_sdks.Search.Results.{
  strip_leading, strip_trailing, search_text, search_id, is_match,
}
use parse_embedded_sdks.Search.Box.{SearchBox, Config, Language}
use parse_embedded_sdks.Search.Query.{search, index_of, index_char, results_page, show_results}
use parse_embedded_sdks.Search.Site.{
  Files, file_entries, page_file, filter, section_entries, all_filed, is_indexed, is_ascii, load,
  entries_of, drop_prefix, query_of, search_of, row_of, shown_entries,
}
use parse_embedded_sdks.Search.Site.Shown.{matching_entries, shown_entries-matching_entries}
use parse_embedded_sdks.Search.Site.Address.{
  IsPathUnit, path_of-append, path_of_path, query_of-append, drop_prefix-append,
}
use parse_embedded_sdks.Search.Site.Index.{begins, page_entries, filter-section_entries, page-filed}
use parse_embedded_sdks.Search.Site.Language.{
  IsLanguage, ascii_units, filter_rows, strip_trailing-ascii, strip_leading-ne, strip_leading-cons,
  put_in_front-cons, index_char_lem,
}

-- The address of a page, in the order in which it is taken apart.
abbrev page_path : Config → Bytes → ℕ → Bytes
page_path cfg name i = (cfg.results_path ++ codes "/") ++ page_file name i

page_path-IsPathUnit :
    (cfg : Config) (name : Bytes) (i : ℕ)
    → All IsPathUnit cfg.results_path
    → All IsPathUnit name
    → All IsPathUnit (page_path cfg name i)
page_path-IsPathUnit cfg name i hp hn =
    All-append _ (cfg.results_path ++ codes "/") (page_file name i)
      (All-append _ cfg.results_path (codes "/") hp (omega arith))
      (All-append _ name _ hn (
        All-append _ (codes "_") _ (omega arith)
          (All-append _ (to_hex i) (codes ".html") (to_hex-ne_marks i) (omega arith))))

-- The address that the panel goes to.
page_address :
    (lang : Language) (cfg : Config) (section i : ℕ) (name value : Bytes)
    → get_elem? cfg.section_names section ≡ some name
    → (results_page lang cfg section value (some i)).1
      ≡ page_path cfg name i ++ b'?' ∷ lang.escape value
page_address lang cfg section i name value h = rw h (simp append_assoc)

nomatches_address :
    (lang : Language) (cfg : Config) (section : ℕ) (value : Bytes)
    → (results_page lang cfg section value none).1
      ≡ (cfg.results_path ++ codes "/") ++ codes "nomatches.html"
nomatches_address lang cfg section value = simp append_assoc

drop-search_of : (q : Bytes) → drop 1 (search_of q) ≡ q
drop-search_of [] = refl
drop-search_of (c ∷ q) = refl

-- What the page of results finds of the text that the panel has searched.
found_text :
    (path value : Bytes)
    → All IsPathUnit path
    → is_ascii value ≡ true
    → search_text unescape (query_of (path ++ b'?' ∷ escape value)) [] ≡ value
found_text path value hp ha =
    let units = ascii_units value ha in
    ap (λ q. unescape (drop 1 q))
      (query_of-append path (escape value) hp (escape-ne-hash value units))
    ∙ ap unescape (drop-search_of (escape value))
    ∙ unescape-escape value units

-- The rows that are shown for an address of the panel, by the position of the character.
shown_lem :
    (lang : Language) (cfg : Config) (files : Files) (section : ℕ) (name : Bytes) (c : ℕ)
    (t : Bytes) (d : ℕ) (o : Option ℕ)
    → IsLanguage lang
    → get_elem? cfg.section_names section ≡ some name
    → All IsPathUnit cfg.results_path
    → All IsPathUnit name
    → file_entries files (codes "nomatches.html") ≡ []
    → c ≢ b' '
    → is_ascii (c ∷ t) ≡ true
    → all_filed d (page_entries files name 0 o) ≡ true
    → matching_entries lang.to_lower_case unescape cfg files
        (results_page lang cfg section (c ∷ t) o).1
      ≡ filter (begins (lower (strip_trailing (c ∷ t)))) (page_entries files name 0 o)
shown_lem lang cfg files section name c t d none l hn hp hu hf hc ha filed =
    let path = (cfg.results_path ++ codes "/") ++ codes "nomatches.html" in
    let is_path : All IsPathUnit path =
      All-append _ (cfg.results_path ++ codes "/") (codes "nomatches.html")
        (All-append _ cfg.results_path (codes "/") hp (omega arith)) (omega arith) in
    let loaded : load cfg files path ≡ [] =
      ap (λ p. entries_of files (drop_prefix (cfg.results_path ++ codes "/") p))
        (path_of_path path is_path)
      ∙ ap (entries_of files)
          (drop_prefix-append (cfg.results_path ++ codes "/") (codes "nomatches.html"))
      ∙ hf in
    let id = search_id lang.to_lower_case (search_text unescape (query_of path) []) in
    ap (matching_entries lang.to_lower_case unescape cfg files)
      (nomatches_address lang cfg section (c ∷ t))
    ∙ ap (filter (λ e. is_match lang.to_lower_case id (row_of e))) loaded
shown_lem lang cfg files section name c t d (some i) l hn hp hu hf hc ha filed =
    let zero_on : i ≡ 0 + i = omega arith in
    let path = page_path cfg name i in
    let is_path = page_path-IsPathUnit cfg name i hp hu in
    let address : (results_page lang cfg section (c ∷ t) (some i)).1
        ≡ path ++ b'?' ∷ escape (c ∷ t) =
      page_address lang cfg section i name (c ∷ t) hn
      ∙ ap (λ q. path ++ b'?' ∷ q) (l.escape_lem (c ∷ t) ha) in
    let stripped = strip_trailing-ascii (c ∷ t) ha in
    let text : search_id lang.to_lower_case (c ∷ t)
        ≡ convert_to_id (lower (strip_trailing (c ∷ t))) =
      ap (λ s. convert_to_id (lang.to_lower_case (strip_trailing s))) (strip_leading-cons c t hc)
      ∙ ap convert_to_id (l.lower_lem (strip_trailing (c ∷ t)) stripped) in
    let loaded : load cfg files (path ++ b'?' ∷ escape (c ∷ t))
        ≡ page_entries files name 0 (some i) =
      ap (λ p. entries_of files (drop_prefix (cfg.results_path ++ codes "/") p))
        (path_of-append path (escape (c ∷ t)) is_path)
      ∙ ap (entries_of files)
          (drop_prefix-append (cfg.results_path ++ codes "/") (page_file name i))
      ∙ ap (λ n. file_entries files (page_file name n)) zero_on in
    ap (matching_entries lang.to_lower_case unescape cfg files) address
    ∙ ap₂
        (λ value entries.
          filter (λ e. is_match lang.to_lower_case (search_id lang.to_lower_case value) (row_of e))
            entries)
        (found_text path (c ∷ t) is_path ha) loaded
    ∙ ap
        (λ id.
          filter (λ e. is_match lang.to_lower_case id (row_of e))
            (page_entries files name 0 (some i)))
        text
    ∙ filter_rows lang (lower (strip_trailing (c ∷ t))) d (page_entries files name 0 (some i)) l
        filed

-- The panel's search, on a section that there is.
search_lem :
    (lang : Language) (cfg : Config) (box : SearchBox) (contents value : Bytes)
    → get_elem? cfg.section_contents box.search_index ≡ some contents
    → strip_leading box.field ≡ value
    → search lang cfg box
      ≡ some (
          show_results value
            (results_page lang cfg box.search_index value
              (index_of (index_char lang value) contents))
            box)
unfolding search
search_lem lang cfg box contents value h k = rw h (
    ap
      (λ v. some (
        show_results v
          (results_page lang cfg box.search_index v (index_of (index_char lang v) contents)) box))
      k)

-- A site's search refines a search through all entries of the chosen section. Let the section have its
-- contents and its name in the tables, let its pages be indexed by their characters, and let the field
-- hold a text of ASCII that is not blank. Then the panel's search succeeds, and the page that it goes
-- to shows exactly the section's entries whose ids begin with the id of the text, less the blanks
-- around it and in lower case, in the section's order: of a text whose first character no page has,
-- none. The path of the pages and the section's name begin no query and no fragment.
pub search-refines :
    (lang : Language) (cfg : Config) (files : Files) (name contents : Bytes) (box : SearchBox)
    (c : ℕ) (t : Bytes)
    → IsLanguage lang
    → get_elem? cfg.section_contents box.search_index ≡ some contents
    → get_elem? cfg.section_names box.search_index ≡ some name
    → All IsPathUnit cfg.results_path
    → All IsPathUnit name
    → file_entries files (codes "nomatches.html") ≡ []
    → is_indexed files name 0 contents ≡ true
    → strip_leading box.field ≡ c ∷ t
    → is_ascii (c ∷ t) ≡ true
    → (box' : SearchBox) × (search lang cfg box ≡ some box')
      × (shown_entries lang.to_lower_case unescape cfg files box'.location
          ≡ filter
              (begins (lower (strip_trailing (c ∷ t))))
              (section_entries files name 0 contents))
search-refines lang cfg files name contents box c t l hs hn hp hu hf hi hv ha =
    let low = lower_unit c in
    let o = index_of (low ∷ []) contents in
    let (d, filed) = page-filed files name 0 low contents hi in
    let small : low < 128 = ground arith in
    let hc = strip_leading-ne box.field c t hv in
    let text : lower (strip_trailing (c ∷ t)) ≡ low ∷ lower (strip_trailing t) =
      ap lower (put_in_front-cons c (strip_trailing t) hc) in
    (
      show_results (c ∷ t) (results_page lang cfg box.search_index (c ∷ t) o) box,
      search_lem lang cfg box contents (c ∷ t) hs hv
          ∙ ap
              (λ s. some (
                show_results (c ∷ t)
                  (results_page lang cfg box.search_index (c ∷ t) (index_of s contents)) box))
              (index_char_lem lang c t l ha),
      shown_entries-matching_entries lang.to_lower_case unescape cfg files _
          ∙ shown_lem lang cfg files box.search_index name c t d o l hn hp hu hf hc ha filed
          ∙ ap (λ s. filter (begins s) (page_entries files name 0 o)) text
          ∙ sym
              (filter-section_entries files name 0 low (lower (strip_trailing t)) contents small hi)
          ∙ ap (λ s. filter (begins s) (section_entries files name 0 contents)) (sym text),
    )
