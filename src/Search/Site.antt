-- ===== src/Search/Site.antt =====
-- A documentation site as its search meets it: the pages of results with their entries, what a browser
-- takes out of an address, and the results that are shown for it. The entries of a page are the
-- `searchData` of the script that has the page's name.
pub mod Address
pub mod Index
pub mod Language
pub mod Shown
pub mod Laws
use parse_embedded_sdks.Base.{
  lower, ℕ, zero, suc, ◌+◌, Bool, true, false, not, ◌&&◌, ◌||◌, Option, none, some, List, [], ◌∷◌,
  ◌++◌, Bytes, codes, ltb, leb, ◌==◌, if◌then◌else◌,
}
use parse_embedded_sdks.Search.Ids.{to_hex, unit_id, same_text, starts_with}
use parse_embedded_sdks.Search.Results.{Result, Div, result, other, Page, search}
use parse_embedded_sdks.Search.Page.{SearchEntry}
use parse_embedded_sdks.Search.Box.{Config}

-- The pages by their file names, each with its entries.
abbrev pub Files : Type 0
Files = List (Bytes × List SearchEntry)

-- The entries of a file; a page that is not among them has none.
abbrev pub file_entries : Files → Bytes → List SearchEntry
file_entries [] name = []
file_entries ((name', entries) ∷ files) name =
    if same_text name' name then entries else file_entries files name

-- The file of a section's page.
abbrev pub page_file : Bytes → ℕ → Bytes
page_file name i = name ++ (codes "_" ++ (to_hex i ++ codes ".html"))

-- What stands in an address in front of its query and its fragment.
abbrev pub path_of : Bytes → Bytes
path_of [] = []
path_of (c ∷ address) = if c == b'?' || c == b'#' then [] else c ∷ path_of address

abbrev pub without_fragment : Bytes → Bytes
without_fragment [] = []
without_fragment (c ∷ s) = if c == b'#' then [] else c ∷ without_fragment s

abbrev pub search_of : Bytes → Bytes
search_of [] = []
search_of (c ∷ s) = b'?' ∷ c ∷ s

-- `window.location.search`: the query with its question mark, where it has a text.
abbrev pub query_of : Bytes → Bytes
query_of [] = []
query_of (c ∷ address) =
    if c == b'?'
    then search_of (without_fragment address)
    else if c == b'#'
    then []
    else query_of address

abbrev pub drop_prefix : (prefix text : Bytes) → Option Bytes
drop_prefix [] text = some text
drop_prefix (c ∷ prefix) [] = none
drop_prefix (c ∷ prefix) (d ∷ text) = if c == d then drop_prefix prefix text else none

abbrev pub entries_of : Files → Option Bytes → List SearchEntry
entries_of files none = []
entries_of files (some name) = file_entries files name

-- The entries of the page at an address.
abbrev pub load : Config → Files → Bytes → List SearchEntry
load cfg files address =
    entries_of files (drop_prefix (cfg.results_path ++ codes "/") (path_of address))

-- The row of an entry, as `createResults` makes it, by its id.
abbrev pub row_of : SearchEntry → Result
row_of e = record { id = codes "SR_" ++ e.id; shown = false; children = none }

abbrev pub filter : (SearchEntry → Bool) → List SearchEntry → List SearchEntry
filter keep [] = []
filter keep (e ∷ entries) = if keep e then e ∷ filter keep entries else filter keep entries

-- The rows of a page, as `createResults` makes them, with what the page displays beside them.
abbrev pub rows_of : List SearchEntry → List Div
rows_of [] = []
rows_of (e ∷ entries) = result (row_of e) ∷ rows_of entries

abbrev pub page_of : List SearchEntry → Page
page_of entries = record {
  divs = rows_of entries;
  searching_shown = true;
  no_matches_shown = false;
}

-- The entries whose rows are shown.
abbrev pub shown_of : List Div → List SearchEntry → List SearchEntry
shown_of [] entries = []
shown_of (other ∷ divs) entries = shown_of divs entries
shown_of (result r ∷ divs) [] = []
shown_of (result r ∷ divs) (e ∷ entries) =
    if r.shown then e ∷ shown_of divs entries else shown_of divs entries

-- The entries whose rows the page at an address shows, once its `Search` has run.
unfoldable pub shown_entries :
    (to_lower_case unescape : Bytes → Bytes) → Config → Files → Bytes → List SearchEntry
unfolding search
shown_entries to_lower_case unescape cfg files address =
    let entries = load cfg files address in
    let (page, matches) = search to_lower_case unescape (query_of address) [] (page_of entries) in
    shown_of page.divs entries

-- All entries of a section, over its pages from the index `i` on.
abbrev pub section_entries : Files → Bytes → ℕ → Bytes → List SearchEntry
section_entries files name i [] = []
section_entries files name i (c ∷ contents) =
    file_entries files (page_file name i) ++ section_entries files name (i + 1) contents

abbrev pub is_absent : ℕ → Bytes → Bool
is_absent c [] = true
is_absent c (d ∷ s) = not (c == d) && is_absent c s

abbrev pub is_ascii : Bytes → Bool
is_ascii [] = true
is_ascii (c ∷ s) = ltb c 128 && is_ascii s

-- An entry has an id in lower case that begins with the code of the page's character.
abbrev pub is_filed : ℕ → SearchEntry → Bool
is_filed c e = starts_with (unit_id c) e.id && (is_ascii e.id && same_text (lower e.id) e.id)

abbrev pub all_filed : ℕ → List SearchEntry → Bool
all_filed c [] = true
all_filed c (e ∷ entries) = is_filed c e && all_filed c entries

-- The pages of a section hold the entries that begin with their characters, and no two pages have the
-- same character.
unfoldable pub is_indexed : Files → Bytes → ℕ → Bytes → Bool
is_indexed files name i [] = true
is_indexed files name i (c ∷ contents) =
    ltb c 128
    && (is_absent c contents
        && (all_filed c (file_entries files (page_file name i))
            && is_indexed files name (i + 1) contents))
