-- ===== src/Search/Sites/Sdk.antt =====
-- The search of the documentation under docs/html, as it is shipped: docs/html/search/searchdata.js with
-- the pages of its sections, and the arguments of `SearchBox` on each page.
pub mod All
pub mod Sections
use parse_embedded_sdks.Base.{Bytes, codes, List, [], ◌∷◌}
use parse_embedded_sdks.Search.Box.{Config}
use parse_embedded_sdks.Search.Site.{Files}
use parse_embedded_sdks.Search.Sites.Sdk.All.{all_0, all_1, all_2, all_3, all_4, all_5}
use parse_embedded_sdks.Search.Sites.Sdk.Sections.{
  defines_0, defines_1, defines_2, defines_3, defines_4, files_0, functions_0, pages_0, typedefs_0,
}

abbrev pub index_sections_with_content : List Bytes
index_sections_with_content =
    codes "aciops" ∷ codes "p" ∷ codes "p" ∷ codes "p" ∷ codes "acios" ∷ codes "p" ∷ []

abbrev pub index_section_names : List Bytes
index_section_names =
    codes "all"
    ∷ codes "files"
    ∷ codes "functions"
    ∷ codes "typedefs"
    ∷ codes "defines"
    ∷ codes "pages"
    ∷ []

abbrev pub index_section_labels : List Bytes
index_section_labels =
    codes "All"
    ∷ codes "Files"
    ∷ codes "Functions"
    ∷ codes "Typedefs"
    ∷ codes "Macros"
    ∷ codes "Pages"
    ∷ []

-- The pages of results: the page and the script of its entries have one name.
abbrev pub files : Files
files =
    (codes "all_0.html", all_0)
    ∷ (codes "all_1.html", all_1)
    ∷ (codes "all_2.html", all_2)
    ∷ (codes "all_3.html", all_3)
    ∷ (codes "all_4.html", all_4)
    ∷ (codes "all_5.html", all_5)
    ∷ (codes "defines_0.html", defines_0)
    ∷ (codes "defines_1.html", defines_1)
    ∷ (codes "defines_2.html", defines_2)
    ∷ (codes "defines_3.html", defines_3)
    ∷ (codes "defines_4.html", defines_4)
    ∷ (codes "files_0.html", files_0)
    ∷ (codes "functions_0.html", functions_0)
    ∷ (codes "pages_0.html", pages_0)
    ∷ (codes "typedefs_0.html", typedefs_0)
    ∷ []

abbrev pub site : Config
site = record {
  results_path = codes "search";
  search_label = codes "Search";
  section_contents = index_sections_with_content;
  section_names = index_section_names;
}
