-- ===== src/Search/Sites/Yun.antt =====
-- The search of the documentation under docs/yun/html, as it is shipped: docs/yun/html/search/searchdata.js
-- with the pages of its sections, and the arguments of `SearchBox` on each page.
pub mod All
pub mod More
pub mod Functions
pub mod Members
pub mod Sections
use parse_embedded_sdks.Base.{Bytes, codes, List, [], ◌∷◌}
use parse_embedded_sdks.Search.Box.{Config}
use parse_embedded_sdks.Search.Site.{Files}
use parse_embedded_sdks.Search.Sites.Yun.All.{all_0, all_1, all_2, all_3, all_4, all_5}
use parse_embedded_sdks.Search.Sites.Yun.More.{all_6, all_7, all_8, all_9, all_a}
use parse_embedded_sdks.Search.Sites.Yun.Functions.{
  functions_0, functions_1, functions_2, functions_3, functions_4, functions_5,
}
use parse_embedded_sdks.Search.Sites.Yun.Members.{
  functions_6, functions_7, functions_8, functions_9, functions_a,
}
use parse_embedded_sdks.Search.Sites.Yun.Sections.{classes_0, files_0, pages_0, variables_0}

abbrev pub index_sections_with_content : List Bytes
index_sections_with_content =
    codes "abcegnopsw~" ∷ codes "p" ∷ codes "p" ∷ codes "abcegnopsw~" ∷ codes "p" ∷ codes "p" ∷ []

abbrev pub index_section_names : List Bytes
index_section_names =
    codes "all"
    ∷ codes "classes"
    ∷ codes "files"
    ∷ codes "functions"
    ∷ codes "variables"
    ∷ codes "pages"
    ∷ []

abbrev pub index_section_labels : List Bytes
index_section_labels =
    codes "All"
    ∷ codes "Data Structures"
    ∷ codes "Files"
    ∷ codes "Functions"
    ∷ codes "Variables"
    ∷ codes "Pages"
    ∷ []

-- The pages of results: the page and the script of its entries have one name.
abbrev pub files : Files
files =
    (codes "all_0.html", all_0)
    ∷ (codes "all_1.html", all_1)
    ∷ (codes "all_2.html", all_2)
    ∷ (codes "all_3.html", all_3)
    ∷ (codes "all_4.html", all_4)
    ∷ (codes "all_5.html", all_5)
    ∷ (codes "all_6.html", all_6)
    ∷ (codes "all_7.html", all_7)
    ∷ (codes "all_8.html", all_8)
    ∷ (codes "all_9.html", all_9)
    ∷ (codes "all_a.html", all_a)
    ∷ (codes "functions_0.html", functions_0)
    ∷ (codes "functions_1.html", functions_1)
    ∷ (codes "functions_2.html", functions_2)
    ∷ (codes "functions_3.html", functions_3)
    ∷ (codes "functions_4.html", functions_4)
    ∷ (codes "functions_5.html", functions_5)
    ∷ (codes "functions_6.html", functions_6)
    ∷ (codes "functions_7.html", functions_7)
    ∷ (codes "functions_8.html", functions_8)
    ∷ (codes "functions_9.html", functions_9)
    ∷ (codes "functions_a.html", functions_a)
    ∷ (codes "classes_0.html", classes_0)
    ∷ (codes "files_0.html", files_0)
    ∷ (codes "pages_0.html", pages_0)
    ∷ (codes "variables_0.html", variables_0)
    ∷ []

abbrev pub site : Config
site = record {
  results_path = codes "search";
  search_label = codes "Search";
  section_contents = index_sections_with_content;
  section_names = index_section_names;
}
