-- ===== src/Search/Sites/Tests.antt =====
-- The search on the shipped sites, and the places of its windows, on concrete texts and positions.
use parse_embedded_sdks.Base.{
  lower, ◌≡◌, refl, true, false, some, [], ◌∷◌, codes, arith, pos, negsuc, none,
}
use parse_embedded_sdks.Search.Escape.{escape, unescape}
use parse_embedded_sdks.Search.Ids.{unit_id, to_hex}
use parse_embedded_sdks.Search.Box.{SearchBox, Language, search_box}
use parse_embedded_sdks.Search.Query.{search}
use parse_embedded_sdks.Search.Windows.{Laid, Style, place_select}
use parse_embedded_sdks.Search.Site.{filter, section_entries, shown_entries, is_indexed}
use parse_embedded_sdks.Search.Site.Index.{begins}
use parse_embedded_sdks.Search.Site.Language.{IsLanguage}
use parse_embedded_sdks.Search.Site.Laws.{search-refines}
use parse_embedded_sdks.Search.Sites.Sdk
use parse_embedded_sdks.Search.Sites.Yun
use parse_embedded_sdks.Search.Sites.Laws.{yun, search-site_files}

abbrev language : Language
language = record { to_lower_case = lower; escape = escape; above_one = λ s. false }

language-IsLanguage : IsLanguage language
language-IsLanguage = record { lower_lem = λ s h. refl; escape_lem = λ s h. refl }

-- A panel with a text, and with the given filter chosen.
abbrev sdk_box : SearchBox
sdk_box = record (search_box Sdk.site [] []) { field = codes " Parse "; search_index = 4 }

abbrev yun_box : SearchBox
yun_box = record (search_box Yun.site [] []) { field = codes "~Parse"; search_index = 3 }

search-refines_example :
    (box' : SearchBox) × (search language Sdk.site sdk_box ≡ some box')
    × (shown_entries lower unescape Sdk.site Sdk.files box'.location
        ≡ filter
            (begins (codes "parse"))
            (section_entries Sdk.files (codes "defines") 0 (codes "acios")))
unfolding is_indexed to_hex unit_id
search-refines_example =
    search-refines language Sdk.site Sdk.files (codes "defines") (codes "acios") sdk_box b'P'
      (codes "arse ") language-IsLanguage refl refl (omega arith) (omega arith) refl refl refl refl

search-site_files_example :
    (box' : SearchBox) × (search language Yun.site yun_box ≡ some box')
    × (shown_entries lower unescape Yun.site Yun.files box'.location
        ≡ filter
            (begins (codes "~parse"))
            (section_entries Yun.files (codes "functions") 0 (codes "abcegnopsw~")))
search-site_files_example =
    search-site_files yun language yun_box (codes "functions") (codes "abcegnopsw~") b'~'
      (codes "Parse") language-IsLanguage refl refl refl refl

-- An icon of 20 pixels at (10, 5), in a field at (100, 40).
abbrev icon : Laid
icon = record {
  offset_width = 20;
  offset_height = 19;
  offsets = (pos 10, pos 5) ∷ (pos 100, pos 40) ∷ [];
}

abbrev hidden : Style
hidden = record { display = codes "none"; position = none; left = none; top = none; width = none }

place_select_test :
    place_select false icon icon hidden
    ≡ record hidden { display = codes "block"; left = some (pos 110); top = some (pos 64) }
place_select_test = refl

place_select_frame_test :
    place_select true icon (record icon { offset_width = 150 }) hidden
    ≡ record hidden { display = codes "block"; left = some (negsuc 13); top = some (pos 64) }
place_select_frame_test = refl
