-- ===== src/Search/Sites/Laws.antt =====
-- The search on the two shipped sites: every section of theirs is indexed, so that a search finds what
-- the section has.
use parse_embedded_sdks.Base.{
  lower, and_split, ap₂, ◌∙◌, All, subst, ℕ, zero, suc, ◌≡◌, refl, Bool, true, ◌&&◌, some, List, [],
  ◌∷◌, Bytes, codes, get_elem?, arith,
}
use parse_embedded_sdks.Search.Escape.{unescape}
use parse_embedded_sdks.Search.Ids.{unit_id, to_hex}
use parse_embedded_sdks.Search.Results.{strip_leading, strip_trailing}
use parse_embedded_sdks.Search.Box.{SearchBox, Config, Language}
use parse_embedded_sdks.Search.Query.{search}
use parse_embedded_sdks.Search.Site.{
  Files, file_entries, filter, section_entries, is_indexed, is_ascii, shown_entries,
}
use parse_embedded_sdks.Search.Site.Address.{IsPathUnit}
use parse_embedded_sdks.Search.Site.Index.{begins}
use parse_embedded_sdks.Search.Site.Language.{IsLanguage}
use parse_embedded_sdks.Search.Site.Laws.{search-refines}
use parse_embedded_sdks.Search.Sites.Sdk
use parse_embedded_sdks.Search.Sites.Yun

pub data Shipped : Type 0 where
  sdk yun : Shipped

abbrev pub site_config : Shipped → Config
site_config sdk = Sdk.site
site_config yun = Yun.site

abbrev pub site_files : Shipped → Files
site_files sdk = Sdk.files
site_files yun = Yun.files

-- Whether all sections of a site are indexed.
abbrev all_indexed : Files → (names contents : List Bytes) → Bool
all_indexed files [] contents = true
all_indexed files (name ∷ names) [] = true
all_indexed files (name ∷ names) (content ∷ contents) =
    is_indexed files name 0 content && all_indexed files names contents

sdk_indexed : all_indexed Sdk.files Sdk.index_section_names Sdk.index_sections_with_content ≡ true
unfolding is_indexed unit_id to_hex
sdk_indexed = refl

yun_indexed : all_indexed Yun.files Yun.index_section_names Yun.index_sections_with_content ≡ true
unfolding is_indexed unit_id to_hex
yun_indexed = refl

site_indexed :
    (s : Shipped)
    → all_indexed (site_files s) (site_config s).section_names (site_config s).section_contents
      ≡ true
site_indexed sdk = sdk_indexed
site_indexed yun = yun_indexed

all_indexed-get :
    (files : Files) (names contents : List Bytes) (i : ℕ) (name content : Bytes)
    → all_indexed files names contents ≡ true
    → get_elem? names i ≡ some name
    → get_elem? contents i ≡ some content
    → is_indexed files name 0 content ≡ true
all_indexed-get files [] contents i name content h p q = ground arith
all_indexed-get files (n ∷ names) [] i name content h p q = ground arith
all_indexed-get files (n ∷ names) (c ∷ contents) zero name content h p q =
    let (here, rest) = and_split (is_indexed files n 0 c) (all_indexed files names contents) h in
    let same_name : name ≡ n = ground arith in
    let same_content : content ≡ c = ground arith in
    ap₂ (λ n c. is_indexed files n 0 c) same_name same_content ∙ here
all_indexed-get files (n ∷ names) (c ∷ contents) (suc i) name content h p q =
    let (here, rest) = and_split (is_indexed files n 0 c) (all_indexed files names contents) h in
    all_indexed-get files names contents i name content rest p q

site_names : (s : Shipped) → All (All IsPathUnit) (site_config s).section_names
site_names sdk = omega arith
site_names yun = omega arith

site_path : (s : Shipped) → All IsPathUnit (site_config s).results_path
site_path sdk = omega arith
site_path yun = omega arith

site_nomatches : (s : Shipped) → file_entries (site_files s) (codes "nomatches.html") ≡ []
site_nomatches sdk = refl
site_nomatches yun = refl

All-get_elem? :
    (P : Bytes → Type 0) (xs : List Bytes) (i : ℕ) (x : Bytes)
    → All P xs
    → get_elem? xs i ≡ some x
    → P x
All-get_elem? P [] i x h p = ground arith
All-get_elem? P (y ∷ ys) zero x h p = let same : y ≡ x = ground arith in subst P same h.0
All-get_elem? P (y ∷ ys) (suc i) x h p = All-get_elem? P ys i x h.1 p

-- On either shipped site, and in each of its sections, the search for a text of ASCII that is not blank
-- succeeds, and the page that it goes to shows exactly the section's entries whose ids begin with the id
-- of the text, less the blanks around it and in lower case, in the section's order.
pub search-site_files :
    (s : Shipped) (lang : Language) (box : SearchBox) (name contents : Bytes) (c : ℕ) (t : Bytes)
    → IsLanguage lang
    → get_elem? (site_config s).section_contents box.search_index ≡ some contents
    → get_elem? (site_config s).section_names box.search_index ≡ some name
    → strip_leading box.field ≡ c ∷ t
    → is_ascii (c ∷ t) ≡ true
    → (box' : SearchBox) × (search lang (site_config s) box ≡ some box')
      × (shown_entries lang.to_lower_case unescape (site_config s) (site_files s) box'.location
          ≡ filter
              (begins (lower (strip_trailing (c ∷ t))))
              (section_entries (site_files s) name 0 contents))
search-site_files s lang box name contents c t l hs hn =
    search-refines lang (site_config s) (site_files s) name contents box c t l hs hn (site_path s)
      (All-get_elem? (All IsPathUnit) (site_config s).section_names box.search_index name
        (site_names s) hn)
      (site_nomatches s)
      (all_indexed-get (site_files s) (site_config s).section_names (site_config s).section_contents
        box.search_index name contents (site_indexed s) hn hs)
