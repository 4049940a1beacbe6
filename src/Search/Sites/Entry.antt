-- ===== src/Search/Sites/Entry.antt =====
-- Entries and places of a page of results, as the scripts under docs/html/search and
-- docs/yun/html/search write them.
use Prim.Native.String.{String}
use parse_embedded_sdks.Base.{Bool, List, codes}
use parse_embedded_sdks.Search.Page.{SearchEntry, Place}

-- `[url, 1, scope]`, or with 0 for a place outside the parent frame.
abbrev pub place : String → Bool → String → Place
place url in_parent scope = record { url = codes url; in_parent = in_parent; scope = codes scope }

-- `[id, [label, place, ...]]`.
abbrev pub entry : String → String → List Place → SearchEntry
entry id label places = record { id = codes id; label = codes label; places = places }
