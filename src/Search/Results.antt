-- ===== src/Search/Results.antt =====
-- `SearchResults` of docs/html/search/search.js: the page that shows the results. `toLowerCase` and
-- `unescape` are the language's, and parameters here.
pub mod Rows
pub mod Moves
use parse_embedded_sdks.Base.{
  ℕ, zero, suc, ◌+◌, Bool, true, false, not, ◌&&◌, ◌||◌, Option, none, some, List, [], ◌∷◌, ◌++◌,
  Bytes, codes, get_elem?, set, drop, ltb, leb, ◌==◌, if◌then◌else◌,
}
use parse_embedded_sdks.Search.Ids.{convert_to_id, starts_with}

-- The `SRChildren` element of a result with several places: its links, and whether its display is
-- `block`.
pub record Children : Type 0 where
  pub count : ℕ
  pub is_open : Bool

-- A `div` of class `SRResult`: its id, and whether its display is `block`. The result at index e holds
-- the link `Item`e, and the links `Item`e`_c0`, `Item`e`_c1` and so on for its children.
pub record Result : Type 0 where
  pub id : Bytes
  pub shown : Bool
  pub children : Option Children

-- The `div` elements of the page, in its order.
pub data Div : Type 0 where
  result : Result → Div
  other : Div

pub record Page : Type 0 where
  pub divs : List Div
  pub searching_shown : Bool
  pub no_matches_shown : Bool

-- The fields `lastKey` and `repeatOn`.
pub record Keys : Type 0 where
  pub last_key : ℕ
  pub repeat_on : Bool

-- `replace(/^ +/, "")`.
abbrev pub strip_leading : Bytes → Bytes
strip_leading [] = []
strip_leading (c ∷ s) = if c == b' ' then strip_leading s else c ∷ s

abbrev pub put_in_front : ℕ → Bytes → Bytes
put_in_front c [] = if c == b' ' then [] else c ∷ []
put_in_front c (d ∷ s) = c ∷ d ∷ s

-- `replace(/ +$/, "")`.
abbrev pub strip_trailing : Bytes → Bytes
strip_trailing [] = []
strip_trailing (c ∷ s) = put_in_front c (strip_trailing s)

-- `\d*_` at the start of a text: what follows it.
abbrev strip_digits : Bytes → Option Bytes
strip_digits [] = none
strip_digits (c ∷ s) =
    if c == b'_' then some s else if leb b'0' c && leb c b'9' then strip_digits s else none

abbrev or_whole : Bytes → Option Bytes → Bytes
or_whole s none = s
or_whole s (some rest) = rest

-- `replace(/^sr\d*_/, '')`.
abbrev pub strip_row_prefix : Bytes → Bytes
strip_row_prefix (c ∷ d ∷ s) =
    if c == b's' && d == b'r' then or_whole (c ∷ d ∷ s) (strip_digits s) else c ∷ d ∷ s
strip_row_prefix s = s

-- Whether the row of a result is a match.
abbrev pub is_match : (Bytes → Bytes) → Bytes → Result → Bool
is_match to_lower_case search r = starts_with search (strip_row_prefix (to_lower_case r.id))

-- The loop of `Search`, with `matches`.
abbrev pub search_rows : (Bytes → Bytes) → Bytes → List Div → ℕ → List Div × ℕ
search_rows to_lower_case search [] matches = ([], matches)
search_rows to_lower_case search (other ∷ divs) matches =
    let (divs', matches') = search_rows to_lower_case search divs matches in
    (other ∷ divs', matches')
search_rows to_lower_case search (result r ∷ divs) matches =
    let found = is_match to_lower_case search r in
    let (divs', matches') =
      search_rows to_lower_case search divs (if found then matches + 1 else matches) in
    (result (record r { shown = found }) ∷ divs', matches')

-- The text that is looked for: the argument, or the query of the page's address.
abbrev pub search_text : (unescape : Bytes → Bytes) (location : Bytes) → Bytes → Bytes
search_text unescape location [] = unescape (drop 1 location)
search_text unescape location (c ∷ search) = c ∷ search

abbrev pub search_id : (Bytes → Bytes) → Bytes → Bytes
search_id to_lower_case search =
    convert_to_id (to_lower_case (strip_trailing (strip_leading search)))

-- `Search`: the page, and `lastMatchCount`.
unfoldable pub search :
    (to_lower_case unescape : Bytes → Bytes) (location argument : Bytes) → Page → Page × ℕ
search to_lower_case unescape location argument p =
    let id = search_id to_lower_case (search_text unescape location argument) in
    let (divs, matches) = search_rows to_lower_case id p.divs 0 in
    (record { divs = divs; searching_shown = false; no_matches_shown = matches == 0 }, matches)

abbrev pub next_from : List Result → ℕ → Option ℕ
next_from [] index = none
next_from (r ∷ results) index = if r.shown then some index else next_from results (index + 1)

-- `NavNext`.
abbrev pub nav_next : List Result → ℕ → Option ℕ
nav_next results index = next_from (drop index results) index

-- The test of an item in the loop of `NavPrev`: null where it is not there.
abbrev shown_or : Option ℕ → ℕ → Option Result → Option ℕ
shown_or before index none = none
shown_or before index (some r) = if r.shown then some index else before

-- `NavPrev`, with the index and one, since the index may be -1.
abbrev pub nav_prev : List Result → ℕ → Option ℕ
nav_prev results zero = none
nav_prev results (suc index) = shown_or (nav_prev results index) index (get_elem? results index)

pub data KeyEvent : Type 0 where
  keydown keypress keyup : ℕ → KeyEvent

abbrev pub key_code : KeyEvent → ℕ
key_code (keydown k) = k
key_code (keypress k) = k
key_code (keyup k) = k

-- `ProcessKeys`.
abbrev pub process_keys : KeyEvent → Keys → Keys × Bool
process_keys (keydown k) keys = (record { last_key = k; repeat_on = false }, not (k == 0))
process_keys (keypress k) keys =
    if keys.repeat_on
    then (keys, not (keys.last_key == 0))
    else (record keys { repeat_on = not (keys.last_key == 0) }, false)
process_keys (keyup k) keys = (record { last_key = 0; repeat_on = false }, false)
