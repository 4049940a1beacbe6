-- ===== src/Search/Results/Rows.antt =====
-- `Search` on a page whose results have the ids that the documentation's index gives them.
use parse_embedded_sdks.Base.{
  ℕ, ◌+◌, ◌<◌, ◌≡◌, refl, ap, Bool, true, false, Option, List, [], ◌∷◌, ◌++◌, Bytes, codes, All,
  ◌==◌, if◌then◌else◌, arith,
}
use parse_embedded_sdks.Search.Ids.{convert_to_id, starts_with, starts_with-convert_to_id}
use parse_embedded_sdks.Search.Results.{
  Children, Div, result, other, Page, strip_leading, strip_trailing, search_rows, search_text,
  search,
}

-- A result by its name, or another `div`.
pub data Entry : Type 0 where
  entry : Bytes → Bool → Option Children → Entry
  filler : Entry

abbrev pub row_id : Bytes → Bytes
row_id name = codes "SR_" ++ convert_to_id name

abbrev pub div_of : Entry → Div
div_of (entry name shown children) =
    result (record { id = row_id name; shown = shown; children = children })
div_of filler = other

abbrev pub divs_of : List Entry → List Div
divs_of [] = []
divs_of (e ∷ entries) = div_of e ∷ divs_of entries

-- The results whose names begin with a text are shown, and the others are not.
abbrev pub show_only : Bytes → List Entry → List Entry
show_only text [] = []
show_only text (entry name shown children ∷ entries) =
    entry name (starts_with text name) children ∷ show_only text entries
show_only text (filler ∷ entries) = filler ∷ show_only text entries

-- The number of results whose names begin with a text.
abbrev pub count_matches : Bytes → List Entry → ℕ
count_matches text [] = 0
count_matches text (entry name shown children ∷ entries) =
    if starts_with text name then count_matches text entries + 1 else count_matches text entries
count_matches text (filler ∷ entries) = count_matches text entries

abbrev pub IsUnits : Bytes → Type 0
IsUnits = All (λ c. c < 65536)

add_match : (b : Bool) (m n : ℕ) → (if b then m + 1 else m) + n ≡ m + (if b then n + 1 else n)
add_match true m n = omega arith
add_match false m n = omega arith

module _ (to_lower_case : Bytes → Bytes) where
  -- A name of UTF-16 code units, of whose row the lower case is known.
  abbrev pub IsNamed : Entry → Type 0
  IsNamed (entry name shown children) =
      IsUnits name × (to_lower_case (row_id name) ≡ codes "sr_" ++ convert_to_id name)
  IsNamed filler = Unit

  search_rows_lem :
      (text : Bytes) (entries : List Entry) (matches : ℕ)
      → IsUnits text
      → All IsNamed entries
      → search_rows to_lower_case (convert_to_id text) (divs_of entries) matches
        ≡ (divs_of (show_only text entries), matches + count_matches text entries)
  search_rows_lem text [] matches h k =
      let e : matches ≡ matches + 0 = omega arith in ap (λ m. ([], m)) e
  search_rows_lem text (filler ∷ entries) matches h k =
      rw (search_rows_lem text entries matches h k.1) refl
  search_rows_lem text (entry name shown children ∷ entries) matches h k =
      let b = starts_with text name in
      rw
        (
          k.0.1,
          starts_with-convert_to_id text name h k.0.0,
          search_rows_lem text entries (if b then matches + 1 else matches) h k.1,
        )
        (ap (λ m. (divs_of (entry name b children ∷ show_only text entries), m))
          (add_match b matches (count_matches text entries)))

  -- `Search` shows exactly the results whose names begin with the text that is looked for, less the
  -- blanks around it and in lower case, and hides the others; it tells that there is none just where
  -- it shows none, and `lastMatchCount` is the number of those that it shows. The names and the text
  -- are of UTF-16 code units, and a row's id is `SR_` and the id of its name, of which the lower case
  -- is known.
  pub search-show_only :
      (unescape : Bytes → Bytes) (location argument : Bytes) (entries : List Entry) (p : Page)
      → p.divs ≡ divs_of entries
      → All IsNamed entries
      → let text =
          to_lower_case (strip_trailing (strip_leading (search_text unescape location argument))) in
        IsUnits text
        → search to_lower_case unescape location argument p ≡ (
          record {
            divs = divs_of (show_only text entries);
            searching_shown = false;
            no_matches_shown = count_matches text entries == 0;
          },
          count_matches text entries,
        )
  unfolding search
  search-show_only unescape location argument entries p hp k h =
      let text =
        to_lower_case (strip_trailing (strip_leading (search_text unescape location argument))) in
      let e : 0 + count_matches text entries ≡ count_matches text entries = omega arith in
      rw (hp, search_rows_lem text entries 0 h k)
        (ap
          (λ n. (
            record {
              divs = divs_of (show_only text entries);
              searching_shown = false;
              no_matches_shown = n == 0;
            },
            n,
          ))
          e)
