-- ===== src/Search/Site/Shown.antt =====
-- The rows that a page shows after its `Search`.
use parse_embedded_sdks.Base.{ℕ, ◌+◌, ◌≡◌, refl, ap, Bool-cases, inl, inr, List, [], ◌∷◌, Bytes}
use parse_embedded_sdks.Search.Results.{search_text, search_id, is_match, search_rows, search}
use parse_embedded_sdks.Search.Box.{Config}
use parse_embedded_sdks.Search.Page.{SearchEntry}
use parse_embedded_sdks.Search.Site.{
  Files, filter, load, query_of, row_of, rows_of, shown_of, shown_entries,
}

-- The entries of the page at an address that match.
abbrev pub matching_entries :
    (to_lower_case unescape : Bytes → Bytes) → Config → Files → Bytes → List SearchEntry
matching_entries to_lower_case unescape cfg files address =
    let id = search_id to_lower_case (search_text unescape (query_of address) []) in
    filter (λ e. is_match to_lower_case id (row_of e)) (load cfg files address)

shown_of-search_rows :
    (to_lower_case : Bytes → Bytes) (id : Bytes) (entries : List SearchEntry) (n : ℕ)
    → shown_of (search_rows to_lower_case id (rows_of entries) n).0 entries
      ≡ filter (λ e. is_match to_lower_case id (row_of e)) entries
shown_of-search_rows to_lower_case id [] n = refl
shown_of-search_rows to_lower_case id (e ∷ entries) n =
    elim (Bool-cases (is_match to_lower_case id (row_of e))) [
      | inl h ↦ rw h (ap (λ l. e ∷ l) (shown_of-search_rows to_lower_case id entries (n + 1)))
      | inr h ↦ rw h (shown_of-search_rows to_lower_case id entries n)
    ]

-- The rows that the page's `Search` shows are those that match.
pub shown_entries-matching_entries :
    (to_lower_case unescape : Bytes → Bytes) (cfg : Config) (files : Files) (address : Bytes)
    → shown_entries to_lower_case unescape cfg files address
      ≡ matching_entries to_lower_case unescape cfg files address
unfolding shown_entries search
shown_entries-matching_entries to_lower_case unescape cfg files address =
    shown_of-search_rows to_lower_case
      (search_id to_lower_case (search_text unescape (query_of address) []))
      (load cfg files address) 0
