-- ===== src/Search/Site/Index.antt =====
-- A section whose pages are indexed: the entries that begin with a text stand on the page of its first
-- character.
use parse_embedded_sdks.Base.{
  and_split, ℕ, suc, ◌+◌, ◌<◌, ◌≡◌, ◌≢◌, refl, sym, ap, ap₂, ◌∙◌, Bool, true, not, Bool-cases, inl,
  inr, Option, none, some, List, [], ◌∷◌, ◌++◌, append-nil, Bytes, ltb, ltb→lt, ◌==◌, arith,
}
use parse_embedded_sdks.Search.Ids.{convert_to_id, starts_with, starts_with-ne}
use parse_embedded_sdks.Search.Page.{SearchEntry}
use parse_embedded_sdks.Search.Query.{index_of, one_more}
use parse_embedded_sdks.Search.Site.{
  Files, file_entries, page_file, filter, section_entries, is_absent, is_filed, all_filed,
  is_indexed,
}

filter-append :
    (keep : SearchEntry → Bool) (xs ys : List SearchEntry)
    → filter keep (xs ++ ys) ≡ filter keep xs ++ filter keep ys
filter-append keep [] ys = refl
filter-append keep (x ∷ xs) ys = elim (Bool-cases (keep x)) [
  | inl e ↦ rw e (ap (λ l. x ∷ l) (filter-append keep xs ys))
  | inr e ↦ rw e (filter-append keep xs ys)
]

-- Whether an entry begins with a text.
abbrev pub begins : Bytes → SearchEntry → Bool
begins text e = starts_with (convert_to_id text) e.id

-- The entries on the page of another character do not begin with the text.
filter_other :
    (c d : ℕ) (text : Bytes) (entries : List SearchEntry)
    → c < 128
    → d < 128
    → c ≢ d
    → all_filed d entries ≡ true
    → filter (begins (c ∷ text)) entries ≡ []
filter_other c d text [] hc hd ne h = refl
filter_other c d text (e ∷ entries) hc hd ne h =
    let (filed, rest) = and_split (is_filed d e) (all_filed d entries) h in
    rw (starts_with-ne c d text e.id (omega arith) (omega arith) ne (and_split _ _ filed).0)
      (filter_other c d text entries hc hd ne rest)

-- The page of a position, which is none where the character has no page.
abbrev pub page_entries : Files → Bytes → ℕ → Option ℕ → List SearchEntry
page_entries files name i none = []
page_entries files name i (some j) = file_entries files (page_file name (i + j))

-- Where the character has no page, no entry of the section begins with the text.
filter_absent :
    (files : Files) (name : Bytes) (i c : ℕ) (text contents : Bytes)
    → c < 128
    → is_indexed files name i contents ≡ true
    → is_absent c contents ≡ true
    → filter (begins (c ∷ text)) (section_entries files name i contents) ≡ []
unfolding is_indexed
filter_absent files name i c text [] hc h a = refl
filter_absent files name i c text (d ∷ contents) hc h a =
    let (small, h') = and_split (ltb d 128) _ h in
    let (absent, h'') = and_split (is_absent d contents) _ h' in
    let (filed, rest) = and_split (all_filed d (file_entries files (page_file name i))) _ h'' in
    let (ne, a') = and_split (not (c == d)) (is_absent c contents) a in
    filter-append (begins (c ∷ text)) (file_entries files (page_file name i))
      (section_entries files name (i + 1) contents)
    ∙ ap₂ ◌++◌
        (filter_other c d text (file_entries files (page_file name i)) hc (ltb→lt d 128 small)
          (ground arith) filed)
        (filter_absent files name (i + 1) c text contents hc rest a')

starts_one : (c d : ℕ) (contents : Bytes) → starts_with (c ∷ []) (d ∷ contents) ≡ (d == c)
starts_one c d contents = ground arith

page_entries-one_more :
    (files : Files) (name : Bytes) (i : ℕ) (o : Option ℕ)
    → page_entries files name i (one_more o) ≡ page_entries files name (i + 1) o
page_entries-one_more files name i none = refl
page_entries-one_more files name i (some j) =
    let e : i + suc j ≡ i + 1 + j = omega arith in ap (λ n. file_entries files (page_file name n)) e

-- The entries of a section that begin with a text are those of the page of its first character.
pub filter-section_entries :
    (files : Files) (name : Bytes) (i c : ℕ) (text contents : Bytes)
    → c < 128
    → is_indexed files name i contents ≡ true
    → filter (begins (c ∷ text)) (section_entries files name i contents)
      ≡ filter (begins (c ∷ text)) (page_entries files name i (index_of (c ∷ []) contents))
unfolding is_indexed
filter-section_entries files name i c text [] hc h = refl
filter-section_entries files name i c text (d ∷ contents) hc h =
    let keep = begins (c ∷ text) in
    let page = file_entries files (page_file name i) in
    let behind = section_entries files name (i + 1) contents in
    let (small, h') = and_split (ltb d 128) _ h in
    let (absent, h'') = and_split (is_absent d contents) _ h' in
    let (filed, rest) = and_split (all_filed d page) _ h'' in
    elim (Bool-cases (d == c)) [
      | inl e ↦
          let same : d ≡ c = ground arith in
          let here : i ≡ i + 0 = omega arith in
          rw (starts_one c d contents, e)
            (filter-append keep page behind
              ∙ ap (λ l. filter keep page ++ l)
                  (filter_absent files name (i + 1) c text contents hc rest
                    (ap (λ x. is_absent x contents) (sym same) ∙ absent))
              ∙ append-nil (filter keep page)
              ∙ ap (λ n. filter keep (file_entries files (page_file name n))) here)
      | inr e ↦
          rw (starts_one c d contents, e)
            (filter-append keep page behind
              ∙ ap₂ ◌++◌ (filter_other c d text page hc (ltb→lt d 128 small) (ground arith) filed)
                  (filter-section_entries files name (i + 1) c text contents hc rest)
              ∙ ap (filter keep)
                  (sym (page_entries-one_more files name i (index_of (c ∷ []) contents))))
    ]

-- The entries of that page are filed under one character.
pub page-filed :
    (files : Files) (name : Bytes) (i c : ℕ) (contents : Bytes)
    → is_indexed files name i contents ≡ true
    → (d : ℕ) × (all_filed d (page_entries files name i (index_of (c ∷ []) contents)) ≡ true)
unfolding is_indexed
page-filed files name i c [] h = (c, refl)
page-filed files name i c (d ∷ contents) h =
    let (small, h') = and_split (ltb d 128) _ h in
    let (absent, h'') = and_split (is_absent d contents) _ h' in
    let (filed, rest) = and_split (all_filed d (file_entries files (page_file name i))) _ h'' in
    elim (Bool-cases (d == c)) [
      | inl e ↦
          let here : i ≡ i + 0 = omega arith in
          (
            d,
            rw (starts_one c d contents, e)
                (ap (λ n. all_filed d (file_entries files (page_file name n))) (sym here) ∙ filed),
          )
      | inr e ↦
          let (d', filed') = page-filed files name (i + 1) c contents rest in
          (
            d',
            rw (starts_one c d contents, e)
                (ap (all_filed d') (page_entries-one_more files name i (index_of (c ∷ []) contents))
                  ∙ filed'),
          )
    ]
