-- ===== src/Search/Site/Language.antt =====
-- What the language does with texts of ASCII, and what that makes of the text of a search and of the rows
-- of a page.
use parse_embedded_sdks.Base.{
  lower, lower_unit, and_split, ℕ, ◌<◌, ◌≡◌, ◌≢◌, refl, ap₂, true, false, Bool-cases, inl, inr,
  List, [], ◌∷◌, ◌++◌, Bytes, codes, All, ltb, ltb→lt, ◌==◌, ne→==, if◌then◌else◌, arith,
}
use parse_embedded_sdks.Search.Escape.{escape}
use parse_embedded_sdks.Search.Ids.{same_text_eq, unit_id, convert_to_id, starts_with}
use parse_embedded_sdks.Search.Results.{strip_leading, strip_trailing, put_in_front, is_match}
use parse_embedded_sdks.Search.Box.{Language}
use parse_embedded_sdks.Search.Page.{SearchEntry}
use parse_embedded_sdks.Search.Query.{index_char, is_high_surrogate}
use parse_embedded_sdks.Search.Site.{filter, is_filed, all_filed, is_ascii, row_of}
use parse_embedded_sdks.Search.Site.Index.{begins}

-- What the language does with texts of ASCII.
pub record IsLanguage (lang : Language) : Type 0 where
  pub lower_lem : (s : Bytes) → is_ascii s ≡ true → lang.to_lower_case s ≡ lower s
  pub escape_lem : (s : Bytes) → is_ascii s ≡ true → lang.escape s ≡ escape s

pub ascii_units : (s : Bytes) → is_ascii s ≡ true → All (λ c. c < 65536) s
ascii_units [] h = tt
ascii_units (c ∷ s) h =
    let (small, rest) = and_split (ltb c 128) (is_ascii s) h in
    (omega (arith, ltb→lt c 128 small), ascii_units s rest)

-- The test of a row is the test of its entry's id, which is in lower case.
pub row_match :
    (lang : Language) (text : Bytes) (d : ℕ) (e : SearchEntry)
    → IsLanguage lang
    → is_filed d e ≡ true
    → is_match lang.to_lower_case (convert_to_id text) (row_of e) ≡ begins text e
row_match lang text d e l h =
    let (p, q) = and_split _ _ (and_split (starts_with (unit_id d) e.id) _ h).1 in
    rw (l.lower_lem (codes "SR_" ++ e.id) p, same_text_eq (lower e.id) e.id q) refl

pub filter_rows :
    (lang : Language) (text : Bytes) (d : ℕ) (entries : List SearchEntry)
    → IsLanguage lang
    → all_filed d entries ≡ true
    → filter (λ e. is_match lang.to_lower_case (convert_to_id text) (row_of e)) entries
      ≡ filter (begins text) entries
filter_rows lang text d [] l h = refl
filter_rows lang text d (e ∷ entries) l h =
    let (p, q) = and_split (is_filed d e) (all_filed d entries) h in
    ap₂ (λ b rest. if b then e ∷ rest else rest) (row_match lang text d e l p)
      (filter_rows lang text d entries l q)

pub put_in_front-ascii :
    (c : ℕ) (s : Bytes) → ltb c 128 ≡ true → is_ascii s ≡ true → is_ascii (put_in_front c s) ≡ true
put_in_front-ascii c [] h k = ground arith
put_in_front-ascii c (d ∷ s) h k = ground arith

pub strip_trailing-ascii : (s : Bytes) → is_ascii s ≡ true → is_ascii (strip_trailing s) ≡ true
strip_trailing-ascii [] h = refl
strip_trailing-ascii (c ∷ s) h =
    let (small, rest) = and_split (ltb c 128) (is_ascii s) h in
    put_in_front-ascii c (strip_trailing s) small (strip_trailing-ascii s rest)

pub strip_leading-ne : (s : Bytes) (c : ℕ) (t : Bytes) → strip_leading s ≡ c ∷ t → c ≢ b' '
strip_leading-ne [] c t h = ground arith
strip_leading-ne (d ∷ s) c t h = elim (Bool-cases (d == b' ')) [
  | inl e ↦ strip_leading-ne s c t (rw e at h)
  | inr e ↦ ground arith
]

pub strip_leading-cons : (c : ℕ) (t : Bytes) → c ≢ b' ' → strip_leading (c ∷ t) ≡ c ∷ t
strip_leading-cons c t h = rw (ne→== c b' ' h) refl

pub put_in_front-cons : (c : ℕ) (s : Bytes) → c ≢ b' ' → put_in_front c s ≡ c ∷ s
put_in_front-cons c [] h = rw (ne→== c b' ' h) refl
put_in_front-cons c (d ∷ s) h = refl

-- The character by which the panel chooses the page.
pub index_char_lem :
    (lang : Language) (c : ℕ) (t : Bytes)
    → IsLanguage lang
    → is_ascii (c ∷ t) ≡ true
    → index_char lang (c ∷ t) ≡ lower_unit c ∷ []
index_char_lem lang c t l h =
    let (small, rest) = and_split (ltb c 128) (is_ascii t) h in
    let one : is_ascii (c ∷ []) ≡ true = ground arith in
    let low : is_high_surrogate (lower (c ∷ t)) ≡ false = ground arith in
    rw (l.lower_lem (c ∷ t) h, low) (l.lower_lem (c ∷ []) one)
