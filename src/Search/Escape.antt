-- ===== src/Search/Escape.antt =====
-- `escape` and `unescape` of the language, as ECMAScript's Annex B describes them: with the one the
-- panel puts a text into the address of the results page, and with the other that page takes it out.
pub mod Laws
use parse_embedded_sdks.Base.{
  ℕ, zero, suc, ◌+◌, ◌-◌, ◌*◌, ◌/◌, ◌%◌, ◌<◌, ◌≡◌, ◌≢◌, refl, ap, ◌∙◌, Bool, true, false, ◌&&◌,
  ◌||◌, Bool-cases, inl, inr, ltb→lt, Option, none, some, [], ◌∷◌, ◌++◌, Bytes, All, All-append,
  ltb, leb, ◌==◌, if◌then◌else◌, ne→==, arith,
}

-- A hexadecimal digit in upper case.
upper_digit : ℕ → ℕ
upper_digit n = if ltb n 10 then b'0' + n else b'A' + n - 10

digit_value : ℕ → Option ℕ
digit_value c =
    if leb b'0' c && leb c b'9'
    then some (c - b'0')
    else if leb b'A' c && leb c b'F'
    then some (c - b'A' + 10)
    else if leb b'a' c && leb c b'f'
    then some (c - b'a' + 10)
    else none

-- The code units that `escape` leaves as they are.
abbrev is_unreserved : ℕ → Bool
is_unreserved c =
    (leb b'A' c && leb c b'Z')
    || (leb b'a' c && leb c b'z')
    || (leb b'0' c && leb c b'9')
    || (c == b'@')
    || (c == b'*')
    || (c == b'_')
    || (c == b'+')
    || (c == b'-')
    || (c == b'.')
    || (c == b'/')

-- What `escape` writes for a code unit.
escape_unit : ℕ → Bytes
unfolding upper_digit
escape_unit c =
    if is_unreserved c
    then c ∷ []
    else if ltb c 256
    then b'%' ∷ upper_digit (c / 16) ∷ upper_digit (c % 16) ∷ []
    else b'%'
      ∷ b'u'
      ∷ upper_digit (c / 4096)
      ∷ upper_digit (c / 256 % 16)
      ∷ upper_digit (c / 16 % 16)
      ∷ upper_digit (c % 16)
      ∷ []

unfoldable pub escape : Bytes → Bytes
unfolding escape_unit
escape [] = []
escape (c ∷ s) = escape_unit c ++ escape s

-- A number of digits at the start of a text, from the number read so far.
read_digits : ℕ → ℕ → Bytes → Option ℕ
unfolding digit_value
read_digits zero n s = some n
read_digits (suc k) n [] = none
read_digits (suc k) n (c ∷ s) = elim (digit_value c) [
  | none ↦ none
  | some d ↦ read_digits k (n * 16 + d) s
]

-- Two digits, or `u` and four, with the number of units that they take.
sized : ℕ → Option ℕ → Option (ℕ × ℕ)
sized k none = none
sized k (some n) = some (n, k)

read_code : Bytes → Option (ℕ × ℕ)
unfolding read_digits sized
read_code [] = none
read_code (c ∷ s) = elim (if c == b'u' then sized 5 (read_digits 4 0 s) else none) [
  | some r ↦ some r
  | none ↦ sized 2 (read_digits 2 0 (c ∷ s))
]

-- The text behind a number of units that are read already.
unescape_from : ℕ → Bytes → Bytes
unfolding read_code
unescape_from skip [] = []
unescape_from (suc skip) (c ∷ s) = unescape_from skip s
unescape_from zero (c ∷ s) = elim (if c == b'%' then read_code s else none) [
  | none ↦ c ∷ unescape_from zero s
  | some (n, size) ↦ n ∷ unescape_from size s
]

unfoldable pub unescape : Bytes → Bytes
unfolding unescape_from
unescape s = unescape_from zero s
