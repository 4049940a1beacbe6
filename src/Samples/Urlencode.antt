-- ===== src/Samples/Urlencode.antt =====
-- The URL encoding of cc3200/samples/blink/urlencode.c. A `char` is a byte without a sign, as on
-- the board's ARM core, and `isalnum`, `isdigit` and `tolower` are those of the C locale. The
-- caller's array for the result is taken to have room for it.
pub mod Laws
use parse_embedded_sdks.Base.{
  ℕ, zero, suc, ◌+◌, ◌-◌, ◌*◌, ◌/◌, ◌%◌, Bool, true, false, not, ◌&&◌, ◌||◌, Option, none, some, [],
  ◌∷◌, ◌++◌, Bytes, lower_unit, leb, ◌==◌, if◌then◌else◌,
}

abbrev pub is_decimal_digit : ℕ → Bool
is_decimal_digit c = leb b'0' c && leb c b'9'

abbrev pub is_alnum : ℕ → Bool
is_alnum c = is_decimal_digit c || (leb b'A' c && leb c b'Z') || (leb b'a' c && leb c b'z')

-- `a | b`, of numbers below 2 ^ width.
abbrev pub bit_or : (width a b : ℕ) → ℕ
bit_or zero a b = 0
bit_or (suc width) a b =
    (if (a % 2 == 0) && (b % 2 == 0) then 0 else 1) + 2 * bit_or width (a / 2) (b / 2)

-- `fromHex`, whose result is cut to a `char`.
abbrev pub from_hex : ℕ → ℕ
from_hex c = if is_decimal_digit c then c - b'0' else (lower_unit c + (256 - b'a') + 10) % 256

-- `toHex`: `hex[code & 15]`.
abbrev pub nibble_digit : ℕ → ℕ
nibble_digit code = if leb (code % 16) 9 then b'0' + code % 16 else b'a' + (code % 16 - 10)

-- The bytes that stay as they are.
abbrev pub is_url_safe : ℕ → Bool
is_url_safe c = is_alnum c || c == b'-' || c == b'_' || c == b'.' || c == b'~'

-- What `urlEncode` writes for a byte.
abbrev pub encode_byte : ℕ → Bytes
encode_byte c =
    if is_url_safe c
    then c ∷ []
    else if c == b' '
    then b'+' ∷ []
    else b'%' ∷ nibble_digit (c / 16) ∷ nibble_digit (c % 16) ∷ []

abbrev pub also_written : Bytes → Option Bytes → Option Bytes
also_written before none = none
also_written before (some rest) = some (before ++ rest)

-- `urlEncode`: what is written before the NUL. `none` is a read past the text.
unfoldable pub url_encode : Bytes → Option Bytes
url_encode [] = none
url_encode (c ∷ p) =
    let rest = also_written (encode_byte c) (url_encode p) in if c == 0 then some [] else rest

-- The byte of an escape: `fromHex(h) << 4 | fromHex(l)`, cut to a `char`.
abbrev pub decode_byte : ℕ → ℕ → ℕ
decode_byte h l = bit_or 12 (from_hex h * 16) (from_hex l) % 256

-- `urlDecode`: what is written before the NUL. A `%` without two bytes behind it is left out, and
-- what stands behind it is read as it is.
unfoldable pub url_decode : Bytes → Option Bytes
url_decode [] = none
url_decode (c ∷ []) = if c == 0 then some [] else none
url_decode (c ∷ h ∷ []) =
    if c == 0
    then some []
    else if c == b'%'
    then (if h == 0 then some [] else none)
    else if h == 0
    then some ((if c == b'+' then b' ' else c) ∷ [])
    else none
url_decode (c ∷ h ∷ l ∷ p) =
    let behind = url_decode p in
    let rest = url_decode (h ∷ l ∷ p) in
    if c == 0
    then some []
    else if c == b'%'
    then (if not (h == 0) && not (l == 0) then also_written (decode_byte h l ∷ []) behind else rest)
    else also_written ((if c == b'+' then b' ' else c) ∷ []) rest
