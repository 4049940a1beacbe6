-- ===== src/Rtos/Response.antt =====
-- What the RTOS client reads of an HTTP response: getHttpResponseStatus and getHttpResponseBody of
-- rtos/http.c, and parseGetErrorCode of rtos/request.c.
pub mod Laws
use mathlib.Core.Option
use parse_embedded_sdks.Base.{
  ℕ, zero, suc, ◌+◌, ◌*◌, ◌-◌, Bool, true, false, ◌&&◌, ◌||◌, Option, none, some, List, [], ◌∷◌,
  ◌++◌, Bytes, codes, length, take, drop, ltb, leb, ◌==◌, if◌then◌else◌, ℤ, pos, negsuc, sub_ℕ,
}
use parse_embedded_sdks.CString.{same_prefix, strlen}
use parse_embedded_sdks.Json.Processor.{Extraction, copied, overrun, simple_json_processor}

-- `atoi`: blanks, a sign, and digits up to another byte.
abbrev is_space : ℕ → Bool
is_space c = c == b' ' || (leb 9 c && leb c 13)

abbrev pub read_number : ℕ → Bytes → ℕ
read_number n [] = n
read_number n (c ∷ s) =
    let rest = read_number (n * 10 + (c - b'0')) s in if leb b'0' c && leb c b'9' then rest else n

abbrev signed : Bytes → ℤ
signed [] = pos 0
signed (c ∷ s) =
    if c == b'-'
    then sub_ℕ 0 (read_number 0 s)
    else if c == b'+'
    then pos (read_number 0 s)
    else pos (read_number 0 (c ∷ s))

abbrev pub atoi : Bytes → ℤ
atoi [] = pos 0
atoi (c ∷ s) = let rest = atoi s in if is_space c then rest else signed (c ∷ s)

-- `getHttpResponseStatus`. `none` is a read past the allocation.
unfoldable pub get_http_response_status : Bytes → Option ℤ
get_http_response_status response =
    let http_status = take 3 (drop 9 response) in
    if length http_status == 3 then some (atoi (http_status ++ 0 ∷ [])) else none

-- What is found of a text: its place up to the end of the allocation, or nothing, or a read past the
-- allocation.
pub data Pointer : Type 0 where
  past absent : Pointer
  place : Bytes → Pointer

-- A step of `strstr`, by whether the text stands here.
abbrev here_or : Option Bool → Bytes → Pointer → Pointer
here_or none p next = past
here_or (some true) p next = place p
here_or (some false) p next = next

-- `strstr`.
unfoldable pub strstr : (text p : Bytes) → Pointer
strstr text [] = past
strstr text (c ∷ p) =
    let next = strstr text p in
    if c == 0 then absent else here_or (same_prefix text (c ∷ p)) (c ∷ p) next

abbrev headers_end : Bytes
headers_end = codes "\r\n\r\n"

-- `strlen(httpResponseBody) >= magicOffset2`, and the move.
abbrev behind_headers : Option ℕ → Bytes → Pointer
behind_headers none p = past
behind_headers (some n) p = if leb 4 n then place (drop 4 p) else place p

abbrev pub body_at : Pointer → Pointer
body_at (place p) = behind_headers (strlen p) p
body_at found = found

-- `getHttpResponseBody`.
unfoldable pub get_http_response_body : Bytes → Pointer
unfolding strstr
get_http_response_body response = body_at (strstr headers_end response)

-- `parseGetErrorCode`, with the code 2 where there is none; `none` is a read past the body.
abbrev code_of : Extraction → Option ℤ
code_of overrun = none
code_of (copied code true) = some (atoi (code ++ 0 ∷ []))
code_of e = some (pos 2)

unfoldable pub parse_get_error_code : Option Bytes → Option ℤ
parse_get_error_code body = code_of (simple_json_processor body (some (codes "code")) true 10)
