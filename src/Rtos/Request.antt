-- ===== src/Rtos/Request.antt =====
-- `buildRequestHeaders` of rtos/request.c, with the lines of rtos/http.c that it writes: a request in
-- the static buffer. The texts are C strings, as bytes.
pub mod Laws
use parse_embedded_sdks.Base.{
  ℕ, zero, suc, ◌+◌, ◌-◌, ◌/◌, ◌%◌, Bool, true, false, not, ◌&&◌, Option, none, some, List, [], ◌∷◌,
  ◌++◌, Bytes, codes, length, take, replicate, ltb, leb, ◌==◌, if◌then◌else◌, ℤ, pos, negsuc, ◌-ℤ◌,
}
use parse_embedded_sdks.Push.Buffer.{write_at}

-- `RECEIVE_BUFFER_SIZE`, the size of `dataBuffer`.
abbrev pub buffer_size : ℕ
buffer_size = 1024

-- `dataBuffer`, `currentPosition` and `currentSize`, while no status is negative; or a write past the
-- array; or a negative status.
pub data Building : Type 0 where
  fault failed : Building
  built : Bytes → ℕ → ℤ → Building

-- Bytes into the array at a position.
abbrev pub put : Bytes → ℕ → Bytes → Option Bytes
put memory position d =
    if leb (position + length d) buffer_size then some (write_at memory position d) else none

-- What `snprintf` writes of a text, with a size that it takes as a `size_t`.
abbrev pub printed : ℤ → Bytes → Bytes
printed (pos zero) text = []
printed (pos (suc n)) text = take n text ++ 0 ∷ []
printed (negsuc _) text = text ++ 0 ∷ []

-- `status >= httpRequestSize`.
abbrev pub is_cut : ℕ → ℤ → Bool
is_cut n (pos size) = leb size n
is_cut n (negsuc _) = false

-- The array behind a write, with the position and the size.
abbrev pub stored : ℕ → ℤ → Option Bytes → Building
stored position size none = fault
stored position size (some memory) = built memory position size

abbrev pub unless_cut : Bool → Building → Building
unless_cut true fault = fault
unless_cut true b = failed
unless_cut false b = b

-- A call of `snprintf`, and the move behind it.
unfoldable pub print : Bytes → Building → Building
print text fault = fault
print text failed = failed
print text (built memory position size) =
    stored (position + length text) (size -ℤ length text) (put memory position (printed size text))

-- `addHttpRequestLine`, and the move behind it. A text without bytes stands for the header that is
-- left out.
unfoldable pub add_line : Bytes → Building → Building
unfolding print
add_line [] b = b
add_line (c ∷ text) fault = fault
add_line (c ∷ text) failed = failed
add_line (c ∷ text) (built memory position size) =
    unless_cut (is_cut (length (c ∷ text)) size) (print (c ∷ text) (built memory position size))

-- `beginHttpRequest` and `beginHttpGetRequest`.
abbrev pub begin_line : Bool → (host verb body : Bytes) → Bytes
begin_line false host verb body = verb ++ codes " " ++ host ++ codes " HTTP/1.1\r\n"
begin_line true host verb [] = verb ++ codes " " ++ host ++ codes " HTTP/1.1\r\n"
begin_line true host verb (c ∷ query) =
    verb ++ codes " " ++ host ++ codes "?" ++ (c ∷ query) ++ codes " HTTP/1.1\r\n"

-- `addHttpRequestHeader`: a header without a value is left out.
abbrev pub header : (name value : Bytes) → Bytes
header name [] = []
header name (c ∷ value) = name ++ codes ": " ++ (c ∷ value) ++ codes "\r\n"

decimal_digits : ℕ → ℕ → Bytes
decimal_digits zero n = []
decimal_digits (suc fuel) n =
    let rest = decimal_digits fuel (n / 10) in
    (if ltb n 10 then [] else rest) ++ (b'0' + n % 10) ∷ []

-- `%d`. The digits of a number are fewer than it and one.
unfoldable pub decimal : ℕ → Bytes
unfolding decimal_digits
decimal n = decimal_digits (n + 1) n

-- The fields of the client that the headers are made of.
pub record Client : Type 0 where
  pub os_version : Bytes
  pub device_client_version : Bytes
  pub application_id : Bytes
  pub client_key : Bytes
  pub installation_id : Bytes
  pub session_token : Bytes

abbrev pub add_lines : List Bytes → Building → Building
add_lines [] b = b
add_lines (l ∷ lines) b = add_lines lines (add_line l b)

-- The lines in the order of their writing: the request line, the client's headers, those of the
-- installation, and those of a body.
abbrev pub head_lines : Client → Bool → Bool → Bool → (host verb body : Bytes) → List Bytes
head_lines c is_get add_installation has_body host verb body =
    (begin_line is_get host verb body
      ∷ header (codes "Host") (codes "api.parse.com")
      ∷ header (codes "User-Agent") c.device_client_version
      ∷ header (codes "X-Parse-OS-Version") c.os_version
      ∷ header (codes "X-Parse-Client-Version") c.device_client_version
      ∷ header (codes "X-Parse-Application-Id") c.application_id
      ∷ header (codes "X-Parse-Client-Key") c.client_key
      ∷ [])
    ++ (if add_installation
        then header (codes "X-Parse-Installation-Id") c.installation_id
          ∷ header (codes "X-Parse-Session-Token") c.session_token
          ∷ []
        else [])
    ++ (if has_body
        then header (codes "Content-Type") (codes "application/json; charset=utf-8")
          ∷ header (codes "Content-Length") (decimal (length body))
          ∷ []
        else [])

-- `dataBuffer[currentPosition] = 0`.
abbrev pub terminated : Building → Building
terminated (built memory position size) = stored position size (put memory position (0 ∷ []))
terminated b = b

abbrev upper : ℕ → ℕ
upper c = if leb b'a' c && leb c b'z' then c - 32 else c

-- `strncasecmp(httpVerb, "GET", 3) == 0`.
abbrev pub is_get_request : Bytes → Bool
is_get_request (g ∷ e ∷ t ∷ rest) = (upper g == b'G') && (upper e == b'E') && (upper t == b'T')
is_get_request verb = false

-- `buildRequestHeaders`, by whether the request is a GET. `body` is the request's body, or the query
-- of a GET, without bytes where it is NULL.
unfoldable pub build_request : Client → Bool → Bool → (host verb body : Bytes) → Building
unfolding add_line print decimal
build_request c is_get add_installation host verb body =
    let has_body = not is_get && not (length body == 0) in
    let head = print (codes "\r\n") (
      add_lines (head_lines c is_get add_installation has_body host verb body)
        (built (replicate buffer_size 0) 0 (pos (buffer_size - 1)))) in
    terminated (if has_body then print body head else head)

-- `buildRequestHeaders`.
unfoldable pub build_request_headers : Client → Bool → (host verb body : Bytes) → Building
unfolding build_request
build_request_headers c add_installation host verb body =
    build_request c (is_get_request verb) add_installation host verb body
