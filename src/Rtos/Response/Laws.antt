-- ===== src/Rtos/Response/Laws.antt =====
-- The status and the body of a response with its headers.
use parse_embedded_sdks.Base.{
  ℕ, ◌+◌, ◌*◌, ◌-◌, ◌≤◌, ◌≡◌, ◌≢◌, refl, ap, ◌∙◌, true, false, some, List, [], ◌∷◌, ◌++◌,
  append_assoc, Bytes, codes, All, All-append, length, leb, ◌==◌, ne→==, pos, arith,
}
use parse_embedded_sdks.CString.{IsText, strlen-IsText}
use parse_embedded_sdks.Rtos.Response.{
  atoi, read_number, get_http_response_status, get_http_response_body, place, strstr, headers_end,
  body_at,
}

abbrev pub IsDigit : ℕ → Type 0
IsDigit c = (b'0' ≤ c) × (c ≤ b'9')

-- A byte of a header line.
abbrev pub IsLineByte : ℕ → Type 0
IsLineByte c = (c ≢ 0) × (c ≢ b'\r')

-- A header line has a byte at least.
abbrev pub IsLine : Bytes → Type 0
IsLine [] = ⊥
IsLine (c ∷ line) = All IsLineByte (c ∷ line)

-- Lines, with the empty line behind them.
abbrev pub lines_text : List Bytes → Bytes
lines_text [] = codes "\r\n"
lines_text (line ∷ lines) = line ++ (codes "\r\n" ++ lines_text lines)

-- A response: the status line with three digits, the other header lines, and the body.
abbrev pub response_text : (a b c : ℕ) (reason : Bytes) (lines : List Bytes) (body : Bytes) → Bytes
response_text a b c reason lines body =
    (codes "HTTP/1.1 " ++ a ∷ b ∷ c ∷ reason) ++ (codes "\r\n" ++ (lines_text lines ++ body))

read_number-digit :
    (n c : ℕ) (s : Bytes) → IsDigit c → read_number n (c ∷ s) ≡ read_number (n * 10 + (c - b'0')) s
read_number-digit n c s h = ground arith

atoi-digit : (c : ℕ) (s : Bytes) → IsDigit c → atoi (c ∷ s) ≡ pos (read_number 0 (c ∷ s))
atoi-digit c s h = ground arith

status_lem :
    (a b c : ℕ)
    → IsDigit a
    → IsDigit b
    → IsDigit c
    → atoi (a ∷ b ∷ c ∷ 0 ∷ []) ≡ pos (100 * (a - b'0') + 10 * (b - b'0') + (c - b'0'))
status_lem a b c ha hb hc =
    let x = a - b'0' in
    let y = b - b'0' in
    let number : ((0 * 10 + x) * 10 + y) * 10 + (c - b'0') ≡ 100 * x + 10 * y + (c - b'0') =
      omega arith in
    atoi-digit a (b ∷ c ∷ 0 ∷ []) ha
    ∙ ap pos (
        read_number-digit 0 a (b ∷ c ∷ 0 ∷ []) ha
        ∙ read_number-digit (0 * 10 + x) b (c ∷ 0 ∷ []) hb
        ∙ read_number-digit ((0 * 10 + x) * 10 + y) c (0 ∷ []) hc
        ∙ number)

-- The search passes a line, up to the end of it.
strstr_byte : (c : ℕ) (p : Bytes) → IsLineByte c → strstr headers_end (c ∷ p) ≡ strstr headers_end p
unfolding strstr
strstr_byte c p h =
    let other : (b'\r' == c) ≡ false = ground arith in rw (ne→== c 0 h.0, other) refl

strstr_line :
    (line p : Bytes) → All IsLineByte line → strstr headers_end (line ++ p) ≡ strstr headers_end p
strstr_line [] p h = refl
strstr_line (c ∷ line) p h = strstr_byte c (line ++ p) h.0 ∙ strstr_line line p h.1

-- The end of a line with another line behind it is passed.
strstr_end :
    (c : ℕ) (p : Bytes)
    → IsLineByte c
    → strstr headers_end (codes "\r\n" ++ c ∷ p) ≡ strstr headers_end (c ∷ p)
unfolding strstr
strstr_end c p h = let other : (b'\r' == c) ≡ false = ground arith in rw other refl

strstr_lines :
    (lines : List Bytes) (p : Bytes)
    → All IsLine lines
    → strstr headers_end (codes "\r\n" ++ lines_text lines ++ p) ≡ place (headers_end ++ p)
unfolding strstr
strstr_lines [] p h = refl
strstr_lines ([] ∷ lines) p (hc, h) = absurd hc
strstr_lines ((c ∷ line) ∷ lines) p (hc, h) =
    let rest = codes "\r\n" ++ lines_text lines in
    strstr_end c ((line ++ rest) ++ p) hc.0
    ∙ ap (strstr headers_end) (append_assoc (c ∷ line) rest p)
    ∙ strstr_line (c ∷ line) (rest ++ p) hc
    ∙ strstr_lines lines p h

behind_headers_lem :
    (body behind : Bytes)
    → IsText body
    → body_at (place (headers_end ++ (body ++ 0 ∷ behind))) ≡ place (body ++ 0 ∷ behind)
behind_headers_lem body behind h =
    let whole : IsText (headers_end ++ body) =
      (omega arith, (omega arith, (omega arith, (omega arith, h)))) in
    let long : leb 4 (length (headers_end ++ body)) ≡ true = ground arith in
    rw (strlen-IsText (headers_end ++ body) behind whole, long) refl

-- Of a response with a status line of three digits, header lines that have a byte at least, and a body
-- without NUL, the status is the number of the digits, and the body is found.
pub get_http_response_body-response_text :
    (a b c : ℕ) (reason : Bytes) (lines : List Bytes) (body behind : Bytes)
    → IsDigit a
    → IsDigit b
    → IsDigit c
    → All IsLineByte reason
    → All IsLine lines
    → IsText body
    → (get_http_response_status (response_text a b c reason lines body ++ 0 ∷ behind)
        ≡ some (pos (100 * (a - b'0') + 10 * (b - b'0') + (c - b'0'))))
      × (get_http_response_body (response_text a b c reason lines body ++ 0 ∷ behind)
          ≡ place (body ++ 0 ∷ behind))
unfolding get_http_response_status get_http_response_body
get_http_response_body-response_text a b c reason lines body behind ha hb hc hr hl ht =
    let line = codes "HTTP/1.1 " ++ a ∷ b ∷ c ∷ reason in
    let start : All IsLineByte (codes "HTTP/1.1 " ++ a ∷ b ∷ c ∷ []) = omega arith in
    let is_line : All IsLineByte line =
      All-append IsLineByte (codes "HTTP/1.1 " ++ a ∷ b ∷ c ∷ []) reason start hr in
    let p = body ++ 0 ∷ behind in
    let split : response_text a b c reason lines body ++ 0 ∷ behind
        ≡ line ++ (codes "\r\n" ++ (lines_text lines ++ p)) =
      append_assoc line (codes "\r\n" ++ (lines_text lines ++ body)) (0 ∷ behind)
      ∙ ap (λ q. line ++ (codes "\r\n" ++ q)) (append_assoc (lines_text lines) body (0 ∷ behind)) in
    (
      ap some (status_lem a b c ha hb hc),
      ap (λ q. body_at (strstr headers_end q)) split
          ∙ ap body_at (
              strstr_line line (codes "\r\n" ++ (lines_text lines ++ p)) is_line
              ∙ strstr_lines lines p hl)
          ∙ behind_headers_lem body behind ht,
    )
