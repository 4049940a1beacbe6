-- ===== src/Rtos/Send/Laws.antt =====
-- A request and its answer, and whether the socket is closed.
use parse_embedded_sdks.Base.{
  ℕ, zero, suc, ◌+◌, ◌*◌, ◌-◌, ◌≤◌, ◌≡◌, refl, sym, ap, ap₂, ◌∙◌, Bool, true, false, not, ◌||◌,
  Option, none, some, List, [], ◌∷◌, ◌++◌, Bytes, All, length, take, take-append, replicate, ◌==◌,
  ℤ, pos, negsuc, is_negative, arith,
}
use parse_embedded_sdks.CString.{IsText}
use parse_embedded_sdks.Rtos.Request.{Client, built, is_get_request}
use parse_embedded_sdks.Rtos.Request.Laws.{request_text, build_request_headers-IsRequest}
use parse_embedded_sdks.Rtos.Response.Laws.{
  IsDigit, IsLineByte, IsLine, response_text, get_http_response_body-response_text,
}
use parse_embedded_sdks.Rtos.Send.{
  Network, Call, ssl_connect, socket_write, socket_read, socket_close, sent, data_buffer,
  after_write, answer_with, after_build, send_request, answered, call_back,
  parse_send_request_internal,
}

take-take : (n : ℕ) (s : Bytes) → take n (take (suc n) s) ≡ take n s
take-take zero s = refl
take-take (suc n) [] = refl
take-take (suc n) (c ∷ s) = ap (λ t. c ∷ t) (take-take n s)

take_text :
    (t memory : Bytes) → take (length t + 1) memory ≡ t ++ 0 ∷ [] → take (length t) memory ≡ t
take_text t memory h =
    let one_on : suc (length t) ≡ length t + 1 = omega arith in
    sym (take-take (length t) memory)
    ∙ ap (take (length t)) (ap (λ n. take n memory) one_on ∙ h)
    ∙ take-append t (0 ∷ [])

-- What is sent, where the request fits the buffer and the connection stands.
send_request_built :
    (c : Client) (net : Network) (add_installation : Bool) (host verb body : Bytes) (handle : ℕ)
    → net.connect_status ≡ pos handle
    → length (request_text c (is_get_request verb) add_installation host verb body) ≤ 1022
    → (size : ℤ) × (memory : Bytes) × (let text =
          request_text c (is_get_request verb) add_installation host verb body in
        (take (length text) memory ≡ text)
        × (send_request c net add_installation host verb body
            ≡ after_build net handle (built memory (length text) size)))
unfolding send_request
send_request_built c net add_installation host verb body handle hc fits =
    let text = request_text c (is_get_request verb) add_installation host verb body in
    let request = build_request_headers-IsRequest c add_installation host verb body fits in
    (
      pos (1023 - length text),
      request.memory,
      (
        take_text text request.memory request.text,
        rw hc (ap (after_build net handle) request.state),
      ),
    )

abbrev pub is_closed : ℕ → List Call → Bool
is_closed handle [] = false
is_closed handle (socket_close h ∷ calls) = handle == h || is_closed handle calls
is_closed handle (call ∷ calls) = is_closed handle calls

after_write-is_closed :
    (net : Network) (handle : ℕ) (t : Bytes) (w : ℤ)
    → (status : ℤ) × (buffer : Option Bytes) × (calls : List Call) × (after_write net handle w
          (ssl_connect ∷ socket_write handle t ∷ [])
        ≡ sent status buffer (ssl_connect ∷ socket_write handle t ∷ calls))
      × (is_closed handle calls ≡ not (is_negative w))
after_write-is_closed net handle t (pos n) =
    let closed : handle == handle || false ≡ true = ground arith in
    (
      net.read_status,
      some (data_buffer net.received),
      socket_read handle ∷ socket_close handle ∷ [],
      refl,
      closed,
    )
after_write-is_closed net handle t (negsuc n) = (negsuc n, none, [], refl, refl)

-- Where the connection stands and the request has 1022 bytes or fewer, exactly the request is written
-- to the socket, and the socket is closed just where that has succeeded: where the write fails, the
-- socket stays open.
pub send_request-is_closed :
    (c : Client) (net : Network) (add_installation : Bool) (host verb body : Bytes) (handle : ℕ)
    → net.connect_status ≡ pos handle
    → length (request_text c (is_get_request verb) add_installation host verb body) ≤ 1022
    → (status : ℤ) × (buffer : Option Bytes) × (calls : List Call) × (send_request c net
          add_installation host verb body
        ≡ sent status buffer (
            ssl_connect
            ∷ socket_write handle
                (request_text c (is_get_request verb) add_installation host verb body)
            ∷ calls))
      × (is_closed handle calls ≡ not (is_negative net.write_status))
send_request-is_closed c net add_installation host verb body handle hc fits =
    let (size, memory, (text, built_lem)) =
      send_request_built c net add_installation host verb body handle hc fits in
    let t = request_text c (is_get_request verb) add_installation host verb body in
    let (status, buffer, calls, e, closed) = after_write-is_closed net handle t net.write_status in
    (
      status,
      buffer,
      calls,
      built_lem
          ∙ ap
              (λ q.
                after_write net handle net.write_status (ssl_connect ∷ socket_write handle q ∷ []))
              text
          ∙ e,
      closed,
    )

data_buffer_lem :
    (s : Bytes) → length s ≤ 1023 → data_buffer s ≡ s ++ 0 ∷ replicate (1023 - length s) 0
data_buffer_lem s h =
    let n : 1024 - length s ≡ suc (1023 - length s) = omega arith in ap (λ k. s ++ replicate k 0) n

-- A request of 1022 bytes or fewer that the sockets send, and that is answered by a response of 1023
-- bytes or fewer, with a status line of three digits, header lines that have a byte at least, and a body
-- without NUL: the request is written whole, the socket is closed, and the callback gets no error,
-- the number of the digits, and the body, with a NUL behind it.
pub parse_send_request_internal-response_text :
    (cl : Client) (net : Network) (add_installation : Bool) (host verb body : Bytes)
    (handle written read a b c : ℕ) (reason : Bytes) (lines : List Bytes) (answer : Bytes)
    → length (request_text cl (is_get_request verb) add_installation host verb body) ≤ 1022
    → net.connect_status ≡ pos handle
    → net.write_status ≡ pos written
    → net.read_status ≡ pos read
    → net.received ≡ response_text a b c reason lines answer
    → length (response_text a b c reason lines answer) ≤ 1023
    → IsDigit a
    → IsDigit b
    → IsDigit c
    → All IsLineByte reason
    → All IsLine lines
    → IsText answer
    → (behind : Bytes) × (parse_send_request_internal cl net add_installation host verb body
        ≡ answered
            (ssl_connect
              ∷ socket_write handle
                  (request_text cl (is_get_request verb) add_installation host verb body)
              ∷ socket_read handle
              ∷ socket_close handle
              ∷ [])
            (record {
              error = pos 0;
              http_status = pos (100 * (a - b'0') + 10 * (b - b'0') + (c - b'0'));
              body = some (answer ++ 0 ∷ behind);
            }))
unfolding parse_send_request_internal
parse_send_request_internal-response_text cl net add_installation host verb body handle written read
      a b c reason lines answer fits hc hw hr hn short ha hb hd hs hl ht =
    let (size, memory, (text, built_lem)) =
      send_request_built cl net add_installation host verb body handle hc fits in
    let t = request_text cl (is_get_request verb) add_installation host verb body in
    let calls =
      ssl_connect ∷ socket_write handle t ∷ socket_read handle ∷ socket_close handle ∷ [] in
    let response = response_text a b c reason lines answer in
    let behind = replicate (1023 - length response) 0 in
    let (status, found) =
      get_http_response_body-response_text a b c reason lines answer behind ha hb hd hs hl ht in
    (
      behind,
      ap call_back (
            built_lem
            ∙ ap₂ (λ q w. after_write net handle w (ssl_connect ∷ socket_write handle q ∷ [])) text
                hw)
          ∙ ap₂ (λ r d. call_back (sent r (some (data_buffer d)) calls)) hr hn
          ∙ ap (λ d. call_back (sent (pos read) (some d) calls)) (data_buffer_lem response short)
          ∙ ap₂ (answer_with calls) status found,
    )
