-- ===== src/Rtos/Send.antt =====
-- How the RTOS client sends a request: sendRequest and parseSendRequestInternal of rtos/request.c. What
-- the port's sockets answer is an argument.
pub mod Laws
use parse_embedded_sdks.Base.{
  ℕ, zero, suc, ◌+◌, ◌-◌, Bool, true, false, Option, none, some, List, [], ◌∷◌, ◌++◌, Bytes, codes,
  length, take, replicate, ℤ, pos, negsuc,
}
use parse_embedded_sdks.Rtos.Request.{
  Building, fault, failed, built, Client, buffer_size, build_request_headers,
}
use parse_embedded_sdks.Rtos.Response.{
  Pointer, past, absent, place, get_http_response_status, get_http_response_body,
}

-- What socketSslConnect, socketWrite and socketRead answer: a status each, which is negative where the
-- call fails, and the bytes that have been read.
pub record Network : Type 0 where
  pub connect_status : ℤ
  pub write_status : ℤ
  pub read_status : ℤ
  pub received : Bytes

-- The calls of the sockets.
pub data Call : Type 0 where
  ssl_connect : Call
  socket_write : ℕ → Bytes → Call
  socket_read socket_close : ℕ → Call

-- A write past the buffer, or the status and the bytes that have been read into `dataBuffer`, where
-- there are any.
pub data Sent : Type 0 where
  faulted : Sent
  sent : ℤ → Option Bytes → List Call → Sent

-- `dataBuffer` after the read, which has been cleared for it.
abbrev pub data_buffer : Bytes → Bytes
data_buffer received = received ++ replicate (buffer_size - length received) 0

-- From the answer of `socketWrite` on.
abbrev after_write : Network → ℕ → ℤ → List Call → Sent
after_write net handle (negsuc n) calls = sent (negsuc n) none calls
after_write net handle (pos n) calls =
    sent net.read_status (some (data_buffer net.received))
      (calls ++ socket_read handle ∷ socket_close handle ∷ [])

-- From the end of `buildRequestHeaders` on.
abbrev pub after_build : Network → ℕ → Building → Sent
after_build net handle fault = faulted
after_build net handle failed = sent (negsuc 0) none (ssl_connect ∷ [])
after_build net handle (built memory position size) =
    after_write net handle net.write_status
      (ssl_connect ∷ socket_write handle (take position memory) ∷ [])

-- From the answer of `socketSslConnect` on.
abbrev after_connect : Network → ℤ → Building → Sent
after_connect net (negsuc n) request = sent (negsuc n) none (ssl_connect ∷ [])
after_connect net (pos handle) request = after_build net handle request

-- `sendRequest`.
unfoldable pub send_request : Client → Network → Bool → (host verb body : Bytes) → Sent
send_request c net add_installation host verb body =
    after_connect net net.connect_status (build_request_headers c add_installation host verb body)

-- What the callback is given: the error, the status, and the body.
pub record Answer : Type 0 where
  pub error : ℤ
  pub http_status : ℤ
  pub body : Option Bytes

-- What has been done: a read or a write past the buffer, or the calls and the callback's argument.
pub data Outcome : Type 0 where
  broken : Outcome
  answered : List Call → Answer → Outcome

abbrev answer_with : List Call → Option ℤ → Pointer → Outcome
answer_with calls none body = broken
answer_with calls (some status) past = broken
answer_with calls (some status) absent =
    answered calls (record { error = pos 0; http_status = status; body = none })
answer_with calls (some status) (place p) =
    answered calls (record { error = pos 0; http_status = status; body = some p })

-- The callback. A buffer that has not been read into is taken where no status is negative, which is
-- never.
abbrev pub call_back : Sent → Outcome
call_back faulted = broken
call_back (sent (negsuc n) buffer calls) =
    answered calls (record { error = negsuc n; http_status = negsuc 0; body = none })
call_back (sent (pos n) none calls) = broken
call_back (sent (pos n) (some buffer) calls) =
    answer_with calls (get_http_response_status buffer) (get_http_response_body buffer)

-- `parseSendRequestInternal` with a callback.
unfoldable pub parse_send_request_internal :
    Client → Network → Bool → (host verb body : Bytes) → Outcome
unfolding send_request get_http_response_status get_http_response_body
parse_send_request_internal c net add_installation host verb body =
    call_back (send_request c net add_installation host verb body)
