-- ===== src/Rtos/Push/Start.antt =====
-- How the push service of the RTOS client starts and stops: rtos/push.c, over socketSslConnect of
-- cc3200/src/socket.c.
use parse_embedded_sdks.Base.{
  ◌-◌, Bool, false, not, Option, none, some, List, [], ◌∷◌, ◌++◌, Bytes, codes, length, take, ◌==◌,
  if◌then◌else◌, ℤ, pos, negsuc,
}
use parse_embedded_sdks.Push.Buffer.{write_at}
use parse_embedded_sdks.Cc3200.Socket.{SocketCall, Connecting, socket_ssl_connect, socket_write}
use parse_embedded_sdks.Rtos.Installation.{Device, World, get_installation}
use parse_embedded_sdks.Rtos.Push.{
  PushEvent, connected, closed, PushClient, push_buffer_size, call_push_back, sends,
}

abbrev pub is_set : Bytes → Bool
is_set text = not (length text == 0)

-- The text that opens the service, in the array of which `snprintf` is told one byte less.
abbrev pub handshake : PushClient → Bytes
handshake c =
    let quote = if is_set c.last_push_time then codes "\"" else [] in
    let time = if is_set c.last_push_time then c.last_push_time else codes "null" in
    take (push_buffer_size - 1 - 1) (
      codes "{\"installation_id\":\""
      ++ (c.device.client.installation_id
          ++ (codes "\", \"oauth_key\":\""
              ++ (c.device.client.application_id
                  ++ (codes "\", \"v\": \"e1.0.0\", \"last\": "
                      ++ (quote ++ (time ++ (quote ++ codes "}\r\n"))))))))

-- The result of `parseStartPushService`, with the client and the events.
abbrev pub Started : Type 0
Started = ℤ × PushClient × List PushEvent

-- From the answer of `socketWrite` on.
abbrev after_handshake : ℤ → ℤ → PushClient → List PushEvent → Started
after_handshake handle (negsuc n) c events =
    (negsuc n, c, events ++ (closed handle ∷ call_push_back c.has_callback (negsuc n) none))
after_handshake handle (pos n) c events = (pos n, record c { socket_handle = handle }, events)

-- From the answer of `socketSslConnect` on.
abbrev pub after_socket_connect : ℤ → PushClient → ℤ × List SocketCall → Started
after_socket_connect answer c (negsuc n, calls) =
    (negsuc n, c, connected calls ∷ call_push_back c.has_callback (negsuc n) none)
after_socket_connect answer c (pos handle, calls) =
    let text = handshake c in
    let (status, sending) = socket_write (pos handle) answer text in
    let buffer = record c.buffer { bytes = write_at c.buffer.bytes 0 (text ++ 0 ∷ []) } in
    after_handshake (pos handle) status (record c { buffer = buffer })
      (connected calls ∷ sends sending)

-- From the end of `getInstallation` on.
abbrev pub after_installation : Connecting → ℤ → PushClient → Option Device → Option Started
after_installation a answer c none = none
after_installation a answer c (some d) =
    some (after_socket_connect answer (record c { device = d }) (socket_ssl_connect a))

-- `parseStartPushService`, by what the calls that connect and the `send` answer.
unfoldable pub start_push_service : World → Connecting → ℤ → PushClient → Option Started
start_push_service w a answer c = after_installation a answer c (get_installation w c.device)

-- `parseStopPushService`.
unfoldable pub stop_push_service : PushClient → PushClient × List PushEvent
stop_push_service c = (
  record c { socket_handle = negsuc 0; failed_pings = 0; has_callback = false },
  closed c.socket_handle ∷ [],
)

-- `parseSetPushCallback`, by whether the callback is given.
abbrev pub set_push_callback : Bool → PushClient → PushClient
set_push_callback given c = record c { has_callback = given }

-- `parseGetPushSocket`.
abbrev pub get_push_socket : PushClient → ℤ
get_push_socket c = c.socket_handle
