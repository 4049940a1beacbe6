-- ===== src/Rtos/Push.antt =====
-- The push service of the RTOS client: rtos/push.c, over the sockets of cc3200/src/socket.c. What
-- the board and the server answer are arguments; what the code does outside is a list of events.
-- The state's texts are C strings, as bytes.
pub mod Start
pub mod Ping
pub mod Stuck
pub mod Full
pub mod Finish
pub mod Messages
pub mod Handshake
pub mod Bounds
mod Tests
use parse_embedded_sdks.Base.{
  ℕ, ◌+◌, ◌-◌, Bool, true, false, not, ◌&&◌, Option, none, some, List, [], ◌∷◌, ◌++◌, Bytes, codes,
  length, take, drop, replicate, ltb, ◌==◌, if◌then◌else◌, ℤ, pos, negsuc, is_negative,
}
use parse_embedded_sdks.CString.{same_prefix}
use parse_embedded_sdks.Json.Processor.{Extraction, copied, simple_json_processor}
use parse_embedded_sdks.Json.Frame.{PushJson, overrun, nothing, message, get_push_json}
use parse_embedded_sdks.Push.Buffer.{
  Buffer, has_room, is_full, used_size, write_at, is_partial, terminate, consume, has_more,
}
use parse_embedded_sdks.Cc3200.Socket.{
  Poll, SocketCall, close_socket, Connecting, socket_read, socket_ssl_connect, socket_write,
}
use parse_embedded_sdks.Rtos.Installation.{Device, World, get_installation}

-- `RECEIVE_BUFFER_SIZE`, the size of `pushDataBuffer`.
abbrev pub push_buffer_size : ℕ
push_buffer_size = 1024

-- What the service does outside: a call of the push callback, calls of the board's sockets, a
-- `send`, `saveClientState` and `updateLastPingTime`.
pub data PushEvent : Type 0 where
  called_back : ℤ → Option Bytes → PushEvent
  connected : List SocketCall → PushEvent
  sent : Bytes → PushEvent
  closed : ℤ → PushEvent
  saved_state ping_noted : PushEvent

-- The fields of the client that the service uses, and the static buffer.
pub record PushClient : Type 0 where
  pub device : Device
  pub last_push_time : Bytes
  pub socket_handle : ℤ
  pub failed_pings : ℕ
  pub has_callback : Bool
  pub buffer : Buffer

-- The messages among the calls of the callback.
abbrev pub messages : List PushEvent → List Bytes
messages [] = []
messages (called_back error (some text) ∷ events) = text ∷ messages events
messages (_ ∷ events) = messages events

-- A call of the callback, if there is one.
abbrev pub call_push_back : Bool → ℤ → Option Bytes → List PushEvent
call_push_back has_callback error text = if has_callback then called_back error text ∷ [] else []

abbrev pub sends : Option Bytes → List PushEvent
sends none = []
sends (some text) = sent text ∷ []

-- From the answer of the ping's `socketWrite` on.
abbrev after_ping : PushClient → ℤ × Option Bytes → PushClient × List PushEvent
after_ping c (pos n, sending) = (record c { failed_pings = 0 }, sends sending ++ ping_noted ∷ [])
after_ping c (negsuc n, sending) =
    if ltb 20 c.failed_pings
    then (
      record c { socket_handle = negsuc 0 },
      sends sending
          ++ (call_push_back c.has_callback (negsuc 0) none ++ closed c.socket_handle ∷ []),
    )
    else (record c { failed_pings = c.failed_pings + 1 }, sends sending)

-- `sendPing`, by the result of `isPingTime` and the answer of `send`.
unfoldable pub send_ping : Bool → ℤ → PushClient → PushClient × List PushEvent
send_ping due answer c =
    if due then after_ping c (socket_write c.socket_handle answer (codes "{}\r\n")) else (c, [])

-- The receive loop: a read out of bounds, or its end with what it has found.
pub data Receiving : Type 0 where
  fault : Receiving
  ended : Buffer → PushJson → Receiving

abbrev pub continue_push : PushJson → (PushJson → Receiving) → Receiving
continue_push overrun k = fault
continue_push m k = k m

-- From the answer of `socketRead` on.
abbrev pub after_read : Buffer → PushJson → ℤ × Bytes → (Buffer → PushJson → Receiving) → Receiving
after_read b m (negsuc n, memory) k = ended (record b { bytes = memory }) m
after_read b m (pos n, memory) k =
    let b' : Buffer = record { bytes = memory; used = pos (used_size b.used + n) } in
    if n == 0
    then ended (record b { bytes = memory }) m
    else continue_push (get_push_json memory (used_size b.used + n)) (k b')

-- `socketRead` into the free bytes of the buffer.
abbrev pub read_more : ℤ → List Poll → Buffer → ℤ × Bytes
read_more handle polls b =
    socket_read handle polls b.bytes (used_size b.used) (push_buffer_size - used_size b.used)

-- The receive loop, over what the board answers in each call of `socketRead`. Where the list ends,
-- there is nothing to read.
unfoldable pub receive_push : ℤ → List (List Poll) → Buffer → PushJson → Receiving
receive_push handle [] b m =
    let rest = after_read b m (read_more handle [] b) ended in
    if is_partial m && has_room push_buffer_size b.used then rest else ended b m
receive_push handle (polls ∷ reads) b m =
    let rest = after_read b m (read_more handle polls b) (receive_push handle reads) in
    if is_partial m && has_room push_buffer_size b.used then rest else ended b m

-- The outcome of a call: a fault, or the client, the events and the result.
pub data PushOutcome : Type 0 where
  fault : PushOutcome
  done : PushClient → List PushEvent → Bool → PushOutcome

-- `simpleJsonProcessor(message, "time", lastPushTime, PUSH_TIME_MAX_LEN)` and what follows it.
-- `none` is a read past the message.
unfoldable pub note_push_time : PushClient → Extraction → Option (PushClient × List PushEvent)
note_push_time c Extraction.overrun = none
note_push_time c (copied time complete) =
    some (record c { last_push_time = time }, if complete then saved_state ∷ [] else [])
note_push_time c _ = some (c, [])

-- `strncmp("{}", message, 2) == 0`, or the callback, on the message of `len` bytes at a pointer.
abbrev pub deliver_unless : Option Bool → Bool → ℕ → Bytes → List PushEvent
deliver_unless (some true) has_callback len p = []
deliver_unless _ has_callback len p = call_push_back has_callback (pos 0) (some (take len p))

abbrev pub deliver_push : Bool → ℕ → Bytes → List PushEvent
deliver_push has_callback len p = deliver_unless (same_prefix (codes "{}") p) has_callback len p

-- The end of a call that has a message: the time, the callback, and the buffer.
unfoldable pub finish_push : ℕ → ℕ → Bytes → Option (PushClient × List PushEvent) → PushOutcome
unfolding consume
finish_push start len bytes none = fault
finish_push start len bytes (some (c, events)) =
    let b = consume len (record c.buffer { bytes = bytes }) in
    done (record c { buffer = b }) (events ++ deliver_push c.has_callback len (drop start bytes))
      (has_more b.used)

unfoldable pub take_push : ℕ → ℕ → PushClient → Option Bytes → PushOutcome
unfolding finish_push note_push_time
take_push start len c none = fault
take_push start len c (some bytes) = finish_push start len bytes (
    note_push_time c
      (simple_json_processor (some (drop start bytes)) (some (codes "time")) true 40))

-- `sendPing`, and `return 0`.
abbrev pub ping_and_return : Bool → ℤ → PushClient → PushOutcome
ping_and_return due answer c = let (c', events) = send_ping due answer c in done c' events false

-- Behind the receive loop: a message that fills the buffer is dropped, a whole one is taken, and
-- otherwise a ping may be due.
unfoldable pub after_receiving : Bool → ℤ → PushClient → Receiving → PushOutcome
unfolding take_push send_ping
after_receiving due answer c fault = fault
after_receiving due answer c (ended b (message start (some len))) =
    if len == 0
    then ping_and_return due answer (record c { buffer = b })
    else take_push start len (record c { buffer = b })
        (terminate push_buffer_size start len b.bytes)
after_receiving due answer c (ended b m) =
    if is_full push_buffer_size b.used
    then done (record c { buffer = record b { used = pos 0 } }) [] false
    else ping_and_return due answer (record c { buffer = b })

-- `socketHandle > 0`.
abbrev pub is_positive : ℤ → Bool
is_positive (pos n) = ltb 0 n
is_positive (negsuc n) = false

-- What a call meets: the board's answers in each `socketRead`, whether it is time for a ping, and
-- the answer of the ping's `send`.
pub record PushInput : Type 0 where
  pub reads : List (List Poll)
  pub ping_due : Bool
  pub ping_answer : ℤ

-- `parseProcessNextPushNotification`.
unfoldable pub process_next : PushInput → PushClient → PushOutcome
unfolding after_receiving receive_push
process_next i c =
    if is_positive c.socket_handle
    then after_receiving i.ping_due i.ping_answer c
        (receive_push c.socket_handle i.reads c.buffer nothing)
    else done c [] false

-- `socketHandle != -1`.
abbrev pub goes_on : ℤ → Bool
goes_on (negsuc n) = not (n == 0)
goes_on (pos n) = true

-- What `parseRunPushLoop` has come to: a fault, its return, or the head of its loop.
pub data Running : Type 0 where
  faulted : Running
  returned looping : PushClient → List PushEvent → Running

abbrev pub preceded_by : List PushEvent → Running → Running
preceded_by before faulted = faulted
preceded_by before (returned c events) = returned c (before ++ events)
preceded_by before (looping c events) = looping c (before ++ events)

abbrev pub then_loop : PushOutcome → (PushClient → Running) → Running
then_loop fault k = faulted
then_loop (done c events more) k = preceded_by events (k c)

-- `parseRunPushLoop`, for as many rounds as there are inputs.
unfoldable pub run_push_rounds : List PushInput → PushClient → Running
unfolding process_next
run_push_rounds [] c = if goes_on c.socket_handle then looping c [] else returned c []
run_push_rounds (i ∷ inputs) c =
    let rest = then_loop (process_next i c) (run_push_rounds inputs) in
    if goes_on c.socket_handle then rest else returned c []
