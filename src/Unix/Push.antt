-- ===== src/Unix/Push.antt =====
-- The push service of unix/src/parse.c: `parseProcessNextPushNotification`. What libcurl and the
-- clock answer are arguments; what the code does outside is a list of events.
pub mod Messages
pub mod Loop
pub mod Stuck
mod Tests
use parse_embedded_sdks.Base.{
  ℕ, ◌+◌, ◌*◌, Bool, true, false, ◌&&◌, Option, none, some, List, [], ◌∷◌, ◌++◌, ltb, if◌then◌else◌,
  Bytes, codes, take, drop, pos,
}
use parse_embedded_sdks.CString.{same_prefix}
use parse_embedded_sdks.Json.Processor.{Extraction, copied, simple_json_processor}
use parse_embedded_sdks.Json.Frame.{PushJson, overrun, nothing, message, get_push_json}
use parse_embedded_sdks.Push.Buffer.{
  Buffer, has_room, is_full, used_size, append, is_partial, terminate, consume, has_more,
}

-- An answer of `curl_easy_recv`: CURLE_OK with the bytes read, CURLE_AGAIN, or another code.
pub data Recv : Type 0 where
  received : Bytes → Recv
  again failed : Recv

-- What the service does outside: a call of the push callback with its error and message, a
-- `curl_easy_send`, and a `parseOsStoreKey` of PARSE_LAST_PUSH_TIME.
pub data Event : Type 0 where
  called_back : ℕ → Option Bytes → Event
  sent stored_time : Bytes → Event

-- The fields of `ParseClientInternal` that the service uses, and the static buffer.
-- `has_callback` is `pushCallback != NULL`, `is_started` is `pushCurlHandle != NULL`.
pub record Client : Type 0 where
  pub buffer : Buffer
  pub last_push_time : Option Bytes
  pub last_heartbeat : ℕ
  pub has_callback : Bool
  pub is_started : Bool

-- `sizeof(parse_push_message_buffer)`.
abbrev pub buffer_size : ℕ
buffer_size = 2048

-- ECONNRESET on Linux.
abbrev pub econnreset : ℕ
econnreset = 104

-- PARSE_HEARTBIT_INTERVAL_SECONDS.
abbrev pub heartbeat_interval : ℕ
heartbeat_interval = 14 * 60

-- The receive loop: a read or a write out of bounds, its `return 0` on an error, or its end.
pub data Received : Type 0 where
  fault : Received
  error : Buffer → List Recv → Received
  ended : Buffer → PushJson → List Recv → Received

-- After `getPushJson`, whose read may leave the buffer.
continue_with : Buffer → PushJson → (PushJson → Received) → Received
continue_with b overrun k = fault
continue_with b m k = k m

-- The receive loop, over the answers of `curl_easy_recv`. Where the list ends, it answers
-- CURLE_AGAIN.
unfoldable pub receive : List Recv → Buffer → PushJson → Received
unfolding continue_with append
receive [] b m = ended b m []
receive (received d ∷ rs) b m =
    let b' = append b d in
    let m' = get_push_json b'.bytes (used_size b'.used) in
    let rest = continue_with b' m' (receive rs b') in
    if is_partial m && has_room buffer_size b.used then rest else ended b m (received d ∷ rs)
receive (again ∷ rs) b m =
    if is_partial m && has_room buffer_size b.used then ended b m rs else ended b m (again ∷ rs)
receive (failed ∷ rs) b m =
    if is_partial m && has_room buffer_size b.used then error b rs else ended b m (failed ∷ rs)

-- The outcome of a call: a fault, or the new state, the events, the result and the answers left.
pub data Outcome : Type 0 where
  fault : Outcome
  done : Client → List Event → Bool → List Recv → Outcome

-- `simpleJsonProcessor(message, "time", time, sizeof(time))` and what follows it.
pub note_time : Client → Extraction → Option (Client × List Event)
note_time c Extraction.overrun = none
note_time c (copied time true) =
    some (record c { last_push_time = some time }, stored_time time ∷ [])
note_time c _ = some (c, [])

-- `strncmp("{}", message, 2) == 0`, or the callback, on the message of `len` bytes at a pointer.
abbrev delivered : Option Bool → Bool → ℕ → Bytes → List Event
delivered (some true) has_callback len p = []
delivered (some false) has_callback len p =
    if has_callback then called_back 0 (some (take len p)) ∷ [] else []
delivered none has_callback len p =
    if has_callback then called_back 0 (some (take len p)) ∷ [] else []

abbrev pub deliver : Bool → ℕ → Bytes → List Event
deliver has_callback len p = delivered (same_prefix (codes "{}") p) has_callback len p

-- The end of a call that has a message: the time, the callback, and the buffer.
pub finish_message : ℕ → ℕ → List Recv → Bytes → Option (Client × List Event) → Outcome
unfolding consume
finish_message start len rs bytes none = fault
finish_message start len rs bytes (some (c, events)) =
    let b = consume len (record c.buffer { bytes = bytes }) in
    done (record c { buffer = b }) (events ++ deliver c.has_callback len (drop start bytes))
      (has_more b.used) rs

pub take_message : ℕ → ℕ → Client → List Recv → Option Bytes → Outcome
unfolding finish_message note_time
take_message start len c rs none = fault
take_message start len c rs (some bytes) =
    finish_message start len rs bytes
      (note_time c (simple_json_processor (some (drop start bytes)) (some (codes "time")) true 32))

-- `if (seconds > lastHearbeat + PARSE_HEARTBIT_INTERVAL_SECONDS) { … }`.
pub heartbeat : ℕ → Client → List Recv → Outcome
heartbeat now c rs =
    if ltb (c.last_heartbeat + heartbeat_interval) now
    then done (record c { last_heartbeat = now }) (sent (codes "{}\n") ∷ []) false rs
    else done c [] false rs

-- A message that fills the buffer is dropped; where there is none, the heartbeat is due or not.
pub no_message : Bool → ℕ → Buffer → Client → List Recv → Outcome
unfolding heartbeat
no_message true now b c rs = done (record c { buffer = record b { used = pos 0 } }) [] false rs
no_message false now b c rs = heartbeat now (record c { buffer = b }) rs

-- Behind the receive loop.
pub after_receive : ℕ → Client → Received → Outcome
unfolding take_message no_message
after_receive now c fault = fault
after_receive now c (error b rs) =
    done (record c { buffer = b }) (if c.has_callback then called_back econnreset none ∷ [] else [])
      false rs
after_receive now c (ended b (message start (some len)) rs) =
    take_message start len (record c { buffer = b }) rs (terminate buffer_size start len b.bytes)
after_receive now c (ended b m rs) = no_message (is_full buffer_size b.used) now b c rs

-- `parseProcessNextPushNotification`, at the time `now` in seconds since the boot.
unfoldable pub process_next_push_notification : ℕ → List Recv → Client → Outcome
unfolding after_receive
process_next_push_notification now rs c =
    if c.is_started then after_receive now c (receive rs c.buffer nothing) else done c [] false rs

-- The calls of the push callback among the events.
abbrev pub callbacks : List Event → List (ℕ × Option Bytes)
callbacks [] = []
callbacks (called_back e m ∷ events) = (e, m) ∷ callbacks events
callbacks (sent _ ∷ events) = callbacks events
callbacks (stored_time _ ∷ events) = callbacks events

-- What one round of `parseRunPushLoop` meets: whether `select` reports an error on the socket, the
-- time, and the answers of `curl_easy_recv` up to CURLE_AGAIN.
pub record Input : Type 0 where
  pub socket_error : Bool
  pub now : ℕ
  pub answers : List Recv

-- `parseStopPushService`.
unfoldable pub stop_push_service : Client → Client
stop_push_service c = record c { is_started = false }

-- Events in front of those of an outcome, less the answers left.
pub preceded : List Event → Outcome → Option (Client × List Event)
preceded before fault = none
preceded before (done c events _ _) = some (c, before ++ events)

-- The body of the loop.
unfoldable pub push_round : Input → Client → Option (Client × List Event)
unfolding preceded stop_push_service
push_round i c =
    if i.socket_error
    then preceded (if c.has_callback then called_back econnreset none ∷ [] else [])
        (process_next_push_notification i.now i.answers (stop_push_service c))
    else preceded [] (process_next_push_notification i.now i.answers c)

pub also_events : List Event → Option (Client × List Event) → Option (Client × List Event)
also_events events none = none
also_events events (some (c, later)) = some (c, events ++ later)

pub and_then :
    Option (Client × List Event)
    → (Client → Option (Client × List Event))
    → Option (Client × List Event)
unfolding also_events
and_then none k = none
and_then (some (c, events)) k = also_events events (k c)

-- `parseRunPushLoop`, for as many rounds as there are inputs.
unfoldable pub run_push_loop : List Input → Client → Option (Client × List Event)
unfolding push_round and_then
run_push_loop [] c = some (c, [])
run_push_loop (i ∷ inputs) c = and_then (push_round i c) (run_push_loop inputs)
