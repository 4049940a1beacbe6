-- ===== src/Rtos/Push/Tests.antt =====
-- The push service of the RTOS client on concrete messages.
use parse_embedded_sdks.Base.{
  ℕ, ◌≡◌, refl, false, true, none, some, [], ◌∷◌, ◌++◌, List, codes, length, replicate, pos, negsuc,
  length-replicate, arith,
}
use parse_embedded_sdks.Json.Frame.{
  find_beginning, find_end, beginning_round, end_round, nothing, message, get_push_json,
  is_complete_json,
}
use parse_embedded_sdks.Json.Messages.{Body, empty, plain, render, IsBody}
use parse_embedded_sdks.Cc3200.Clock.{DateTime, is_ping_time}
use parse_embedded_sdks.Cc3200.Socket.{
  socket_read, got, ready, quiet, fill, store, SocketCall, Connecting, socket_ssl_connect,
  run_calls,
}
use parse_embedded_sdks.Rtos.Installation.{Device, World, get_installation}
use parse_embedded_sdks.Rtos.Push.{
  receive_push, ended, PushClient, PushEvent, PushInput, process_next, send_ping, run_push_rounds,
  looping,
}
use parse_embedded_sdks.Rtos.Push.Start.{start_push_service, handshake}
use parse_embedded_sdks.Rtos.Push.Bounds.{LeavesFree, process_next-LeavesFree}
use parse_embedded_sdks.Rtos.Push.Finish.{Tells}
use parse_embedded_sdks.Rtos.Push.Full.{HasStopped, run_push_rounds-full}
use parse_embedded_sdks.Rtos.Push.Handshake.{handshake-message}
use parse_embedded_sdks.Rtos.Push.Messages.{process_next-Tells}
use parse_embedded_sdks.Rtos.Push.Ping.{send_ping-is_ping_time}
use parse_embedded_sdks.Rtos.Push.Stuck.{start_push_service-run_push_rounds}

-- `{x}`.
abbrev note : Body
note = plain b'x' empty

note-IsBody : IsBody note
note-IsBody = ground arith

abbrev device : Device
device = record {
  client = record {
    os_version = codes "1.2";
    device_client_version = codes "c";
    application_id = codes "app";
    client_key = codes "key";
    installation_id = codes "0123";
    session_token = [];
  };
  installation_object_id = codes "id";
  requests = [];
  saves = 0;
}

abbrev listening : PushClient
listening = record {
  device = device;
  last_push_time = codes "2015";
  socket_handle = pos 3;
  failed_pings = 0;
  has_callback = true;
  buffer = record { bytes = replicate 1024 0; used = pos 0 };
}

buffer_size : length listening.buffer.bytes ≡ 1024
buffer_size = length-replicate {A = ℕ} 1024 0

-- Two pieces, with an EAGAIN in front of the first.
abbrev pieces : PushInput
pieces = record {
  reads = (ready 1 (got (codes "{x")) ∷ ready 0 (got (codes "}\n{")) ∷ quiet ∷ []) ∷ [];
  ping_due = false;
  ping_answer = pos 0;
}

pieces_lem :
    fill 1023 false [] (ready 1 (got (codes "{x")) ∷ ready 0 (got (codes "}\n{")) ∷ quiet ∷ [])
    ≡ (pos 5, codes "{x}\n{")
unfolding fill
pieces_lem = refl

process_next-Tells_example : Tells (pos 3) true note (codes "{") (process_next pieces listening)
process_next-Tells_example =
    process_next-Tells pieces
      (ready 1 (got (codes "{x")) ∷ ready 0 (got (codes "}\n{")) ∷ quiet ∷ []) [] listening 3 0
      (codes "{x}\n{") note b'\n' (codes "{") refl (omega arith) refl refl buffer_size pieces_lem
      (omega arith) (omega arith) note-IsBody refl

process_next-LeavesFree_example : LeavesFree (process_next pieces listening)
process_next-LeavesFree_example = process_next-LeavesFree pieces listening refl

-- A buffer with one free byte.
abbrev nearly_full : PushClient
nearly_full = record listening { buffer = record { bytes = replicate 1024 b'{'; used = pos 1023 } }

run_push_rounds-full_example : HasStopped (run_push_rounds (pieces ∷ pieces ∷ []) nearly_full)
run_push_rounds-full_example = run_push_rounds-full (pieces ∷ pieces ∷ []) nearly_full refl

abbrev noon : DateTime
noon = record { seconds = 0; minutes = 0; hours = 12 }

abbrev evening : DateTime
evening = record { seconds = 30; minutes = 45; hours = 20 }

send_ping-is_ping_time_example :
    send_ping (is_ping_time evening noon) (pos 4) listening ≡ (listening, [])
send_ping-is_ping_time_example =
    send_ping-is_ping_time evening noon (pos 4) listening (omega arith) (omega arith)

handshake-message_example :
    (b : Body) × (handshake listening ≡ render b ++ codes "\r\n")
    × IsBody b
    × (is_complete_json (handshake listening ++ 0 ∷ []) ≡ some true)
    × (get_push_json (handshake listening ++ 0 ∷ []) (length (handshake listening))
        ≡ message 0 (some (length (render b))))
handshake-message_example =
    handshake-message listening [] (ground arith) (ground arith) (ground arith) (omega arith)
      (omega arith) (omega arith)

-- A board whose first socket is 0.
abbrev first_socket : Connecting
first_socket = record {
  lookup = pos 0;
  socket = pos 0;
  method = pos 0;
  certificate = pos 0;
  connected = pos 0;
  waited = pos 1;
  nonblocking = pos 0;
  keep_alive = pos 0;
}

abbrev calls : List SocketCall
unfolding socket_ssl_connect run_calls
calls = (socket_ssl_connect first_socket).1

connected_lem : socket_ssl_connect first_socket ≡ (pos 0, calls)
unfolding socket_ssl_connect run_calls
connected_lem = refl

-- A connection that has not been made in time counts as made.
late_test : (socket_ssl_connect (record first_socket { waited = pos 0 })).0 ≡ pos 0
unfolding socket_ssl_connect run_calls
late_test = refl

abbrev world : World
world = record {
  answer = λ r. record { error = negsuc 0; http_status = negsuc 0; body = none };
  new_installation_id = codes "new";
}

installed : get_installation world device ≡ some device
unfolding get_installation
installed = refl

start_push_service-run_push_rounds_example :
    (c' : PushClient) × (events : List PushEvent) × (start_push_service world first_socket
        (pos 9)
        listening
      ≡ some (pos 9, c', events))
    × (run_push_rounds (pieces ∷ []) c' ≡ looping c' [])
start_push_service-run_push_rounds_example =
    start_push_service-run_push_rounds world first_socket 9 listening device calls (pieces ∷ [])
      installed connected_lem

-- A message that does not fit leaves one byte free.
long_test :
    receive_push
      (pos 3)
      ((ready 0 (got (b'{' ∷ replicate 2000 b'x')) ∷ []) ∷ [])
      listening.buffer
      nothing
    ≡ ended
        (record { bytes = b'{' ∷ (replicate 1022 b'x' ++ 0 ∷ []); used = pos 1023 })
        (message 0 none)
unfolding receive_push socket_read fill store get_push_json find_beginning find_end beginning_round
    end_round
long_test = refl
