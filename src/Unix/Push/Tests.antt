-- ===== src/Unix/Push/Tests.antt =====
-- The push service of unix/src/parse.c on concrete messages.
use parse_embedded_sdks.Base.{
  Option, negsuc, ℕ, ◌≡◌, refl, false, true, none, some, [], ◌∷◌, List, codes, length, replicate,
  pos, length-replicate, arith,
}
use parse_embedded_sdks.Json.Messages.{Body, empty, plain, IsBody}
use parse_embedded_sdks.Unix.Push.{
  Recv, received, Event, Client, callbacks, done, process_next_push_notification, run_push_loop,
}
use parse_embedded_sdks.Unix.Push.Messages.{announced, Delivers, process-Delivers}
use parse_embedded_sdks.Unix.Push.Loop.{arrivals, all_announced, IsIdle, run_push_loop-arrivals}
use parse_embedded_sdks.Unix.Push.Stuck.{StaysSilent, process_unterminated}

-- `{x}`.
abbrev note : Body
note = plain b'x' empty

note-IsBody : IsBody note
note-IsBody = ground arith

abbrev idle : Client
idle = record {
  buffer = record { bytes = replicate 2048 0; used = pos 0 };
  last_push_time = none;
  last_heartbeat = 0;
  has_callback = true;
  is_started = true;
}

idle_size : length idle.buffer.bytes ≡ 2048
idle_size = length-replicate {A = ℕ} 2048 0

process-Delivers_example :
    Delivers true note
      (codes "{")
      []
      (process_next_push_notification 5 (received (codes "{x}\n{") ∷ []) idle)
process-Delivers_example =
    process-Delivers 5 idle 0 (codes "{x}\n{") note b'\n' (codes "{") [] refl refl (omega arith)
      idle_size (omega arith) note-IsBody refl

idle-IsIdle : IsIdle idle
idle-IsIdle = record { started = refl; unused = refl; size = idle_size }

-- A message, a round without one, and the answer of a heartbeat.
abbrev rounds : List (ℕ × Option Body)
rounds = (5, some note) ∷ (900, none) ∷ (901, some empty) ∷ []

run_push_loop-arrivals_example :
    (c' : Client) × (events : List Event) × (run_push_loop (arrivals rounds) idle
      ≡ some (c', events))
    × (callbacks events ≡ all_announced true rounds)
    × IsIdle c'
run_push_loop-arrivals_example =
    run_push_loop-arrivals rounds idle idle-IsIdle
      ((note-IsBody, omega arith), (tt, ((tt, omega arith), tt)))

-- Later calls with something to read and with nothing.
abbrev later : List (ℕ × List Recv)
later = (6, received (codes "{y}\n") ∷ []) ∷ (900, []) ∷ []

process_unterminated_example :
    (c' : Client) × (events : List Event) × (process_next_push_notification 5
        (received (codes "{x}") ∷ [])
        idle
      ≡ done c' events false [])
    × (callbacks events ≡ announced true note)
    × (c'.buffer.used ≡ negsuc 0)
    × (c'.is_started ≡ true)
    × StaysSilent later c'
process_unterminated_example =
    process_unterminated 5 idle 0 (codes "{x}") note [] later refl refl idle_size (omega arith)
      note-IsBody refl
