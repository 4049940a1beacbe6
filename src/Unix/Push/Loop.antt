-- ===== src/Unix/Push/Loop.antt =====
-- The loop of the push service over messages that arrive whole, one to a read, with rounds between
-- in which there is nothing to read.
use parse_embedded_sdks.Base.{
  ℕ, ◌<◌, ◌≡◌, refl, ap, ◌∙◌, Bool, true, false, Option, none, some, List, [], ◌∷◌, ◌++◌, Bytes,
  codes, length, length-append, All, pos, arith,
}
use parse_embedded_sdks.Json.Messages.{Body, render, IsBody}
use parse_embedded_sdks.Unix.Push.{
  Recv, received, again, Event, Client, buffer_size, callbacks, done, Input, preceded, push_round,
  also_events, and_then, run_push_loop, process_next_push_notification,
}
use parse_embedded_sdks.Push.Buffer.{Buffer}
use parse_embedded_sdks.Unix.Push.Stuck.{process_again-IsSilent}
use parse_embedded_sdks.Unix.Push.Messages.{announced, Delivers, process-Delivers, callbacks-append}

-- A round in which a message and its separator arrive whole.
abbrev pub arrival : ℕ → Body → Input
arrival now b = record {
  socket_error = false;
  now = now;
  answers = received (render b ++ codes "\n") ∷ [];
}

-- A round in which there is nothing to read.
abbrev pub quiet_round : ℕ → Input
quiet_round now = record { socket_error = false; now = now; answers = again ∷ [] }

-- Rounds at their times, each with the message that arrives in it, if there is one.
abbrev pub arrivals : List (ℕ × Option Body) → List Input
arrivals [] = []
arrivals ((now, none) ∷ rounds) = quiet_round now ∷ arrivals rounds
arrivals ((now, some b) ∷ rounds) = arrival now b ∷ arrivals rounds

abbrev pub all_announced : Bool → List (ℕ × Option Body) → List (ℕ × Option Bytes)
all_announced has_callback [] = []
all_announced has_callback ((now, none) ∷ rounds) = all_announced has_callback rounds
all_announced has_callback ((now, some b) ∷ rounds) =
    announced has_callback b ++ all_announced has_callback rounds

-- The service is started, and its buffer is empty.
pub record IsIdle (c : Client) : Type 0 where
  pub started : c.is_started ≡ true
  pub unused : c.buffer.used ≡ pos 0
  pub size : length c.buffer.bytes ≡ buffer_size

-- A message that fits the buffer with the byte behind it.
abbrev pub Fits : ℕ × Option Body → Type 0
Fits (now, none) = Unit
Fits (now, some b) = IsBody b × (length (render b) < buffer_size)

push_round-Delivers :
    (now : ℕ) (b : Body) (c : Client)
    → IsIdle c
    → Fits (now, some b)
    → Delivers c.has_callback b [] [] (process_next_push_notification now (arrival now b).answers c)
push_round-Delivers now b c idle fits =
    process-Delivers now c 0 (render b ++ codes "\n") b b'\n' [] [] idle.started idle.unused
      (omega arith) idle.size (omega (arith, length-append (render b) (codes "\n"))) fits.0 refl

push_round-done :
    (now : ℕ) (answers : List Recv) (c c' : Client) (events : List Event)
    → process_next_push_notification now answers c ≡ done c' events false []
    → push_round (record { socket_error = false; now = now; answers = answers }) c
      ≡ some (c', events)
unfolding push_round preceded
push_round-done now answers c c' events h = ap (preceded []) h

run_push_loop-cons :
    (i : Input) (inputs : List Input) (c c' c'' : Client) (events later : List Event)
    → push_round i c ≡ some (c', events)
    → run_push_loop inputs c' ≡ some (c'', later)
    → run_push_loop (i ∷ inputs) c ≡ some (c'', events ++ later)
unfolding run_push_loop and_then also_events
run_push_loop-cons i inputs c c' c'' events later h k =
    ap (λ r. and_then r (run_push_loop inputs)) h ∙ ap (also_events events) k

-- A started service with an empty buffer runs rounds at any times, in which no socket error is
-- reported. In each of them either nothing is read, or one read brings one message, which fits the
-- buffer with the newline behind it, and that newline. Then the service calls the callback, if it
-- has one, on every message that is not `{}`, once, in the order of arrival, and it is started with
-- an empty buffer again behind them.
pub run_push_loop-arrivals :
    (rounds : List (ℕ × Option Body)) (c : Client)
    → IsIdle c
    → All Fits rounds
    → (c' : Client) × (events : List Event) × (run_push_loop (arrivals rounds) c
        ≡ some (c', events))
      × (callbacks events ≡ all_announced c.has_callback rounds)
      × IsIdle c'
unfolding run_push_loop
run_push_loop-arrivals [] c idle fits = (c, [], refl, refl, idle)
run_push_loop-arrivals ((now, none) ∷ rounds) c idle fits =
    let first = process_again-IsSilent now c 0 [] idle.started idle.unused (omega arith) in
    let idle' : IsIdle first.client = record {
      started = first.started ∙ idle.started;
      unused = ap (λ (x : Buffer). x.used) first.buffer ∙ idle.unused;
      size = ap (λ (x : Buffer). length x.bytes) first.buffer ∙ idle.size;
    } in
    let (c', events, ran, called, last) = run_push_loop-arrivals rounds first.client idle' fits.1 in
    (
      c',
      first.events ++ events,
      run_push_loop-cons (quiet_round now) (arrivals rounds) c first.client c' first.events events
          (push_round-done now (again ∷ []) c first.client first.events first.outcome) ran,
      callbacks-append first.events events ∙ rw (first.calls, called, first.callback) refl,
      last,
    )
run_push_loop-arrivals ((now, some b) ∷ rounds) c idle fits =
    let first = push_round-Delivers now b c idle fits.0 in
    let idle' : IsIdle first.client = record {
      started = first.started;
      unused = first.used;
      size = first.size;
    } in
    let (c', events, ran, called, last) = run_push_loop-arrivals rounds first.client idle' fits.1 in
    (
      c',
      first.events ++ events,
      run_push_loop-cons (arrival now b) (arrivals rounds) c first.client c' first.events events
          (push_round-done now (arrival now b).answers c first.client first.events first.outcome)
          ran,
      callbacks-append first.events events ∙ rw (first.calls, called, first.callback),
      last,
    )
