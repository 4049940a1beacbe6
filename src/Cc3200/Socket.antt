-- ===== src/Cc3200/Socket.antt =====
-- The sockets of the CC3200 board: cc3200/src/socket.c. What the board's socket calls answer is an
-- argument. The counts of `socketRead` are a `short` each, and wrap as such.
pub mod Laws
pub mod Connect
use parse_embedded_sdks.Base.{
  ℕ, zero, suc, ◌+◌, ◌-◌, ◌%◌, Bool, true, false, not, ◌&&◌, Option, none, some, List, [], ◌∷◌,
  ◌++◌, Bytes, length, take, ltb, ◌==◌, if◌then◌else◌, ℤ, pos, negsuc, is_negative,
}
use parse_embedded_sdks.Push.Buffer.{write_at}

-- SL_EAGAIN.
abbrev pub eagain : ℤ
eagain = negsuc 10

-- An answer of `recv` other than EAGAIN: bytes, which are none where the peer has closed the
-- connection, or a negative status.
pub data RecvAnswer : Type 0 where
  got : Bytes → RecvAnswer
  refused : ℕ → RecvAnswer

-- A round of the read: `select` answers 0, or a negative status, or that there is something to
-- read; `recv` then answers EAGAIN a number of times and something else behind.
pub data Poll : Type 0 where
  quiet : Poll
  wait_failed : ℕ → Poll
  ready : ℕ → RecvAnswer → Poll

-- A count as a `short`.
abbrev pub to_short : ℕ → ℤ
to_short n = let low = n % 65536 in if ltb low 32768 then pos low else negsuc (65535 - low)

-- How many bytes one `recv` can give: as many as it is asked for, and, since its answer is a `short`,
-- 32767 at most.
abbrev pub asked : (room received : ℕ) → ℕ
asked room received = if ltb (room - received) 32767 then room - received else 32767

-- `bytesReceived < receiveBufferSize - 1`, whose sides are compared as unsigned numbers: a negative
-- `short` is beyond every size.
abbrev pub is_less : ℤ → ℕ → Bool
is_less (pos n) room = ltb n room
is_less (negsuc n) room = false

-- The loop of `socketRead`: `room` is `receiveBufferSize - 1`, `block` is `readBlock`, and `acc`
-- are the bytes received, which `bytesReceived` counts as a `short`. Where the list ends, `select`
-- answers 0.
unfoldable pub fill : (room : ℕ) (block : Bool) (acc : Bytes) → List Poll → ℤ × Bytes
fill room block acc [] = (to_short (length acc), acc)
fill room block acc (quiet ∷ polls) = (to_short (length acc), acc)
fill room block acc (wait_failed n ∷ polls) = (negsuc n, acc)
fill room block acc (ready again (refused n) ∷ polls) =
    if block && not (again == 0) then (eagain, acc) else (negsuc n, acc)
fill room block acc (ready again (got d) ∷ polls) =
    let acc' = acc ++ take (asked room (length acc)) d in
    let rest = fill room true acc' polls in
    if block && not (again == 0)
    then (eagain, acc)
    else if is_less (to_short (length acc')) room
    then rest
    else (to_short (length acc'), acc')

-- The bytes received, and the NUL at `bytesReceived`. A NUL in front of the memory is not seen.
unfoldable pub store : (memory : Bytes) (offset : ℕ) (acc : Bytes) (received : ℤ) → Bytes
store memory offset acc (pos n) = write_at memory offset (acc ++ 0 ∷ [])
store memory offset acc (negsuc n) =
    let memory' = write_at memory offset acc in
    if ltb n offset then write_at memory' (offset - (n + 1)) (0 ∷ []) else memory'

-- `socketRead` into an array, at an offset, of a size.
unfoldable pub socket_read : ℤ → List Poll → (memory : Bytes) (offset size : ℕ) → ℤ × Bytes
unfolding fill store
socket_read (negsuc n) polls memory offset size = (negsuc n, memory)
socket_read (pos handle) polls memory offset zero = (negsuc 0, memory)
socket_read (pos handle) polls memory offset (suc room) =
    let (status, acc) = fill room false [] polls in
    (status, store memory offset acc (to_short (length acc)))

-- The calls of the board's sockets that socketSslConnect makes.
pub data SocketCall : Type 0 where
  get_host_by_name create_socket set_method ensure_certificate : SocketCall
  set_certificate connect wait_connect set_nonblocking set_keep_alive : SocketCall
  close_socket : ℤ → SocketCall

-- Calls with their answers, each made while no status is negative. `none` is a call without a
-- status.
unfoldable pub run_calls : ℤ → List (SocketCall × Option ℤ) → ℤ × List SocketCall
run_calls status [] = (status, [])
run_calls status ((call, none) ∷ calls) =
    let rest = run_calls status calls in
    if is_negative status then (status, []) else (rest.0, call ∷ rest.1)
run_calls status ((call, some answer) ∷ calls) =
    let rest = run_calls answer calls in
    if is_negative status then (status, []) else (rest.0, call ∷ rest.1)

-- What the calls of socketSslConnect answer.
pub record Connecting : Type 0 where
  pub lookup : ℤ
  pub socket : ℤ
  pub method : ℤ
  pub certificate : ℤ
  pub connected : ℤ
  pub waited : ℤ
  pub nonblocking : ℤ
  pub keep_alive : ℤ

abbrev pub opening_calls : Connecting → List (SocketCall × Option ℤ)
opening_calls a = (get_host_by_name, some a.lookup) ∷ (create_socket, some a.socket) ∷ []

abbrev pub connecting_calls : Connecting → List (SocketCall × Option ℤ)
connecting_calls a =
    (set_method, some a.method)
    ∷ (ensure_certificate, none)
    ∷ (set_certificate, some a.certificate)
    ∷ (connect, some a.connected)
    ∷ (wait_connect, some a.waited)
    ∷ (set_nonblocking, some a.nonblocking)
    ∷ (set_keep_alive, some a.keep_alive)
    ∷ []

abbrev closed_on_failure : ℤ → ℤ × List SocketCall → ℤ × List SocketCall
closed_on_failure handle (status, calls) =
    if is_negative status then (status, calls ++ close_socket handle ∷ []) else (handle, calls)

-- `socketSslConnect`: the handle or a negative status, and the calls.
unfoldable pub socket_ssl_connect : Connecting → ℤ × List SocketCall
unfolding run_calls
socket_ssl_connect a =
    let (opened, opening) = run_calls (pos 0) (opening_calls a) in
    let handle = if is_negative opened then negsuc 0 else opened in
    let (status, connecting) = run_calls opened (connecting_calls a) in
    closed_on_failure handle (status, opening ++ connecting)

-- `socketWrite` of a text, with `sendBufferSize` 0, by the answer of `send`; and what it sends.
abbrev pub socket_write : ℤ → ℤ → Bytes → ℤ × Option Bytes
socket_write (negsuc n) answer text = (negsuc n, none)
socket_write (pos handle) answer [] = (pos 0, none)
socket_write (pos handle) answer (c ∷ text) = (answer, some (c ∷ text))
