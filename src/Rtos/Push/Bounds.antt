-- ===== src/Rtos/Push/Bounds.antt =====
-- The receive buffer of the RTOS client's push service keeps a free byte.
use parse_embedded_sdks.Base.{
  ℕ, suc, ◌+◌, ◌-◌, ◌<◌, ◌≡◌, refl, ap, ◌∙◌, Bool, true, false, ◌&&◌, Bool-cases, and_split, inl,
  inr, Option, none, some, List, [], ◌∷◌, Bytes, codes, drop, ltb, ltb→lt, lt→ltb, ◌==◌,
  if◌then◌else◌, ℤ, pos, negsuc, ◌-ℤ◌, arith,
}
use parse_embedded_sdks.Json.Frame.{PushJson, overrun, nothing, message, get_push_json}
use parse_embedded_sdks.Json.Processor.{Extraction, copied, missing, present, simple_json_processor}
use parse_embedded_sdks.Push.Buffer.{
  Buffer, is_partial, has_room, is_full, used_size, terminate, consume,
}
use parse_embedded_sdks.Cc3200.Socket.{Poll, fill, socket_read}
use parse_embedded_sdks.Cc3200.Socket.Laws.{IsRead, fill-IsRead}
use parse_embedded_sdks.Rtos.Push.{
  push_buffer_size, PushClient, Receiving, ended, after_read, read_more, receive_push, PushOutcome,
  done, note_push_time, finish_push, take_push, after_receiving, ping_and_return, is_positive,
  PushInput, process_next, continue_push,
}
use parse_embedded_sdks.Rtos.Push.Ping.{send_ping_lem}

-- At most 1023 bytes are used.
abbrev pub has_free : ℤ → Bool
has_free (pos n) = ltb n 1024
has_free (negsuc n) = true

abbrev EndsFree : Receiving → Type 0
EndsFree Receiving.fault = Unit
EndsFree (ended b m) = has_free b.used ≡ true

abbrev pub LeavesFree : PushOutcome → Type 0
LeavesFree PushOutcome.fault = Unit
LeavesFree (done c events more) = has_free c.buffer.used ≡ true

-- A read into the free bytes, by its status.
abbrev Fits : Buffer → ℤ → Type 0
Fits b (pos n) = used_size b.used + n < 1024
Fits b (negsuc n) = Unit

IsRead-Fits :
    (b : Buffer) (room : ℕ) (r : ℤ × Bytes)
    → IsRead room r
    → used_size b.used + room < 1024
    → Fits b r.0
IsRead-Fits b room (negsuc n, acc) read h = tt
IsRead-Fits b room (pos n, acc) read h = elim read.counts [
  | inl e ↦ omega (arith, ap used_size e, read.fits)
  | inr e ↦ absurd (ground (arith, e))
]

read_more-Fits :
    (handle : ℤ) (polls : List Poll) (b : Buffer)
    → used_size b.used < 1024
    → Fits b (read_more handle polls b).0
unfolding socket_read
read_more-Fits (negsuc n) polls b h = tt
read_more-Fits (pos n) polls b h =
    let room = 1023 - used_size b.used in
    let size : 1024 - used_size b.used ≡ suc room = omega arith in
    let read = fill-IsRead room false [] polls (omega arith) (omega arith) in
    rw size (IsRead-Fits b room (fill room false [] polls) read (omega arith))

continue_push-EndsFree :
    (m : PushJson) (k : PushJson → Receiving)
    → ((m' : PushJson) → EndsFree (k m'))
    → EndsFree (continue_push m k)
continue_push-EndsFree overrun k h = tt
continue_push-EndsFree nothing k h = h nothing
continue_push-EndsFree (message a b) k h = h (message a b)

after_read-EndsFree :
    (b : Buffer) (m : PushJson) (r : ℤ × Bytes) (k : Buffer → PushJson → Receiving)
    → has_free b.used ≡ true
    → Fits b r.0
    → ((b' : Buffer) (m' : PushJson) → has_free b'.used ≡ true → EndsFree (k b' m'))
    → EndsFree (after_read b m r k)
after_read-EndsFree b m (negsuc n, memory) k free fits h = free
after_read-EndsFree b m (pos n, memory) k free fits h =
    let b' : Buffer = record { bytes = memory; used = pos (used_size b.used + n) } in
    elim (Bool-cases (n == 0)) [
      | inl e ↦ rw e free
      | inr e ↦ rw e (
          continue_push-EndsFree (get_push_json memory (used_size b.used + n)) (k b')
            (λ m'. h b' m' (lt→ltb (used_size b.used + n) 1024 fits)))
    ]

used_size-lt : (u : ℤ) → has_room 1024 u ≡ true → used_size u < 1024
used_size-lt (pos n) h = ltb→lt n 1024 h
used_size-lt (negsuc n) h = omega arith

guarded-EndsFree :
    (m : PushJson) (b : Buffer) (r : Receiving)
    → has_free b.used ≡ true
    → (has_room 1024 b.used ≡ true → EndsFree r)
    → EndsFree (if is_partial m && has_room 1024 b.used then r else ended b m)
guarded-EndsFree m b r free h = elim (Bool-cases (is_partial m && has_room 1024 b.used)) [
  | inl e ↦ rw e (h (and_split (is_partial m) (has_room 1024 b.used) e).1)
  | inr e ↦ rw e free
]

receive_push-EndsFree :
    (handle : ℤ) (reads : List (List Poll)) (b : Buffer) (m : PushJson)
    → has_free b.used ≡ true
    → EndsFree (receive_push handle reads b m)
unfolding receive_push
receive_push-EndsFree handle [] b m free =
    guarded-EndsFree m b (after_read b m (read_more handle [] b) ended) free (λ room.
      after_read-EndsFree b m (read_more handle [] b) ended free
        (read_more-Fits handle [] b (used_size-lt b.used room)) (λ b' m' h. h))
receive_push-EndsFree handle (polls ∷ reads) b m free =
    guarded-EndsFree m b (after_read b m (read_more handle polls b) (receive_push handle reads))
      free
      (λ room.
        after_read-EndsFree b m (read_more handle polls b) (receive_push handle reads) free
          (read_more-Fits handle polls b (used_size-lt b.used room))
          (receive_push-EndsFree handle reads))

less-has_free : (u : ℤ) (n : ℕ) → has_free u ≡ true → has_free (u -ℤ n) ≡ true
less-has_free (pos a) n h = ground arith
less-has_free (negsuc a) n h = refl

finish_push-LeavesFree :
    (start len : ℕ) (bytes : Bytes) (c : PushClient) (e : Extraction)
    → has_free c.buffer.used ≡ true
    → LeavesFree (finish_push start len bytes (note_push_time c e))
unfolding finish_push note_push_time consume
finish_push-LeavesFree start len bytes c Extraction.overrun h = tt
finish_push-LeavesFree start len bytes c (copied t b) h = less-has_free c.buffer.used (len + 1) h
finish_push-LeavesFree start len bytes c missing h = less-has_free c.buffer.used (len + 1) h
finish_push-LeavesFree start len bytes c present h = less-has_free c.buffer.used (len + 1) h

take_push-LeavesFree :
    (start len : ℕ) (c : PushClient) (o : Option Bytes)
    → has_free c.buffer.used ≡ true
    → LeavesFree (take_push start len c o)
unfolding take_push
take_push-LeavesFree start len c none h = tt
take_push-LeavesFree start len c (some bytes) h =
    finish_push-LeavesFree start len bytes c
      (simple_json_processor (some (drop start bytes)) (some (codes "time")) true 40) h

ping_and_return-LeavesFree :
    (due : Bool) (answer : ℤ) (c : PushClient)
    → has_free c.buffer.used ≡ true
    → LeavesFree (ping_and_return due answer c)
ping_and_return-LeavesFree due answer c h =
    ap (λ (b : Buffer). has_free b.used) (send_ping_lem due answer c).1 ∙ h

not_full : (u : ℤ) → has_free u ≡ true → is_full 1024 u ≡ false
not_full (pos n) h = ground arith
not_full (negsuc n) h = refl

module _ (due : Bool) (answer : ℤ) (c : PushClient) where
  without_message :
      (b : Buffer)
      → has_free b.used ≡ true
      → LeavesFree (
          if is_full push_buffer_size b.used
          then done (record c { buffer = record b { used = pos 0 } }) [] false
          else ping_and_return due answer (record c { buffer = b }))
  without_message b h =
      rw (not_full b.used h) (ping_and_return-LeavesFree due answer (record c { buffer = b }) h)

  after_receiving-LeavesFree :
      (r : Receiving) → EndsFree r → LeavesFree (after_receiving due answer c r)
  unfolding after_receiving
  after_receiving-LeavesFree Receiving.fault h = tt
  after_receiving-LeavesFree (ended b overrun) h = without_message b h
  after_receiving-LeavesFree (ended b nothing) h = without_message b h
  after_receiving-LeavesFree (ended b (message start none)) h = without_message b h
  after_receiving-LeavesFree (ended b (message start (some len))) h = elim (Bool-cases (len == 0)) [
    | inl e ↦ rw e (ping_and_return-LeavesFree due answer (record c { buffer = b }) h)
    | inr e ↦ rw e (
        take_push-LeavesFree start len (record c { buffer = b })
          (terminate push_buffer_size start len b.bytes) h)
  ]

-- A call that finds at most 1023 bytes of the buffer used leaves at most 1023 used, whatever the
-- board answers: the buffer of 1024 bytes is never full.
pub process_next-LeavesFree :
    (i : PushInput) (c : PushClient) → has_free c.buffer.used ≡ true → LeavesFree (process_next i c)
unfolding process_next
process_next-LeavesFree i c h = elim (Bool-cases (is_positive c.socket_handle)) [
  | inl on ↦ rw on (
      after_receiving-LeavesFree i.ping_due i.ping_answer c
        (receive_push c.socket_handle i.reads c.buffer nothing)
        (receive_push-EndsFree c.socket_handle i.reads c.buffer nothing h))
  | inr off ↦ rw off h
]
