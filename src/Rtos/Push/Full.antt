-- ===== src/Rtos/Push/Full.antt =====
-- The push service of the RTOS client with one free byte in its buffer.
use parse_embedded_sdks.Base.{
  ℕ, zero, suc, ◌-◌, ◌≡◌, refl, sym, ap, ap₂, subst, ◌∙◌, Bool, true, false, Bool-cases, inl, inr,
  ◌⊎◌, List, [], ◌∷◌, ◌++◌, Bytes, ℤ, pos, negsuc, is_negative, if◌then◌else◌, arith,
}
use parse_embedded_sdks.Json.Frame.{PushJson, nothing}
use parse_embedded_sdks.Push.Buffer.{Buffer, has_room, is_full, used_size}
use parse_embedded_sdks.Cc3200.Socket.{Poll, socket_read}
use parse_embedded_sdks.Cc3200.Socket.Laws.{fill-IsRead}
use parse_embedded_sdks.Rtos.Push.{
  PushClient, PushEvent, messages, send_ping, Receiving, ended, after_read, read_more, receive_push,
  is_positive, after_receiving, ping_and_return, process_next, Running, looping, returned,
  preceded_by, then_loop, goes_on, PushInput, run_push_rounds, PushOutcome, done,
}
use parse_embedded_sdks.Rtos.Push.Ping.{messages-append, send_ping_lem}
use parse_embedded_sdks.Rtos.Push.Stuck.{run_push_rounds-step}

-- A call that returns 0, has delivered no message and leaves as many bytes used as it finds.
record IsIdleCall (c : PushClient) (o : PushOutcome) : Type 0 where
  client : PushClient
  events : List PushEvent
  outcome : o ≡ done client events false
  silent : messages events ≡ []
  used : client.buffer.used ≡ c.buffer.used

ping_and_return-IsIdleCall :
    (due : Bool) (answer : ℤ) (c : PushClient) (memory : Bytes)
    → IsIdleCall c
        (ping_and_return due answer (record c { buffer = record c.buffer { bytes = memory } }))
ping_and_return-IsIdleCall due answer c memory =
    let c' = record c { buffer = record c.buffer { bytes = memory } } in
    let ping = send_ping_lem due answer c' in
    record {
      client = (send_ping due answer c').0;
      events = (send_ping due answer c').1;
      outcome = refl;
      silent = ping.0;
      used = ap (λ (b : Buffer). b.used) ping.1;
    }

-- A read of no bytes, or one that fails, ends the receive loop.
after_read-ended :
    (b : Buffer) (m : PushJson) (r : ℤ × Bytes) (k : Buffer → PushJson → Receiving)
    → (r.0 ≡ pos 0) ⊎ (is_negative r.0 ≡ true)
    → after_read b m r k ≡ ended (record b { bytes = r.1 }) m
after_read-ended b m (negsuc n, memory) k h = refl
after_read-ended b m (pos zero, memory) k h = refl
after_read-ended b m (pos (suc n), memory) k (inl e) = absurd (ground (arith, ap used_size e))
after_read-ended b m (pos (suc n), memory) k (inr e) = absurd (ground (arith, e))

-- A read into one byte has no room for any.
socket_read-one :
    (handle : ℤ) (polls : List Poll) (memory : Bytes) (offset : ℕ)
    → let r = socket_read handle polls memory offset 1 in (r.0 ≡ pos 0) ⊎ (is_negative r.0 ≡ true)
unfolding socket_read
socket_read-one (negsuc n) polls memory offset = inr refl
socket_read-one (pos n) polls memory offset =
    let read = fill-IsRead 0 false [] polls (omega arith) (omega arith) in
    elim read.counts [ inl e ↦ inl (e ∙ ap pos (omega (arith, read.fits))) | inr e ↦ inr e ]

read_more-full :
    (handle : ℤ) (polls : List Poll) (b : Buffer) (k : Buffer → PushJson → Receiving)
    → b.used ≡ pos 1023
    → after_read b nothing (read_more handle polls b) k
      ≡ ended (record b { bytes = (read_more handle polls b).1 }) nothing
read_more-full handle polls b k h =
    let one : 1024 - used_size b.used ≡ 1 = ap (λ u. 1024 - used_size u) h in
    after_read-ended b nothing (read_more handle polls b) k (
      subst
        (λ n.
          let r = socket_read handle polls b.bytes (used_size b.used) n in
          (r.0 ≡ pos 0) ⊎ (is_negative r.0 ≡ true))
        (sym one) (socket_read-one handle polls b.bytes (used_size b.used)))

receive_push-full :
    (handle : ℤ) (reads : List (List Poll)) (b : Buffer)
    → b.used ≡ pos 1023
    → (memory : Bytes) × (receive_push handle reads b nothing
        ≡ ended (record b { bytes = memory }) nothing)
unfolding receive_push
receive_push-full handle [] b h = (
  (read_more handle [] b).1,
  ap₂ (λ t r. if t then r else ended b nothing) (ap (has_room 1024) h)
      (read_more-full handle [] b ended h),
)
receive_push-full handle (polls ∷ reads) b h = (
  (read_more handle polls b).1,
  ap₂ (λ t r. if t then r else ended b nothing) (ap (has_room 1024) h)
      (read_more-full handle polls b (receive_push handle reads) h),
)

after_receiving-full :
    (i : PushInput) (c : PushClient) (memory : Bytes)
    → c.buffer.used ≡ pos 1023
    → IsIdleCall c (
        after_receiving i.ping_due i.ping_answer c
          (ended (record c.buffer { bytes = memory }) nothing))
unfolding after_receiving
after_receiving-full i c memory h =
    let c' = record c { buffer = record c.buffer { bytes = memory } } in
    subst (IsIdleCall c)
      (sym (
        ap
          (λ t.
            if t
            then done (record c { buffer = record { bytes = memory; used = pos 0 } }) [] false
            else ping_and_return i.ping_due i.ping_answer c')
          (ap (is_full 1024) h)))
      (ping_and_return-IsIdleCall i.ping_due i.ping_answer c memory)

process_next-full :
    (i : PushInput) (c : PushClient) → c.buffer.used ≡ pos 1023 → IsIdleCall c (process_next i c)
unfolding process_next
process_next-full i c h =
    let (memory, received) = receive_push-full c.socket_handle i.reads c.buffer h in
    elim (Bool-cases (is_positive c.socket_handle)) [
      | inl on ↦
          subst (IsIdleCall c)
            (sym (
              ap₂
                (λ t r. if t then after_receiving i.ping_due i.ping_answer c r else done c [] false)
                on received))
            (after_receiving-full i c memory h)
      | inr shut ↦
          subst (IsIdleCall c)
            (sym (
              ap
                (λ t.
                  if t
                  then after_receiving i.ping_due i.ping_answer c
                      (receive_push c.socket_handle i.reads c.buffer nothing)
                  else done c [] false)
                shut))
            (record { client = c; events = []; outcome = refl; silent = refl; used = refl })
    ]

-- What the loop has come to without a delivery.
abbrev pub HasStopped : Running → Type 0
HasStopped r =
    (c : PushClient) × (events : List PushEvent) × ((r ≡ looping c events)
      ⊎ ((r ≡ returned c events) × (c.socket_handle ≡ negsuc 0)))
    × (messages events ≡ [])
    × (c.buffer.used ≡ pos 1023)

HasStopped-preceded :
    (before : List PushEvent) (r : Running)
    → messages before ≡ []
    → HasStopped r
    → HasStopped (preceded_by before r)
HasStopped-preceded before r h (c, events, inl e, silent, used) = (
  c,
  before ++ events,
  inl (ap (preceded_by before) e),
  messages-append before events ∙ ap₂ ◌++◌ h silent,
  used,
)
HasStopped-preceded before r h (c, events, inr e, silent, used) = (
  c,
  before ++ events,
  inr (ap (preceded_by before) e.0, e.1),
  messages-append before events ∙ ap₂ ◌++◌ h silent,
  used,
)

goes_on-false : (h : ℤ) → goes_on h ≡ false → h ≡ negsuc 0
goes_on-false (pos n) e = absurd (ground (arith, e))
goes_on-false (negsuc zero) e = refl
goes_on-false (negsuc (suc n)) e = absurd (ground (arith, e))

run_push_rounds-closed :
    (inputs : List PushInput) (c : PushClient)
    → goes_on c.socket_handle ≡ false
    → run_push_rounds inputs c ≡ returned c []
unfolding run_push_rounds
run_push_rounds-closed [] c h = ap (λ t. if t then looping c [] else returned c []) h
run_push_rounds-closed (i ∷ inputs) c h =
    ap (λ t. if t then then_loop (process_next i c) (run_push_rounds inputs) else returned c []) h

run_push_rounds-open :
    (c : PushClient) → goes_on c.socket_handle ≡ true → run_push_rounds [] c ≡ looping c []
unfolding run_push_rounds
run_push_rounds-open c h = ap (λ t. if t then looping c [] else returned c []) h

-- Once 1023 of the 1024 bytes of the buffer are used, the loop of the service delivers no message
-- any more, however many rounds there are and whatever the board answers: it never drops what the
-- buffer holds, which it does at 1024 bytes. It has no fault, and returns only where the socket is
-- closed.
pub run_push_rounds-full :
    (inputs : List PushInput) (c : PushClient)
    → c.buffer.used ≡ pos 1023
    → HasStopped (run_push_rounds inputs c)
run_push_rounds-full [] c h = elim (Bool-cases (goes_on c.socket_handle)) [
  | inr shut ↦
      (c, [], inr (run_push_rounds-closed [] c shut, goes_on-false c.socket_handle shut), refl, h)
  | inl on ↦ (c, [], inl (run_push_rounds-open c on), refl, h)
]
run_push_rounds-full (i ∷ inputs) c h = elim (Bool-cases (goes_on c.socket_handle)) [
  | inr shut ↦ (
    c,
    [],
    inr (run_push_rounds-closed (i ∷ inputs) c shut, goes_on-false c.socket_handle shut),
    refl,
    h,
  )
  | inl on ↦
      let call = process_next-full i c h in
      subst HasStopped
        (sym (run_push_rounds-step i inputs c call.client call.events false on call.outcome))
        (HasStopped-preceded call.events (run_push_rounds inputs call.client) call.silent
          (run_push_rounds-full inputs call.client (call.used ∙ h)))
]
