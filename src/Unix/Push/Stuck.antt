-- ===== src/Unix/Push/Stuck.antt =====
-- Calls of `parseProcessNextPushNotification` after which the service is behind, or stuck.
use parse_embedded_sdks.Base.{
  ℕ, zero, suc, ◌+◌, ◌≤◌, ◌<◌, ◌≡◌, ◌≢◌, refl, sym, ap, subst, ◌∙◌, Bool, true, false, Bool-cases,
  inl, inr, Option, some, List, [], ◌∷◌, ◌++◌, append_assoc, Bytes, codes, length, take, drop,
  length-append, length-take, length-drop, take-append-drop, ap₂, replicate, if◌then◌else◌, ◌&&◌,
  ltb, lt→ltb, ne→==, pos, negsuc, ◌-ℤ◌, sub_ℕ-lt, arith,
}
use parse_embedded_sdks.Json.Frame.{PushJson, overrun, nothing, message, get_push_json}
use parse_embedded_sdks.Json.Frame.Laws.{get_push_json_whole}
use parse_embedded_sdks.Json.Messages.{Body, render, IsBody}
use parse_embedded_sdks.Push.Buffer.{
  Buffer, append, is_partial, used_size, has_room, is_full, consume, has_more, write_at,
}
use parse_embedded_sdks.Push.Buffer.Laws.{terminate_lem}
use parse_embedded_sdks.Unix.Push.{
  Recv, received, again, failed, Event, sent, Client, buffer_size, heartbeat_interval, callbacks,
  Received, ended, error, no_message, continue_with, receive, Outcome, done, heartbeat, deliver,
  finish_message, take_message, after_receive, process_next_push_notification,
}
use parse_embedded_sdks.Unix.Push.Messages.{
  process_started, receive-ended, announced, Notes, note_time-Notes, time_extraction,
  time_extraction-InBounds, deliver_lem, callbacks-append,
}

-- A call that delivers nothing, leaves the buffer as it is, keeps the service on and returns 0, with
-- the given answers of `curl_easy_recv` left.
pub record IsSilent (c : Client) (rs : List Recv) (o : Outcome) : Type 0 where
  pub client : Client
  pub events : List Event
  pub outcome : o ≡ done client events false rs
  pub calls : callbacks events ≡ []
  pub buffer : client.buffer ≡ c.buffer
  pub started : client.is_started ≡ c.is_started
  pub callback : client.has_callback ≡ c.has_callback

heartbeat-IsSilent : (now : ℕ) (c : Client) (rs : List Recv) → IsSilent c rs (heartbeat now c rs)
unfolding heartbeat
heartbeat-IsSilent now c rs = elim (Bool-cases (ltb (c.last_heartbeat + heartbeat_interval) now)) [
  | inl due ↦ record {
    client = record c { last_heartbeat = now };
    events = sent (codes "{}\n") ∷ [];
    outcome = rw due;
    calls = refl;
    buffer = refl;
    started = refl;
    callback = refl;
  }
  | inr early ↦ record {
    client = c;
    events = [];
    outcome = rw early;
    calls = refl;
    buffer = refl;
    started = refl;
    callback = refl;
  }
]

-- Where the loop ends with no message and the buffer is not full.
after_receive-IsSilent :
    (now : ℕ) (c : Client) (rs rs' : List Recv)
    → c.is_started ≡ true
    → is_full buffer_size c.buffer.used ≡ false
    → receive rs c.buffer nothing ≡ ended c.buffer nothing rs'
    → IsSilent c rs' (process_next_push_notification now rs c)
unfolding after_receive no_message
after_receive-IsSilent now c rs rs' hs hf e =
    subst (IsSilent c rs')
      (sym (process_started now rs c hs e ∙ ap (λ t. no_message t now c.buffer c rs') hf))
      (heartbeat-IsSilent now c rs')

-- Where the socket has nothing to read, a call delivers nothing and leaves the buffer as it is,
-- whatever it holds: a whole message that an earlier read has brought is not looked at.
pub process_again-IsSilent :
    (now : ℕ) (c : Client) (n : ℕ) (rs : List Recv)
    → c.is_started ≡ true
    → c.buffer.used ≡ pos n
    → n < buffer_size
    → IsSilent c rs (process_next_push_notification now (again ∷ rs) c)
unfolding receive
process_again-IsSilent now c n rs hs hu hn =
    after_receive-IsSilent now c (again ∷ rs) rs hs
      (ap (is_full buffer_size) hu ∙ ne→== n buffer_size (omega arith))
      (ap (λ t. if t then ended c.buffer nothing rs else ended c.buffer nothing (again ∷ rs))
        (ap (has_room buffer_size) hu ∙ lt→ltb n buffer_size hn))

receive_negative :
    (rs : List Recv) (b : Buffer) (n : ℕ)
    → b.used ≡ negsuc n
    → receive rs b nothing ≡ ended b nothing rs
unfolding receive
receive_negative [] b n h = refl
receive_negative (received d ∷ rs) b n h =
    let m = get_push_json (append b d).bytes (used_size (append b d).used) in
    ap
      (λ u.
        if has_room buffer_size u
        then continue_with (append b d) m (receive rs (append b d))
        else ended b nothing (received d ∷ rs))
      h
receive_negative (again ∷ rs) b n h =
    ap (λ u. if has_room buffer_size u then ended b nothing rs else ended b nothing (again ∷ rs)) h
receive_negative (failed ∷ rs) b n h =
    ap (λ u. if has_room buffer_size u then error b rs else ended b nothing (failed ∷ rs)) h

-- Where the count of used bytes is negative, a call makes no read, delivers nothing, and leaves the
-- buffer and the count as they are, whatever there is to read.
pub process_negative-IsSilent :
    (now : ℕ) (c : Client) (n : ℕ) (rs : List Recv)
    → c.is_started ≡ true
    → c.buffer.used ≡ negsuc n
    → IsSilent c rs (process_next_push_notification now rs c)
process_negative-IsSilent now c n rs hs hu =
    after_receive-IsSilent now c rs rs hs (ap (is_full buffer_size) hu)
      (receive_negative rs c.buffer n hu)

-- A sequence of calls, each at its time and with its answers of `curl_easy_recv`, of which none makes
-- a read, calls the callback, changes the buffer or ends the service.
abbrev pub StaysSilent : List (ℕ × List Recv) → Client → Type 0
StaysSilent [] c = Unit
StaysSilent ((now, answers) ∷ calls) c =
    (c' : Client) × (events : List Event) × (process_next_push_notification now answers c
      ≡ done c' events false answers)
    × (callbacks events ≡ [])
    × (c'.buffer ≡ c.buffer)
    × (c'.is_started ≡ true)
    × StaysSilent calls c'

negative-StaysSilent :
    (calls : List (ℕ × List Recv)) (c : Client) (n : ℕ)
    → c.is_started ≡ true
    → c.buffer.used ≡ negsuc n
    → StaysSilent calls c
negative-StaysSilent [] c n hs hu = tt
negative-StaysSilent ((now, answers) ∷ calls) c n hs hu =
    let call = process_negative-IsSilent now c n answers hs hu in
    let started = call.started ∙ hs in
    (
      call.client,
      call.events,
      call.outcome,
      call.calls,
      call.buffer,
      started,
      negative-StaysSilent calls call.client n started
          (ap (λ (x : Buffer). x.used) call.buffer ∙ hu),
    )

-- A call that reads a message and nothing behind it.
record Unterminated (has_callback : Bool) (b : Body) (rs : List Recv) (o : Outcome) : Type 0 where
  client : Client
  events : List Event
  outcome : o ≡ done client events false rs
  calls : callbacks events ≡ announced has_callback b
  used : client.buffer.used ≡ negsuc 0
  started : client.is_started ≡ true

consume_all :
    (c : Client) (len : ℕ) (bytes : Bytes) {o : Option (Client × List Event)} (notes : Notes c o)
    → c.buffer.used ≡ pos len
    → (consume len (record notes.client.buffer { bytes = bytes })).used ≡ negsuc 0
unfolding consume
consume_all c len bytes notes h =
    ap (λ u. u -ℤ (len + 1)) (ap (λ (x : Buffer). x.used) notes.buffer ∙ h)
    ∙ sub_ℕ-lt len (len + 1) (omega arith)
    ∙ ap negsuc (omega arith)

finish_message-Unterminated :
    (c : Client) (b : Body) (msg memory : Bytes) (rs : List Recv) {o : Option (Client × List Event)}
    → Notes c o
    → c.is_started ≡ true
    → c.buffer.used ≡ pos (length msg)
    → callbacks (deliver c.has_callback (length msg) memory) ≡ announced c.has_callback b
    → Unterminated c.has_callback b rs (finish_message 0 (length msg) rs memory o)
unfolding finish_message
finish_message-Unterminated c b msg memory rs notes hs hu hd =
    let x = consume (length msg) (record notes.client.buffer { bytes = memory }) in
    let all = consume_all c (length msg) memory notes hu in
    record {
      client = record notes.client { buffer = x };
      events = notes.events ++ deliver notes.client.has_callback (length msg) memory;
      outcome =
          ap (finish_message 0 (length msg) rs memory) notes.outcome
          ∙ ap
              (λ u.
                done (record notes.client { buffer = x })
                  (notes.events ++ deliver notes.client.has_callback (length msg) memory)
                  (has_more u) rs)
              all;
      calls = callbacks-append notes.events _ ∙ rw (notes.calls, notes.callback) hd;
      used = all;
      started = notes.started ∙ hs;
    }

-- The buffer that such a read leaves, `y` being the byte behind the message.
left_by : Body → ℕ → Bytes → Buffer
left_by b y ys = record { bytes = render b ++ y ∷ ys; used = pos (length (render b)) }

after_message-Unterminated :
    (now : ℕ) (c : Client) (b : Body) (y : ℕ) (ys : Bytes) (rs : List Recv)
    → c.is_started ≡ true
    → IsBody b
    → length (render b) < buffer_size
    → Unterminated c.has_callback b rs
        (after_receive now c (ended (left_by b y ys) (message 0 (some (length (render b)))) rs))
unfolding after_receive take_message left_by time_extraction
after_message-Unterminated now c b y ys rs hs hb hl =
    rw (terminate_lem buffer_size (render b) y ys hl) (
      let c' = record c { buffer = left_by b y ys } in
      let notes =
        note_time-Notes c' (time_extraction (render b ++ 0 ∷ ys))
          (time_extraction-InBounds b ys hb) in
      finish_message-Unterminated c' b (render b) (render b ++ 0 ∷ ys) rs notes hs refl
        (deliver_lem c.has_callback b (0 ∷ ys) hb))

nonempty : (xs : Bytes) → 0 < length xs → (y : ℕ) × (ys : Bytes) × (xs ≡ y ∷ ys)
nonempty [] h = absurd (omega arith)
nonempty (y ∷ ys) h = (y, ys, refl)

receive_unterminated :
    (x : Buffer) (n : ℕ) (d : Bytes) (b : Body) (y : ℕ) (ys : Bytes) (rs : List Recv)
    → x.used ≡ pos n
    → n < buffer_size
    → n ≤ length x.bytes
    → IsBody b
    → take n x.bytes ++ d ≡ render b
    → drop (n + length d) x.bytes ≡ y ∷ ys
    → receive (received d ∷ rs) x nothing
      ≡ ended (left_by b y ys) (message 0 (some (length (render b)))) rs
unfolding receive left_by
receive_unterminated x n d b y ys rs hu hn hx hb h e =
    let total : n + length d ≡ length (render b) =
      omega (arith, ap length h, length-append (take n x.bytes) d, length-take n x.bytes) in
    let w : write_at x.bytes n d ≡ render b ++ y ∷ ys =
      sym (append_assoc (take n x.bytes) d _) ∙ ap₂ ◌++◌ h e in
    let whole = get_push_json_whole (length (render b)) [] b (y ∷ ys) tt hb (omega arith) in
    rw (hu, lt→ltb n buffer_size hn, w, total, whole) (receive-ended rs _ _ refl)

-- Let a started service have room, and let a read, which leaves room too, make up a whole message
-- with nothing behind it. Then the call delivers the message and returns 0, the count of used bytes
-- is -1 behind it, and in any sequence of later calls none makes a read, calls the callback, changes
-- the buffer or its count, or ends the service, whatever there is to read and at whatever times.
pub process_unterminated :
    (now : ℕ) (c : Client) (n : ℕ) (d : Bytes) (b : Body) (rs : List Recv)
    (later : List (ℕ × List Recv))
    → c.is_started ≡ true
    → c.buffer.used ≡ pos n
    → length c.buffer.bytes ≡ buffer_size
    → n + length d < buffer_size
    → IsBody b
    → take n c.buffer.bytes ++ d ≡ render b
    → (c' : Client) × (events : List Event) × (process_next_push_notification now
          (received d ∷ rs)
          c
        ≡ done c' events false rs)
      × (callbacks events ≡ announced c.has_callback b)
      × (c'.buffer.used ≡ negsuc 0)
      × (c'.is_started ≡ true)
      × StaysSilent later c'
process_unterminated now c n d b rs later hs hu hl hd hb h =
    let (y, ys, e) =
      nonempty (drop (n + length d) c.buffer.bytes)
        (omega (arith, length-drop (n + length d) c.buffer.bytes)) in
    let r = receive_unterminated c.buffer n d b y ys rs hu (omega arith) (omega arith) hb h e in
    let u =
      subst (Unterminated c.has_callback b rs) (sym (process_started now (received d ∷ rs) c hs r))
        (after_message-Unterminated now c b y ys rs hs hb (
          omega (
            arith,
            ap length h,
            length-append (take n c.buffer.bytes) d,
            length-take n c.buffer.bytes,
          ))) in
    (
      u.client,
      u.events,
      u.outcome,
      u.calls,
      u.used,
      u.started,
      negative-StaysSilent later u.client 0 u.started u.used,
    )

append_nil : (x : Buffer) (n : ℕ) → x.used ≡ pos n → append x [] ≡ x
unfolding append
append_nil x n h =
    let bytes : take n x.bytes ++ drop (n + 0) x.bytes ≡ x.bytes =
      ap (λ k. take n x.bytes ++ drop k x.bytes) (omega arith) ∙ take-append-drop n x.bytes in
    let used : pos (n + 0) ≡ pos n = ap pos (omega arith) in
    rw h (λ i. record { bytes = bytes i; used = used i })

continue_with-ne :
    (b : Buffer) (m : PushJson) (k : PushJson → Received) → m ≢ overrun → continue_with b m k ≡ k m
unfolding continue_with
continue_with-ne b overrun k h = absurd (h refl)
continue_with-ne b nothing k h = refl
continue_with-ne b (message _ _) k h = refl

receive_round :
    (d : Bytes) (rs : List Recv) (b : Buffer) (m : PushJson)
    → is_partial m ≡ true
    → has_room buffer_size b.used ≡ true
    → receive (received d ∷ rs) b m
      ≡ continue_with
          (append b d)
          (get_push_json (append b d).bytes (used_size (append b d).used))
          (receive rs (append b d))
unfolding receive
receive_round d rs b m hp hr =
    let x = append b d in
    let next = continue_with x (get_push_json x.bytes (used_size x.used)) (receive rs x) in
    ap₂ (λ p q. if p && q then next else ended b m (received d ∷ rs)) hp hr

-- Let the buffer have room and hold no whole message. Then any number of reads of no bytes, with
-- which libcurl tells that the connection is closed, leaves the receive loop where it is: it reads
-- again.
pub receive_closed :
    (k : ℕ) (x : Buffer) (n : ℕ) (m : PushJson) (rs : List Recv)
    → x.used ≡ pos n
    → n < buffer_size
    → get_push_json x.bytes n ≡ m
    → m ≢ overrun
    → is_partial m ≡ true
    → receive (replicate k (received []) ++ rs) x m ≡ receive rs x m
receive_closed zero x n m rs hu hn hm ho hp = refl
receive_closed (suc k) x n m rs hu hn hm ho hp =
    let rs' = replicate k (received []) ++ rs in
    receive_round [] rs' x m hp (ap (has_room buffer_size) hu ∙ lt→ltb n buffer_size hn)
    ∙ ap (λ y. continue_with y (get_push_json y.bytes (used_size y.used)) (receive rs' y))
        (append_nil x n hu)
    ∙ ap (λ m'. continue_with x m' (receive rs' x))
        (ap (λ u. get_push_json x.bytes (used_size u)) hu ∙ hm)
    ∙ continue_with-ne x m (receive rs' x) ho
    ∙ receive_closed k x n m rs hu hn hm ho hp
