-- ===== src/Unix/Push/Messages.antt =====
-- A call of `parseProcessNextPushNotification` that receives the end of a message.
use parse_embedded_sdks.Base.{
  ℕ, ◌+◌, ◌≤◌, ◌<◌, ◌≡◌, refl, sym, ap, subst, ◌∙◌, Bool, true, false, Option, some, List, [], ◌∷◌,
  ◌++◌, append_assoc, Bytes, codes, if◌then◌else◌, ltb, length, take, take-append, ne→==, drop,
  length-append, length-take, ℤ, pos, lt→ltb, ltb, arith,
}
use parse_embedded_sdks.CString.{same_prefix}
use parse_embedded_sdks.Json.Frame.{PushJson, message, nothing}
use parse_embedded_sdks.Json.Frame.Laws.{get_push_json_whole, body-IsText}
use parse_embedded_sdks.Json.Messages.{
  Body, empty, plain, quoted, nested, render, render_body, IsBody,
}
use parse_embedded_sdks.Json.Processor.{Extraction, copied, missing, present, simple_json_processor}
use parse_embedded_sdks.Json.Processor.Safety.{InBounds, simple_json_processor-InBounds}
use parse_embedded_sdks.Push.Buffer.{Buffer, write_at, is_partial, consume, has_more}
use parse_embedded_sdks.Push.Buffer.Laws.{
  length-write_at, terminate_lem, consume_lem, length-consume,
}
use parse_embedded_sdks.Unix.Push.{
  Recv, Event, called_back, sent, stored_time, Client, buffer_size, Received, ended, receive,
  callbacks, Outcome, done, note_time, deliver, finish_message, take_message, after_receive,
  process_next_push_notification,
}

-- What the push callback is to be told of a message: nothing of the heartbeat's answer `{}`.
abbrev pub announced : Bool → Body → List (ℕ × Option Bytes)
announced has_callback empty = []
announced has_callback b = if has_callback then (0, some (render b)) ∷ [] else []

deliver_other :
    (has_callback : Bool) (msg p : Bytes)
    → same_prefix (codes "{}") (msg ++ p) ≡ some false
    → deliver has_callback (length msg) (msg ++ p)
      ≡ (if has_callback then called_back 0 (some msg) ∷ [] else [])
deliver_other has_callback msg p h = rw h (rw (take-append msg p))

deliver_calls :
    (has_callback : Bool) (msg p : Bytes)
    → same_prefix (codes "{}") (msg ++ p) ≡ some false
    → callbacks (deliver has_callback (length msg) (msg ++ p))
      ≡ (if has_callback then (0, some msg) ∷ [] else [])
deliver_calls true msg p h = rw (deliver_other true msg p h)
deliver_calls false msg p h = rw (deliver_other false msg p h)

-- The message at the start of a memory is delivered as announced.
pub deliver_lem :
    (has_callback : Bool) (b : Body) (p : Bytes)
    → IsBody b
    → callbacks (deliver has_callback (length (render b)) (render b ++ p))
      ≡ announced has_callback b
deliver_lem has_callback empty p h = refl
deliver_lem has_callback (plain c b) p h =
    deliver_calls has_callback (render (plain c b)) p (rw (ne→== b'}' c (omega arith)))
deliver_lem has_callback (quoted items b) p h =
    deliver_calls has_callback (render (quoted items b)) p refl
deliver_lem has_callback (nested inner b) p h =
    deliver_calls has_callback (render (nested inner b)) p refl

pub receive-ended :
    (rs : List Recv) (b : Buffer) (m : PushJson)
    → is_partial m ≡ false
    → receive rs b m ≡ ended b m rs
unfolding receive
receive-ended [] b m h = refl
receive-ended (Recv.received d ∷ rs) b m h = rw h
receive-ended (Recv.again ∷ rs) b m h = rw h
receive-ended (Recv.failed ∷ rs) b m h = rw h

-- The field "time" of a message in memory is looked up inside the memory.
unfoldable pub time_extraction : Bytes → Extraction
time_extraction p = simple_json_processor (some p) (some (codes "time")) true 32

pub time_extraction-InBounds :
    (b : Body) (behind : Bytes) → IsBody b → InBounds (time_extraction (render b ++ 0 ∷ behind))
unfolding time_extraction
time_extraction-InBounds b behind h = rw append_assoc (
    simple_json_processor-InBounds (b'{' ∷ render_body b) (codes "time") true 32 behind
      (omega arith, body-IsText b h) (omega arith))

-- What a call has done that has received the end of the message `b` and the bytes `rest`.
pub record Delivers (has_callback : Bool) (b : Body) (rest : Bytes) (rs : List Recv) (o : Outcome)
    : Type 0 where
  pub client : Client
  pub events : List Event
  -- The call returns, with 1 exactly when bytes are left, and has made one read.
  pub outcome : o ≡ done client events (ltb 0 (length rest)) rs
  -- The callback has been called on the message.
  pub calls : callbacks events ≡ announced has_callback b
  -- The buffer holds the rest.
  pub used : client.buffer.used ≡ pos (length rest)
  pub kept : take (length rest) client.buffer.bytes ≡ rest
  pub size : length client.buffer.bytes ≡ buffer_size
  -- The service goes on.
  pub started : client.is_started ≡ true
  pub callback : client.has_callback ≡ has_callback

pub callbacks-append : (xs ys : List Event) → callbacks (xs ++ ys) ≡ callbacks xs ++ callbacks ys
callbacks-append [] ys = refl
callbacks-append (called_back e m ∷ xs) ys = ap (◌∷◌ (e, m)) (callbacks-append xs ys)
callbacks-append (sent _ ∷ xs) ys = callbacks-append xs ys
callbacks-append (stored_time _ ∷ xs) ys = callbacks-append xs ys

-- Noting the time touches neither the buffer nor the callback.
pub record Notes (c : Client) (o : Option (Client × List Event)) : Type 0 where
  pub client : Client
  pub events : List Event
  pub outcome : o ≡ some (client, events)
  pub buffer : client.buffer ≡ c.buffer
  pub callback : client.has_callback ≡ c.has_callback
  pub started : client.is_started ≡ c.is_started
  pub calls : callbacks events ≡ []

pub note_time-Notes : (c : Client) (e : Extraction) → InBounds e → Notes c (note_time c e)
unfolding note_time
note_time-Notes c Extraction.overrun h = absurd (h refl)
note_time-Notes c (copied time true) h = record {
  client = record c { last_push_time = some time };
  events = stored_time time ∷ [];
  outcome = refl;
  buffer = refl;
  callback = refl;
  started = refl;
  calls = refl;
}
note_time-Notes c (copied time false) h = record {
  client = c;
  events = [];
  outcome = refl;
  buffer = refl;
  callback = refl;
  started = refl;
  calls = refl;
}
note_time-Notes c missing h = record {
  client = c;
  events = [];
  outcome = refl;
  buffer = refl;
  callback = refl;
  started = refl;
  calls = refl;
}
note_time-Notes c present h = record {
  client = c;
  events = [];
  outcome = refl;
  buffer = refl;
  callback = refl;
  started = refl;
  calls = refl;
}

-- The end of a call, on a memory that holds a text, a NUL and the rest.
module _ (c : Client) (b : Body) (msg rest behind : Bytes) (rs : List Recv)
    {o : Option (Client × List Event)} (notes : Notes c o)
    (used : c.buffer.used ≡ pos (length msg + 1 + length rest)) where
  memory : Bytes
  memory = msg ++ 0 ∷ (rest ++ behind)

  left : Buffer
  left = consume (length msg) (record notes.client.buffer { bytes = memory })

  left_lem : (left.used ≡ pos (length rest)) × (take (length rest) left.bytes ≡ rest)
  unfolding left memory
  left_lem =
      subst
        (λ (u : ℤ).
          ((consume (length msg) (record { bytes = memory; used = u })).used ≡ pos (length rest))
          × (take (length rest) (consume (length msg) (record { bytes = memory; used = u })).bytes
              ≡ rest))
        (sym (ap (λ (x : Buffer). x.used) notes.buffer ∙ used)) (consume_lem msg rest behind)

  length-left : length memory ≡ buffer_size → length left.bytes ≡ buffer_size
  unfolding left memory
  length-left h =
      let h' : length (msg ++ 0 ∷ (rest ++ behind)) ≡ buffer_size = h in
      length-consume buffer_size (length msg) _ (length msg + 1 + length rest)
        (ap (λ (x : Buffer). x.used) notes.buffer ∙ used) h
        (omega (arith, length-append msg (0 ∷ (rest ++ behind)), length-append rest behind))

  finish_message-Delivers :
      c.is_started ≡ true
      → callbacks (deliver c.has_callback (length msg) memory) ≡ announced c.has_callback b
      → length memory ≡ buffer_size
      → Delivers c.has_callback b rest rs (finish_message 0 (length msg) rs memory o)
  unfolding finish_message left
  finish_message-Delivers hs hd hl = record {
    client = record notes.client { buffer = left };
    events = notes.events ++ deliver notes.client.has_callback (length msg) memory;
    outcome =
        rw (notes.outcome, finish_message)
          (ap
            (λ u.
              done (record notes.client { buffer = left })
                (notes.events ++ deliver notes.client.has_callback (length msg) memory) (has_more u)
                rs)
            left_lem.0);
    calls = callbacks-append notes.events _ ∙ rw (notes.calls, notes.callback) hd;
    used = left_lem.0;
    kept = left_lem.1;
    size = length-left hl;
    started = notes.started ∙ hs;
    callback = notes.callback;
  }

-- The memory behind the read: the message, its separator and the rest at the front.
written :
    (bytes d msg : Bytes) (n sep : ℕ) (rest : Bytes)
    → take n bytes ++ d ≡ msg ++ sep ∷ rest
    → write_at bytes n d ≡ msg ++ sep ∷ (rest ++ drop (n + length d) bytes)
written bytes d msg n sep rest h =
    sym (append_assoc (take n bytes) d _)
    ∙ ap (λ x. x ++ drop (n + length d) bytes) h
    ∙ append_assoc msg (sep ∷ rest) _

-- The buffer that a read of the end of a message leaves.
arrived : Body → ℕ → Bytes → Bytes → Buffer
arrived b sep rest behind = record {
  bytes = render b ++ sep ∷ (rest ++ behind);
  used = pos (length (render b) + 1 + length rest);
}

receive_message :
    (x : Buffer) (n : ℕ) (d : Bytes) (b : Body) (sep : ℕ) (rest : Bytes) (rs : List Recv)
    → x.used ≡ pos n
    → n < buffer_size
    → n + length d ≤ buffer_size
    → n ≤ length x.bytes
    → IsBody b
    → take n x.bytes ++ d ≡ render b ++ sep ∷ rest
    → receive (Recv.received d ∷ rs) x nothing
      ≡ ended
          (arrived b sep rest (drop (n + length d) x.bytes))
          (message 0 (some (length (render b))))
          rs
unfolding receive arrived
receive_message x n d b sep rest rs hu hn hd hx hb h =
    let behind = drop (length (render b) + 1 + length rest) x.bytes in
    let total : n + length d ≡ length (render b) + 1 + length rest = omega (
      arith,
      ap length h,
      length-append (take n x.bytes) d,
      length-take n x.bytes,
      length-append (render b) (sep ∷ rest),
    ) in
    let whole =
      get_push_json_whole (length (render b) + 1 + length rest) [] b (sep ∷ (rest ++ behind)) tt hb
        (omega arith) in
    rw (hu, lt→ltb n buffer_size hn, written x.bytes d (render b) n sep rest h, total, whole)
      (receive-ended rs _ _ refl)

after_message-Delivers :
    (now : ℕ) (c : Client) (b : Body) (sep : ℕ) (rest behind : Bytes) (rs : List Recv)
    → c.is_started ≡ true
    → IsBody b
    → length (render b ++ sep ∷ (rest ++ behind)) ≡ buffer_size
    → Delivers c.has_callback b rest rs (
        after_receive now c
          (ended (arrived b sep rest behind) (message 0 (some (length (render b)))) rs))
unfolding after_receive take_message arrived memory time_extraction
after_message-Delivers now c b sep rest behind rs hs hb hl =
    rw
      (terminate_lem buffer_size (render b) sep (rest ++ behind)
        (omega (arith, length-append (render b) (sep ∷ (rest ++ behind)))))
      (let notes =
          note_time-Notes (record c { buffer = arrived b sep rest behind })
            (time_extraction (render b ++ 0 ∷ (rest ++ behind)))
            (time_extraction-InBounds b (rest ++ behind) hb) in
        finish_message-Delivers (record c { buffer = arrived b sep rest behind }) b (render b) rest
          behind rs notes refl hs (deliver_lem c.has_callback b (0 ∷ (rest ++ behind)) hb)
          (omega (
            arith,
            hl,
            length-append (render b) (sep ∷ (rest ++ behind)),
            length-append (render b) (0 ∷ (rest ++ behind)),
          )))

-- A call of a started service, by what its receive loop gives.
pub process_started :
    (now : ℕ) (rs : List Recv) (c : Client) {r : Received}
    → c.is_started ≡ true
    → receive rs c.buffer nothing ≡ r
    → process_next_push_notification now rs c ≡ after_receive now c r
unfolding process_next_push_notification
process_started now rs c hs e =
    ap (λ t. if t then after_receive now c (receive rs c.buffer nothing) else done c [] false rs) hs
    ∙ ap (after_receive now c) e

-- A call that reads the end of a message: let the service be started, let `n` bytes of the buffer
-- be used, which leaves room, and let those bytes and the bytes `d` read, which fit, make up a whole
-- message, one byte behind it and a rest. Then the call returns. It has made this one read; it has
-- called the callback, if there is one, on exactly the text of the message, or not at all if that is
-- `{}`; it leaves exactly the rest in the buffer, and returns 1 exactly when the rest is not empty.
pub process-Delivers :
    (now : ℕ) (c : Client) (n : ℕ) (d : Bytes) (b : Body) (sep : ℕ) (rest : Bytes) (rs : List Recv)
    → c.is_started ≡ true
    → c.buffer.used ≡ pos n
    → n < buffer_size
    → length c.buffer.bytes ≡ buffer_size
    → n + length d ≤ buffer_size
    → IsBody b
    → take n c.buffer.bytes ++ d ≡ render b ++ sep ∷ rest
    → Delivers c.has_callback b rest rs
        (process_next_push_notification now (Recv.received d ∷ rs) c)
process-Delivers now c n d b sep rest rs hs hu hn hl hd hb h =
    let behind = drop (n + length d) c.buffer.bytes in
    let e = receive_message c.buffer n d b sep rest rs hu hn hd (omega arith) hb h in
    subst (Delivers c.has_callback b rest rs)
      (sym (process_started now (Recv.received d ∷ rs) c hs e))
      (after_message-Delivers now c b sep rest behind rs hs hb (
        ap length (sym (written c.buffer.bytes d (render b) n sep rest h))
        ∙ length-write_at c.buffer.bytes d n (omega arith)
        ∙ hl))
