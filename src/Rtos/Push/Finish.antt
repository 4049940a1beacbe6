-- ===== src/Rtos/Push/Finish.antt =====
-- The end of a call of `parseProcessNextPushNotification` of rtos/push.c that has a message.
use parse_embedded_sdks.Base.{
  ◌+◌, ◌≡◌, refl, sym, ap, subst, ◌∙◌, Bool, true, false, Option, some, List, [], ◌∷◌, ◌++◌,
  append_assoc, Bytes, codes, if◌then◌else◌, ltb, length, take, take-append, ne→==, length-append,
  ℤ, pos, arith,
}
use parse_embedded_sdks.CString.{same_prefix}
use parse_embedded_sdks.Json.Frame.Laws.{body-IsText}
use parse_embedded_sdks.Json.Messages.{
  Body, empty, plain, quoted, nested, render, render_body, IsBody,
}
use parse_embedded_sdks.Json.Processor.{Extraction, copied, missing, present, simple_json_processor}
use parse_embedded_sdks.Json.Processor.Safety.{InBounds, simple_json_processor-InBounds}
use parse_embedded_sdks.Push.Buffer.{Buffer, consume, has_more}
use parse_embedded_sdks.Push.Buffer.Laws.{consume_lem, length-consume}
use parse_embedded_sdks.Rtos.Push.{
  push_buffer_size, PushEvent, saved_state, PushClient, messages, PushOutcome, done, note_push_time,
  deliver_push, finish_push,
}
use parse_embedded_sdks.Rtos.Push.Ping.{messages-append}

-- What the callback is to be told of a message: nothing of the answer `{}` to a ping.
abbrev pub told : Bool → Body → List Bytes
told has_callback empty = []
told has_callback b = if has_callback then render b ∷ [] else []

deliver_push_other :
    (has_callback : Bool) (msg p : Bytes)
    → same_prefix (codes "{}") (msg ++ p) ≡ some false
    → messages (deliver_push has_callback (length msg) (msg ++ p))
      ≡ (if has_callback then msg ∷ [] else [])
deliver_push_other true msg p h = rw h (ap (λ t. t ∷ []) (take-append msg p))
deliver_push_other false msg p h = rw h refl

-- The message at the start of a memory is delivered as it is to be told.
pub deliver_push_lem :
    (has_callback : Bool) (b : Body) (p : Bytes)
    → IsBody b
    → messages (deliver_push has_callback (length (render b)) (render b ++ p)) ≡ told has_callback b
deliver_push_lem has_callback empty p h = refl
deliver_push_lem has_callback (plain c b) p h =
    deliver_push_other has_callback (render (plain c b)) p (rw (ne→== b'}' c (omega arith)))
deliver_push_lem has_callback (quoted items b) p h =
    deliver_push_other has_callback (render (quoted items b)) p refl
deliver_push_lem has_callback (nested inner b) p h =
    deliver_push_other has_callback (render (nested inner b)) p refl

-- The field "time" of a message in memory is looked up inside the memory.
unfoldable pub push_time : Bytes → Extraction
push_time p = simple_json_processor (some p) (some (codes "time")) true 40

pub push_time-InBounds :
    (b : Body) (behind : Bytes) → IsBody b → InBounds (push_time (render b ++ 0 ∷ behind))
unfolding push_time
push_time-InBounds b behind h = rw append_assoc (
    simple_json_processor-InBounds (b'{' ∷ render_body b) (codes "time") true 40 behind
      (omega arith, body-IsText b h) (omega arith))

-- What a call has done that has received the end of the message `b` and the bytes `rest`.
pub record Tells (socket : ℤ) (has_callback : Bool) (b : Body) (rest : Bytes) (o : PushOutcome)
    : Type 0 where
  pub client : PushClient
  pub events : List PushEvent
  -- The call returns, with 1 exactly when bytes are left.
  pub outcome : o ≡ done client events (ltb 0 (length rest))
  -- The callback has been told the message.
  pub calls : messages events ≡ told has_callback b
  -- The buffer holds the rest.
  pub used : client.buffer.used ≡ pos (length rest)
  pub kept : take (length rest) client.buffer.bytes ≡ rest
  pub size : length client.buffer.bytes ≡ push_buffer_size
  -- The service goes on.
  pub handle : client.socket_handle ≡ socket
  pub callback : client.has_callback ≡ has_callback

-- Noting the time touches neither the buffer, the socket nor the callback.
pub record Noted (c : PushClient) (o : Option (PushClient × List PushEvent)) : Type 0 where
  client : PushClient
  events : List PushEvent
  outcome : o ≡ some (client, events)
  buffer : client.buffer ≡ c.buffer
  callback : client.has_callback ≡ c.has_callback
  handle : client.socket_handle ≡ c.socket_handle
  calls : messages events ≡ []

noted : (c : PushClient) → Noted c (some (c, []))
noted c = record {
  client = c;
  events = [];
  outcome = refl;
  buffer = refl;
  callback = refl;
  handle = refl;
  calls = refl;
}

keeps_service :
    (c : PushClient) (time : Bytes) (events : List PushEvent)
    → messages events ≡ []
    → Noted c (some (record c { last_push_time = time }, events))
keeps_service c time events h = record {
  client = record c { last_push_time = time };
  events = events;
  outcome = refl;
  buffer = refl;
  callback = refl;
  handle = refl;
  calls = h;
}

pub note_push_time-Noted :
    (c : PushClient) (e : Extraction) → InBounds e → Noted c (note_push_time c e)
unfolding note_push_time
note_push_time-Noted c Extraction.overrun h = absurd (h refl)
note_push_time-Noted c (copied time true) h = keeps_service c time (saved_state ∷ []) refl
note_push_time-Noted c (copied time false) h = keeps_service c time [] refl
note_push_time-Noted c missing h = noted c
note_push_time-Noted c present h = noted c

-- The end of a call, on a memory that holds a text, a NUL and the rest.
module _ (c : PushClient) (b : Body) (msg rest behind : Bytes)
    {o : Option (PushClient × List PushEvent)} (n : Noted c o)
    (used : c.buffer.used ≡ pos (length msg + 1 + length rest)) where
  unfoldable pub with_nul : Bytes
  with_nul = msg ++ 0 ∷ (rest ++ behind)

  left : Buffer
  left = consume (length msg) (record n.client.buffer { bytes = with_nul })

  used_lem : n.client.buffer.used ≡ pos (length msg + 1 + length rest)
  used_lem = ap (λ (x : Buffer). x.used) n.buffer ∙ used

  left_lem : (left.used ≡ pos (length rest)) × (take (length rest) left.bytes ≡ rest)
  unfolding left with_nul
  left_lem =
      subst
        (λ (u : ℤ).
          let b' = consume (length msg) (record { bytes = with_nul; used = u }) in
          (b'.used ≡ pos (length rest)) × (take (length rest) b'.bytes ≡ rest))
        (sym used_lem) (consume_lem msg rest behind)

  length-left : length with_nul ≡ push_buffer_size → length left.bytes ≡ push_buffer_size
  unfolding left with_nul
  length-left h =
      let h' : length (msg ++ 0 ∷ (rest ++ behind)) ≡ push_buffer_size = h in
      length-consume push_buffer_size (length msg) _ (length msg + 1 + length rest) used_lem h
        (omega (arith, length-append msg (0 ∷ (rest ++ behind)), length-append rest behind))

  pub finish_push-Tells :
      messages (deliver_push c.has_callback (length msg) with_nul) ≡ told c.has_callback b
      → length with_nul ≡ push_buffer_size
      → Tells c.socket_handle c.has_callback b rest (finish_push 0 (length msg) with_nul o)
  unfolding finish_push left
  finish_push-Tells h size =
      let delivered = deliver_push n.client.has_callback (length msg) with_nul in
      record {
        client = record n.client { buffer = left };
        events = n.events ++ delivered;
        outcome =
            ap (finish_push 0 (length msg) with_nul) n.outcome
            ∙ ap
                (λ u. done (record n.client { buffer = left }) (n.events ++ delivered) (has_more u))
                left_lem.0;
        calls = messages-append n.events delivered ∙ rw (n.calls, n.callback) h;
        used = left_lem.0;
        kept = left_lem.1;
        size = length-left size;
        handle = n.handle;
        callback = n.callback;
      }
