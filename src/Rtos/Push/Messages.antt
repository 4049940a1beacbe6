-- ===== src/Rtos/Push/Messages.antt =====
-- A call of `parseProcessNextPushNotification` of rtos/push.c that receives the end of a message.
use parse_embedded_sdks.Base.{
  ℕ, suc, ◌+◌, ◌-◌, ◌<◌, ◌≡◌, refl, sym, ap, ap₂, subst, ◌∙◌, Bool, false, some, List, [], ◌∷◌,
  ◌++◌, append_assoc, Bytes, if◌then◌else◌, length, take, ne→==, ◌==◌, drop, length-append,
  length-take, ℤ, pos, lt→ltb, arith,
}
use parse_embedded_sdks.Json.Frame.{PushJson, message, nothing, get_push_json}
use parse_embedded_sdks.Json.Frame.Laws.{get_push_json_whole}
use parse_embedded_sdks.Json.Messages.{Body, render, IsBody}
use parse_embedded_sdks.Push.Buffer.{Buffer, write_at, is_partial, has_room, used_size}
use parse_embedded_sdks.Push.Buffer.Laws.{length-write_at, terminate_lem}
use parse_embedded_sdks.Cc3200.Socket.{Poll, fill, socket_read}
use parse_embedded_sdks.Cc3200.Socket.Laws.{socket_read_small}
use parse_embedded_sdks.Rtos.Push.{
  push_buffer_size, PushClient, continue_push, Receiving, ended, after_read, read_more,
  receive_push, done, take_push, after_receiving, is_positive, PushInput, process_next,
}
use parse_embedded_sdks.Rtos.Push.Finish.{
  push_time, push_time-InBounds, Tells, note_push_time-Noted, deliver_push_lem, with_nul,
  finish_push-Tells,
}

-- The memory behind a read and its NUL: the message, its separator, the rest and the NUL at the
-- front.
behind_read : Bytes → ℕ → Bytes → Bytes
behind_read bytes n d = 0 ∷ drop (n + length (d ++ 0 ∷ [])) bytes

read_memory :
    (bytes d msg : Bytes) (n sep : ℕ) (rest : Bytes)
    → take n bytes ++ d ≡ msg ++ sep ∷ rest
    → write_at bytes n (d ++ 0 ∷ []) ≡ msg ++ sep ∷ (rest ++ behind_read bytes n d)
unfolding behind_read
read_memory bytes d msg n sep rest h =
    let behind = 0 ∷ drop (n + length (d ++ 0 ∷ [])) bytes in
    ap (λ x. take n bytes ++ x) (append_assoc d (0 ∷ []) (drop (n + length (d ++ 0 ∷ [])) bytes))
    ∙ sym (append_assoc (take n bytes) d behind)
    ∙ ap (λ x. x ++ behind) h
    ∙ append_assoc msg (sep ∷ rest) behind

-- The buffer that a read of the end of a message leaves.
arrived : Body → ℕ → Bytes → Bytes → Buffer
arrived b sep rest behind = record {
  bytes = render b ++ sep ∷ (rest ++ behind);
  used = pos (length (render b) + 1 + length rest);
}

read_more-got :
    (h : ℕ) (polls : List Poll) (x : Buffer) (n : ℕ) (d : Bytes)
    → x.used ≡ pos n
    → n < 1024
    → fill (1023 - n) false [] polls ≡ (pos (length d), d)
    → read_more (pos h) polls x ≡ (pos (length d), write_at x.bytes n (d ++ 0 ∷ []))
unfolding socket_read
read_more-got h polls x n d used room got =
    let size : 1024 - n ≡ suc (1023 - n) = omega arith in
    ap (λ u. socket_read (pos h) polls x.bytes (used_size u) (1024 - used_size u)) used
    ∙ ap (socket_read (pos h) polls x.bytes n) size
    ∙ socket_read_small h polls x.bytes n (1023 - n) (omega arith)
    ∙ ap (λ r. (r.0, write_at x.bytes n (r.1 ++ 0 ∷ []))) got

receive_push-ended :
    (handle : ℤ) (reads : List (List Poll)) (b : Buffer) (m : PushJson)
    → is_partial m ≡ false
    → receive_push handle reads b m ≡ ended b m
unfolding receive_push
receive_push-ended handle [] b m h = rw h refl
receive_push-ended handle (polls ∷ reads) b m h = rw h refl

after_read-message :
    (x : Buffer) (m : PushJson) (n k len : ℕ) (memory : Bytes) (k' : Buffer → PushJson → Receiving)
    → 0 < k
    → x.used ≡ pos n
    → get_push_json memory (n + k) ≡ message 0 (some len)
    → after_read x m (pos k, memory) k'
      ≡ k' (record { bytes = memory; used = pos (n + k) }) (message 0 (some len))
after_read-message x m n k len memory k' h used whole =
    ap
      (λ t.
        if t
        then ended (record x { bytes = memory }) m
        else continue_push (get_push_json memory (used_size x.used + k))
            (k' (record { bytes = memory; used = pos (used_size x.used + k) })))
      (ne→== k 0 (omega arith))
    ∙ ap
        (λ u.
          continue_push (get_push_json memory (used_size u + k))
            (k' (record { bytes = memory; used = pos (used_size u + k) })))
        used
    ∙ ap (λ j. continue_push j (k' (record { bytes = memory; used = pos (n + k) }))) whole

receive_push-message :
    (h : ℕ) (polls : List Poll) (reads : List (List Poll)) (x : Buffer) (n : ℕ) (d : Bytes)
    (b : Body) (sep : ℕ) (rest : Bytes)
    → x.used ≡ pos n
    → 0 < length d
    → n + length d < 1024
    → length x.bytes ≡ 1024
    → IsBody b
    → take n x.bytes ++ d ≡ render b ++ sep ∷ rest
    → fill (1023 - n) false [] polls ≡ (pos (length d), d)
    → receive_push (pos h) (polls ∷ reads) x nothing
      ≡ ended (arrived b sep rest (behind_read x.bytes n d)) (message 0 (some (length (render b))))
unfolding receive_push arrived
receive_push-message h polls reads x n d b sep rest used some_read room size body text got =
    let behind = behind_read x.bytes n d in
    let memory = read_memory x.bytes d (render b) n sep rest text in
    let total : n + length d ≡ length (render b) + 1 + length rest = omega (
      arith,
      ap length text,
      length-append (take n x.bytes) d,
      length-take n x.bytes,
      length-append (render b) (sep ∷ rest),
    ) in
    let whole =
      get_push_json_whole (n + length d) [] b (sep ∷ (rest ++ behind)) tt body (omega arith) in
    ap₂ (λ t r. if t then r else ended x nothing)
      (ap (has_room 1024) used ∙ lt→ltb n 1024 (omega arith))
      (ap (λ r. after_read x nothing r (receive_push (pos h) reads))
          (read_more-got h polls x n d used (omega arith) got)
        ∙ after_read-message x nothing n (length d) (length (render b)) _
            (receive_push (pos h) reads) some_read used
            (ap (λ y. get_push_json y (n + length d)) memory ∙ whole)
        ∙ receive_push-ended (pos h) reads _ _ refl
        ∙ ap₂
            (λ y u.
              ended (record { bytes = y; used = pos u }) (message 0 (some (length (render b)))))
            memory total)

after_receiving-Tells :
    (due : Bool) (answer : ℤ) (c : PushClient) (b : Body) (sep : ℕ) (rest behind : Bytes)
    → IsBody b
    → length (render b ++ sep ∷ (rest ++ behind)) ≡ push_buffer_size
    → Tells c.socket_handle c.has_callback b rest (
        after_receiving due answer c
          (ended (arrived b sep rest behind) (message 0 (some (length (render b))))))
unfolding after_receiving take_push arrived with_nul push_time
after_receiving-Tells due answer c b sep rest behind body size =
    let nonempty : (length (render b) == 0) ≡ false = ne→== (length (render b)) 0 (omega arith) in
    rw
      (
        nonempty,
        terminate_lem push_buffer_size (render b) sep (rest ++ behind)
            (omega (arith, length-append (render b) (sep ∷ (rest ++ behind)))),
      )
      (let c' = record c { buffer = arrived b sep rest behind } in
        let n =
          note_push_time-Noted c' (push_time (render b ++ 0 ∷ (rest ++ behind)))
            (push_time-InBounds b (rest ++ behind) body) in
        finish_push-Tells c' b (render b) rest behind n refl
          (deliver_push_lem c.has_callback b (0 ∷ (rest ++ behind)) body)
          (omega (
            arith,
            size,
            length-append (render b) (sep ∷ (rest ++ behind)),
            length-append (render b) (0 ∷ (rest ++ behind)),
          )))

-- Let the socket's handle be positive, let `n` bytes of the buffer be used, let what the board
-- answers make `socketRead` take the bytes `d`, of which there are some and which leave a byte
-- free, and let those bytes make up a whole message, one byte behind it and a rest. Then the call
-- returns. It has told the callback, if there is one, exactly the text of the message, or nothing
-- if that is `{}`; it leaves exactly the rest in the buffer, returns 1 exactly when the rest is not
-- empty, and leaves the socket open.
pub process_next-Tells :
    (i : PushInput) (polls : List Poll) (reads : List (List Poll)) (c : PushClient) (h n : ℕ)
    (d : Bytes) (b : Body) (sep : ℕ) (rest : Bytes)
    → c.socket_handle ≡ pos h
    → 0 < h
    → i.reads ≡ polls ∷ reads
    → c.buffer.used ≡ pos n
    → length c.buffer.bytes ≡ 1024
    → fill (1023 - n) false [] polls ≡ (pos (length d), d)
    → 0 < length d
    → n + length d < 1024
    → IsBody b
    → take n c.buffer.bytes ++ d ≡ render b ++ sep ∷ rest
    → Tells c.socket_handle c.has_callback b rest (process_next i c)
unfolding process_next
process_next-Tells i polls reads c h n d b sep rest handle positive inputs used size got some_read
      room body text =
    let received =
      receive_push-message h polls reads c.buffer n d b sep rest used some_read room size body text
        got in
    let length_d : length (d ++ 0 ∷ []) ≡ length d + 1 = omega (arith, length-append d (0 ∷ [])) in
    subst (Tells c.socket_handle c.has_callback b rest)
      (sym (
        ap
          (λ u.
            if is_positive u
            then after_receiving i.ping_due i.ping_answer c
                (receive_push u i.reads c.buffer nothing)
            else done c [] false)
          handle
        ∙ ap
            (λ t.
              if t
              then after_receiving i.ping_due i.ping_answer c
                  (receive_push (pos h) i.reads c.buffer nothing)
              else done c [] false)
            (lt→ltb 0 h positive)
        ∙ ap
            (λ r.
              after_receiving i.ping_due i.ping_answer c (receive_push (pos h) r c.buffer nothing))
            inputs
        ∙ ap (after_receiving i.ping_due i.ping_answer c) received))
      (after_receiving-Tells i.ping_due i.ping_answer c b sep rest (behind_read c.buffer.bytes n d)
        body
        (ap length (sym (read_memory c.buffer.bytes d (render b) n sep rest text))
          ∙ length-write_at c.buffer.bytes (d ++ 0 ∷ []) n (omega (arith, length_d))
          ∙ size))
