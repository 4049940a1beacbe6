-- ===== src/Rtos/Push/Ping.antt =====
-- The ping of the RTOS client's push service, by the clock of the CC3200 board.
use parse_embedded_sdks.Base.{
  ◌<◌, ◌≡◌, refl, sym, ap, ◌∙◌, Bool, true, false, Bool-cases, inl, inr, Option, none, some, List,
  append-nil, Bytes, [], ◌∷◌, ◌++◌, codes, ℤ, pos, negsuc, ltb,
}
use parse_embedded_sdks.Cc3200.Clock.{DateTime, is_ping_time}
use parse_embedded_sdks.Cc3200.Clock.Laws.{is_ping_time_lem}
use parse_embedded_sdks.Cc3200.Socket.{socket_write}
use parse_embedded_sdks.Rtos.Push.{
  PushClient, PushEvent, messages, call_push_back, sends, after_ping, send_ping,
}

-- The messages of events one behind another.
pub messages-append : (xs ys : List PushEvent) → messages (xs ++ ys) ≡ messages xs ++ messages ys
messages-append [] ys = refl
messages-append (PushEvent.called_back e none ∷ xs) ys = messages-append xs ys
messages-append (PushEvent.called_back e (some t) ∷ xs) ys = ap (◌∷◌ t) (messages-append xs ys)
messages-append (PushEvent.connected _ ∷ xs) ys = messages-append xs ys
messages-append (PushEvent.sent _ ∷ xs) ys = messages-append xs ys
messages-append (PushEvent.closed _ ∷ xs) ys = messages-append xs ys
messages-append (PushEvent.saved_state ∷ xs) ys = messages-append xs ys
messages-append (PushEvent.ping_noted ∷ xs) ys = messages-append xs ys

messages-failure :
    (has_callback : Bool) (e : ℤ) (h : ℤ)
    → messages (call_push_back has_callback e none ++ PushEvent.closed h ∷ []) ≡ []
messages-failure true e h = refl
messages-failure false e h = refl

messages-sends :
    (sending : Option Bytes) (events : List PushEvent)
    → messages (sends sending ++ events) ≡ messages events
messages-sends none events = refl
messages-sends (some t) events = refl

after_ping_lem :
    (c : PushClient) (r : ℤ × Option Bytes)
    → (messages (after_ping c r).1 ≡ []) × ((after_ping c r).0.buffer ≡ c.buffer)
after_ping_lem c (pos n, sending) = (messages-sends sending (PushEvent.ping_noted ∷ []), refl)
after_ping_lem c (negsuc n, sending) = elim (Bool-cases (ltb 20 c.failed_pings)) [
  | inl e ↦ rw e (
    messages-sends sending
          (call_push_back c.has_callback (negsuc 0) none ++ PushEvent.closed c.socket_handle ∷ [])
        ∙ messages-failure c.has_callback (negsuc 0) c.socket_handle,
    refl,
  )
  | inr e ↦ rw e (ap messages (sym (append-nil (sends sending))) ∙ messages-sends sending [], refl)
]

-- A ping delivers no message and leaves the buffer as it is.
pub send_ping_lem :
    (due : Bool) (answer : ℤ) (c : PushClient)
    → let r = send_ping due answer c in (messages r.1 ≡ []) × (r.0.buffer ≡ c.buffer)
unfolding send_ping
send_ping_lem false answer c = (refl, refl)
send_ping_lem true answer c =
    after_ping_lem c (socket_write c.socket_handle answer (codes "{}\r\n"))

-- By the clock of the CC3200 board the service never sends a ping: whatever the dates of now and of
-- the last ping are, with seconds below 60, `sendPing` does nothing.
pub send_ping-is_ping_time :
    (now last : DateTime) (answer : ℤ) (c : PushClient)
    → now.seconds < 60
    → last.seconds < 60
    → send_ping (is_ping_time now last) answer c ≡ (c, [])
unfolding send_ping
send_ping-is_ping_time now last answer c h k = rw (is_ping_time_lem now last h k)
