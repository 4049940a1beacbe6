-- ===== src/Rtos/Push/Handshake.antt =====
-- The handshake of the RTOS client's push service as a message of its own.
use parse_embedded_sdks.Base.{
  ℕ, ◌+◌, ◌≤◌, ◌≡◌, ◌≢◌, refl, ap, ap₂, ◌∙◌, true, false, some, List, [], ◌∷◌, ◌++◌, append_assoc,
  Bytes, codes, All, length, length-append, take_all, ◌==◌, if◌then◌else◌, ne→==, arith,
}
use parse_embedded_sdks.Json.Frame.{message, get_push_json, is_complete_json}
use parse_embedded_sdks.Json.Frame.Laws.{get_push_json_whole, is_complete_json_message}
use parse_embedded_sdks.Json.Messages.{
  Item, char, Body, empty, plain, quoted, render, render_items, AreItems, IsPlain, IsBody,
}
use parse_embedded_sdks.Rtos.Push.{PushClient}
use parse_embedded_sdks.Rtos.Push.Start.{is_set, handshake}

-- A byte that stands for itself in a string.
abbrev pub IsChar : ℕ → Type 0
IsChar c = (c ≢ 0) × (c ≢ b'"') × (c ≢ b'\\')

chars : Bytes → List Item
chars [] = []
chars (c ∷ s) = char c ∷ chars s

render_items-chars : (s : Bytes) → render_items (chars s) ≡ s
unfolding chars
render_items-chars [] = refl
render_items-chars (c ∷ s) = ap (◌∷◌ c) (render_items-chars s)

chars-AreItems : (s : Bytes) → All IsChar s → AreItems (chars s)
unfolding chars
chars-AreItems [] h = tt
chars-AreItems (c ∷ s) h = (h.0.0, h.0.1, h.0.2, chars-AreItems s h.1)

-- Bytes outside of strings.
plains : Bytes → Body → Body
plains [] b = b
plains (c ∷ s) b = plain c (plains s b)

time_body : Bytes → Body
unfolding plains chars
time_body [] = plains (codes "null") empty
time_body (c ∷ s) = quoted (chars (c ∷ s)) empty

handshake_body : (id app time : Bytes) → Body
unfolding plains chars time_body
handshake_body id app time = quoted (chars (codes "installation_id")) (
    plains (codes ":") (
      quoted (chars id) (
        plains (codes ", ") (
          quoted (chars (codes "oauth_key")) (
            plains (codes ":") (
              quoted (chars app) (
                plains (codes ", ") (
                  quoted (chars (codes "v")) (
                    plains (codes ": ") (
                      quoted (chars (codes "e1.0.0")) (
                        plains (codes ", ") (
                          quoted (chars (codes "last"))
                            (plains (codes ": ") (time_body time))))))))))))))

ending : Bytes → Bytes
ending time =
    let quote = if is_set time then codes "\"" else [] in
    quote ++ ((if is_set time then time else codes "null") ++ (quote ++ codes "}\r\n"))

-- The text without the bytes of `take`.
full_text : (id app time : Bytes) → Bytes
full_text id app time =
    codes "{\"installation_id\":\""
    ++ (id
        ++ (codes "\", \"oauth_key\":\""
            ++ (app ++ (codes "\", \"v\": \"e1.0.0\", \"last\": " ++ ending time))))

full_text-render :
    (id app time : Bytes)
    → full_text id app time ≡ render (handshake_body id app time) ++ codes "\r\n"
unfolding full_text ending handshake_body plains chars time_body
full_text-render id app [] = rw (render_items-chars id, render_items-chars app) (simp append_assoc)
full_text-render id app (c ∷ time) =
    let given : (length (c ∷ time) == 0) ≡ false = ne→== (length (c ∷ time)) 0 (omega arith) in
    rw (given, render_items-chars id, render_items-chars app, render_items-chars time)
      (simp append_assoc)

time_body-IsBody : (time : Bytes) → All IsChar time → IsBody (time_body time)
unfolding time_body plains
time_body-IsBody [] h = ground arith
time_body-IsBody (c ∷ s) h = (chars-AreItems (c ∷ s) h, tt)

plains-IsBody : (s : Bytes) (b : Body) → All IsPlain s → IsBody b → IsBody (plains s b)
unfolding plains
plains-IsBody [] b h k = k
plains-IsBody (c ∷ s) b h k = (h.0, plains-IsBody s b h.1 k)

quoted-IsBody : (s : Bytes) (b : Body) → All IsChar s → IsBody b → IsBody (quoted (chars s) b)
quoted-IsBody s b h k = (chars-AreItems s h, k)

handshake_body-IsBody :
    (id app time : Bytes)
    → All IsChar id
    → All IsChar app
    → All IsChar time
    → IsBody (handshake_body id app time)
unfolding handshake_body
handshake_body-IsBody id app time h k t =
    let b0 = time_body time in
    let h0 = time_body-IsBody time t in
    let b1 = plains (codes ": ") b0 in
    let h1 = plains-IsBody (codes ": ") b0 (ground arith) h0 in
    let b2 = quoted (chars (codes "last")) b1 in
    let h2 = quoted-IsBody (codes "last") b1 (ground arith) h1 in
    let b3 = plains (codes ", ") b2 in
    let h3 = plains-IsBody (codes ", ") b2 (ground arith) h2 in
    let b4 = quoted (chars (codes "e1.0.0")) b3 in
    let h4 = quoted-IsBody (codes "e1.0.0") b3 (ground arith) h3 in
    let b5 = plains (codes ": ") b4 in
    let h5 = plains-IsBody (codes ": ") b4 (ground arith) h4 in
    let b6 = quoted (chars (codes "v")) b5 in
    let h6 = quoted-IsBody (codes "v") b5 (ground arith) h5 in
    let b7 = plains (codes ", ") b6 in
    let h7 = plains-IsBody (codes ", ") b6 (ground arith) h6 in
    let b8 = quoted (chars app) b7 in
    let h8 = quoted-IsBody app b7 k h7 in
    let b9 = plains (codes ":") b8 in
    let h9 = plains-IsBody (codes ":") b8 (ground arith) h8 in
    let b10 = quoted (chars (codes "oauth_key")) b9 in
    let h10 = quoted-IsBody (codes "oauth_key") b9 (ground arith) h9 in
    let b11 = plains (codes ", ") b10 in
    let h11 = plains-IsBody (codes ", ") b10 (ground arith) h10 in
    let b12 = quoted (chars id) b11 in
    let h12 = quoted-IsBody id b11 h h11 in
    let b13 = plains (codes ":") b12 in
    let h13 = plains-IsBody (codes ":") b12 (ground arith) h12 in
    quoted-IsBody (codes "installation_id") b13 (ground arith) h13

length-ending : (time : Bytes) → length (ending time) ≤ length time + 9
unfolding ending
length-ending [] = omega arith
length-ending (c ∷ time) =
    let given : (length (c ∷ time) == 0) ≡ false = ne→== (length (c ∷ time)) 0 (omega arith) in
    rw given (omega (arith, length-append time (codes "\"}\r\n")))

length-full_text :
    (id app time : Bytes)
    → length id ≤ 36
    → length app ≤ 40
    → length time ≤ 40
    → length (full_text id app time) ≤ 1022
unfolding full_text
length-full_text id app time h k t =
    let tail = ending time in
    omega (
      arith,
      length-append id (
          codes "\", \"oauth_key\":\""
          ++ (app ++ (codes "\", \"v\": \"e1.0.0\", \"last\": " ++ tail))),
      length-append app (codes "\", \"v\": \"e1.0.0\", \"last\": " ++ tail),
      length-ending time,
    )

-- Where the installation's id, the application's id and the time of the last push fit their arrays
-- and have no NUL, quote or backslash, the handshake is one whole message and a line's end. It is
-- not cut, the SDK's own test finds it complete, and the scan of a push service finds exactly the
-- message.
pub handshake-message :
    (c : PushClient) (p : Bytes)
    → All IsChar c.device.client.installation_id
    → All IsChar c.device.client.application_id
    → All IsChar c.last_push_time
    → length c.device.client.installation_id ≤ 36
    → length c.device.client.application_id ≤ 40
    → length c.last_push_time ≤ 40
    → (b : Body) × (handshake c ≡ render b ++ codes "\r\n")
      × IsBody b
      × (is_complete_json (handshake c ++ 0 ∷ p) ≡ some true)
      × (get_push_json (handshake c ++ 0 ∷ p) (length (handshake c))
          ≡ message 0 (some (length (render b))))
unfolding full_text ending
handshake-message c p h k t hl kl tl =
    let id = c.device.client.installation_id in
    let app = c.device.client.application_id in
    let time = c.last_push_time in
    let b = handshake_body id app time in
    let body = handshake_body-IsBody id app time h k t in
    let text : handshake c ≡ render b ++ codes "\r\n" =
      take_all 1022 (full_text id app time) (length-full_text id app time hl kl tl)
      ∙ full_text-render id app time in
    let size : length (handshake c) ≡ length (render b) + 2 =
      ap length text ∙ length-append (render b) (codes "\r\n") in
    let memory : handshake c ++ 0 ∷ p ≡ render b ++ (codes "\r\n" ++ 0 ∷ p) =
      ap (λ x. x ++ 0 ∷ p) text ∙ append_assoc (render b) (codes "\r\n") (0 ∷ p) in
    (
      b,
      text,
      body,
      ap is_complete_json memory
          ∙ is_complete_json_message [] b (codes "\r\n") p tt body (ground arith),
      ap₂ get_push_json memory size
          ∙ get_push_json_whole (length (render b) + 2) [] b (codes "\r\n" ++ 0 ∷ p) tt body
              (omega arith),
    )
