-- ===== src/Cc3200/Socket/Connect.antt =====
-- The outcomes of `socketSslConnect`.
use parse_embedded_sdks.Base.{
  ◌≡◌, refl, List, [], ◌∷◌, ◌⊎◌, inl, inr, ℤ, pos, negsuc, true, false, is_negative,
}
use parse_embedded_sdks.Cc3200.Socket.{
  SocketCall, close_socket, Connecting, run_calls, socket_ssl_connect,
}

-- The handles that calls have closed.
abbrev pub closed_handles : List SocketCall → List ℤ
closed_handles [] = []
closed_handles (close_socket h ∷ calls) = h ∷ closed_handles calls
closed_handles (_ ∷ calls) = closed_handles calls

-- The handle of the socket that is created: none, -1, where the lookup of the host or the creation
-- has failed.
abbrev pub created_socket : ℤ → ℤ → ℤ
created_socket (negsuc n) socket = negsuc 0
created_socket (pos l) (negsuc n) = negsuc 0
created_socket (pos l) (pos n) = pos n

-- Every call answers without a failure.
abbrev pub Succeeds : Connecting → Type 0
Succeeds a =
    (is_negative a.lookup ≡ false)
    × (is_negative a.socket ≡ false)
    × (is_negative a.method ≡ false)
    × (is_negative a.certificate ≡ false)
    × (is_negative a.connected ≡ false)
    × (is_negative a.waited ≡ false)
    × (is_negative a.nonblocking ≡ false)
    × (is_negative a.keep_alive ≡ false)

-- The first negative one of some answers; 0 where there is none.
abbrev pub first_failure : List ℤ → ℤ
first_failure [] = pos 0
first_failure (negsuc n ∷ answers) = negsuc n
first_failure (pos n ∷ answers) = first_failure answers

abbrev pub answers_of : Connecting → List ℤ
answers_of a =
    a.lookup ∷ a.socket ∷ a.method ∷ a.certificate ∷ a.connected ∷ a.waited ∷ a.nonblocking
    ∷ a.keep_alive ∷ []

-- Every answer is a success, the result is the handle of the socket, and no handle is closed; or the
-- result is the first negative answer, and the only handle closed is the socket's, or -1 where there
-- is no socket.
abbrev pub OpenOrClosed : Connecting → ℤ × List SocketCall → Type 0
OpenOrClosed a (status, calls) =
    (Succeeds a
      × (status ≡ created_socket a.lookup a.socket)
      × (is_negative status ≡ false)
      × (closed_handles calls ≡ []))
    ⊎ ((is_negative status ≡ true)
        × (status ≡ first_failure (answers_of a))
        × (closed_handles calls ≡ created_socket a.lookup a.socket ∷ []))

by_answers :
    (lookup socket method certificate connected waited nonblocking keep_alive : ℤ)
    → let a : Connecting = record {
      lookup = lookup;
      socket = socket;
      method = method;
      certificate = certificate;
      connected = connected;
      waited = waited;
      nonblocking = nonblocking;
      keep_alive = keep_alive;
    } in
      OpenOrClosed a (socket_ssl_connect a)
unfolding socket_ssl_connect run_calls
by_answers (negsuc n) s m c x w b k = inr (refl, refl, refl)
by_answers (pos l) (negsuc n) m c x w b k = inr (refl, refl, refl)
by_answers (pos l) (pos s) (negsuc n) c x w b k = inr (refl, refl, refl)
by_answers (pos l) (pos s) (pos m) (negsuc n) x w b k = inr (refl, refl, refl)
by_answers (pos l) (pos s) (pos m) (pos c) (negsuc n) w b k = inr (refl, refl, refl)
by_answers (pos l) (pos s) (pos m) (pos c) (pos x) (negsuc n) b k = inr (refl, refl, refl)
by_answers (pos l) (pos s) (pos m) (pos c) (pos x) (pos w) (negsuc n) k = inr (refl, refl, refl)
by_answers (pos l) (pos s) (pos m) (pos c) (pos x) (pos w) (pos b) (negsuc n) =
    inr (refl, refl, refl)
by_answers (pos l) (pos s) (pos m) (pos c) (pos x) (pos w) (pos b) (pos k) =
    inl ((refl, refl, refl, refl, refl, refl, refl, refl), refl, refl, refl)

-- Whatever the board answers, either no answer is negative, and `socketSslConnect` gives the handle
-- of the socket that it has created and has closed none; or it gives the first negative answer and has
-- closed exactly one handle: the created socket's, or -1 where none was created.
pub socket_ssl_connect-OpenOrClosed : (a : Connecting) → OpenOrClosed a (socket_ssl_connect a)
socket_ssl_connect-OpenOrClosed a =
    by_answers a.lookup a.socket a.method a.certificate a.connected a.waited a.nonblocking
      a.keep_alive
