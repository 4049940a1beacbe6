-- ===== src/Rtos/Request/Laws.antt =====
-- The request that `buildRequestHeaders` leaves in the buffer.
use parse_embedded_sdks.Base.{
  ℕ, zero, suc, ◌+◌, ◌-◌, ◌≤◌, ◌<◌, ◌≡◌, refl, sym, ap, ap₂, subst, ◌∙◌, Bool, true, false, not,
  ◌&&◌, none, some, List, [], ◌∷◌, ◌++◌, append_assoc, append-nil, Bytes, codes, length,
  length-append, length-replicate, length-take, take, take_all, take-append, drop, replicate, leb,
  ◌==◌, ne→==, if◌then◌else◌, pos, ◌-ℤ◌, sub_ℕ-le, arith,
}
use parse_embedded_sdks.Push.Buffer.{write_at}
use parse_embedded_sdks.Push.Buffer.Laws.{length-write_at}
use parse_embedded_sdks.Rtos.Request.{
  buffer_size, Building, built, put, printed, stored, fault, unless_cut, print, add_line, add_lines,
  Client, head_lines, terminated, is_get_request, build_request, build_request_headers,
}

-- The buffer holds a text from its start on, and the position and the size are behind it.
record IsBuilt (t : Bytes) (b : Building) : Type 0 where
  memory : Bytes
  state : b ≡ built memory (length t) (pos (1023 - length t))
  size : length memory ≡ 1024
  text : take (length t) memory ≡ t

leb-true : (a b : ℕ) → a ≤ b → leb a b ≡ true
leb-true a b h = ground arith

leb-false : (a b : ℕ) → b < a → leb a b ≡ false
leb-false a b h = ground arith

printed_whole : (n : ℕ) (text : Bytes) → length text < n → printed (pos n) text ≡ text ++ 0 ∷ []
printed_whole zero text h = absurd (omega arith)
printed_whole (suc n) text h = ap (λ s. s ++ 0 ∷ []) (take_all n text (omega arith))

-- What `put` leaves of a text with its NUL behind another text.
written : Bytes → Bytes → Bytes → Bytes
written t text memory = write_at memory (length t) (text ++ 0 ∷ [])

put_text :
    (t text memory : Bytes)
    → length t + length text ≤ 1022
    → put memory (length t) (text ++ 0 ∷ []) ≡ some (written t text memory)
unfolding written
put_text t text memory h =
    rw
      (leb-true (length t + length (text ++ 0 ∷ [])) 1024
        (omega (arith, length-append text (0 ∷ []))))
      refl

written-text :
    (t text memory : Bytes)
    → take (length t) memory ≡ t
    → take (length (t ++ text)) (written t text memory) ≡ t ++ text
unfolding written
written-text t text memory h =
    let rest = drop (length t + length (text ++ 0 ∷ [])) memory in
    ap (take (length (t ++ text))) (
      ap (λ s. s ++ ((text ++ 0 ∷ []) ++ rest)) h
      ∙ ap (λ s. t ++ s) (append_assoc text (0 ∷ []) rest)
      ∙ sym (append_assoc t text (0 ∷ rest)))
    ∙ take-append (t ++ text) (0 ∷ rest)

length-written :
    (t text memory : Bytes)
    → length memory ≡ 1024
    → length t + length text ≤ 1022
    → length (written t text memory) ≡ 1024
unfolding written
length-written t text memory h k =
    length-write_at memory (text ++ 0 ∷ []) (length t) (omega (arith, length-append text (0 ∷ [])))
    ∙ h

moved_by :
    (t text w : Bytes)
    → built w (length t + length text) (pos (1023 - length t - length text))
      ≡ built w (length (t ++ text)) (pos (1023 - length (t ++ text)))
moved_by t text w =
    let p : length t + length text ≡ length (t ++ text) = omega (arith, length-append t text) in
    let s : 1023 - length t - length text ≡ 1023 - length (t ++ text) =
      omega (arith, length-append t text) in
    ap₂ (λ position size. built w position (pos size)) p s

print-IsBuilt :
    (t text : Bytes) (b : Building)
    → IsBuilt t b
    → length t + length text ≤ 1022
    → IsBuilt (t ++ text) (print text b)
unfolding print
print-IsBuilt t text b h k = record {
  memory = written t text h.memory;
  state =
      rw
        (
          h.state,
          printed_whole (1023 - length t) text (omega arith),
          put_text t text h.memory k,
          sub_ℕ-le (1023 - length t) (length text) (omega arith),
        )
        (moved_by t text (written t text h.memory));
  size = length-written t text h.memory h.size k;
  text = written-text t text h.memory h.text;
}

add_line-print :
    (t : Bytes) (c : ℕ) (text : Bytes) (b : Building)
    → IsBuilt t b
    → length t + length (c ∷ text) ≤ 1022
    → add_line (c ∷ text) b ≡ print (c ∷ text) b
unfolding add_line
add_line-print t c text b h k =
    let line = c ∷ text in
    rw h.state (
      ap (λ q. unless_cut q (print line (built h.memory (length t) (pos (1023 - length t)))))
        (leb-false (1023 - length t) (length line) (omega arith)))

add_line-IsBuilt :
    (t text : Bytes) (b : Building)
    → IsBuilt t b
    → length t + length text ≤ 1022
    → IsBuilt (t ++ text) (add_line text b)
unfolding add_line
add_line-IsBuilt t [] b h k = subst (λ s. IsBuilt s b) (sym (append-nil t)) h
add_line-IsBuilt t (c ∷ text) b h k =
    subst (IsBuilt (t ++ (c ∷ text))) (sym (add_line-print t c text b h k))
      (print-IsBuilt t (c ∷ text) b h k)

-- The lines one behind the other.
abbrev pub joined : List Bytes → Bytes
joined [] = []
joined (l ∷ lines) = l ++ joined lines

add_lines-IsBuilt :
    (lines : List Bytes) (t : Bytes) (b : Building)
    → IsBuilt t b
    → length t + length (joined lines) ≤ 1022
    → IsBuilt (t ++ joined lines) (add_lines lines b)
add_lines-IsBuilt [] t b h k = subst (λ s. IsBuilt s b) (sym (append-nil t)) h
add_lines-IsBuilt (l ∷ lines) t b h k =
    let fits : length t + (length l + length (joined lines)) ≤ 1022 =
      omega (arith, length-append l (joined lines)) in
    subst (λ s. IsBuilt s (add_lines lines (add_line l b))) (append_assoc t l (joined lines))
      (add_lines-IsBuilt lines (t ++ l) (add_line l b) (add_line-IsBuilt t l b h (omega arith))
        (omega (arith, length-append t l)))

-- The buffer holds a text and the NUL behind it, and the position that is returned is its length.
pub record IsRequest (t : Bytes) (b : Building) : Type 0 where
  pub memory : Bytes
  pub state : b ≡ built memory (length t) (pos (1023 - length t))
  pub size : length memory ≡ 1024
  pub text : take (length t + 1) memory ≡ t ++ 0 ∷ []

written-nul :
    (t memory : Bytes)
    → take (length t) memory ≡ t
    → take (length t + 1) (written t [] memory) ≡ t ++ 0 ∷ []
unfolding written
written-nul t memory h =
    let rest = drop (length t + 1) memory in
    let n : length t + 1 ≡ length (t ++ 0 ∷ []) = omega (arith, length-append t (0 ∷ [])) in
    ap₂ take n (ap (λ s. s ++ (0 ∷ rest)) h ∙ sym (append_assoc t (0 ∷ []) rest))
    ∙ take-append (t ++ 0 ∷ []) rest

terminated-IsRequest :
    (t : Bytes) (b : Building) → IsBuilt t b → length t ≤ 1022 → IsRequest t (terminated b)
unfolding written
terminated-IsRequest t b h k = record {
  memory = written t [] h.memory;
  state =
      ap terminated h.state
      ∙ ap (stored (length t) (pos (1023 - length t))) (put_text t [] h.memory (omega arith));
  size = length-written t [] h.memory h.size (omega arith);
  text = written-nul t h.memory h.text;
}

-- The text of a request.
abbrev pub request_text : Client → Bool → Bool → (host verb body : Bytes) → Bytes
request_text c is_get add_installation host verb body =
    let has_body = not is_get && not (length body == 0) in
    (joined (head_lines c is_get add_installation has_body host verb body) ++ codes "\r\n")
    ++ (if has_body then body else [])

start-IsBuilt : IsBuilt [] (built (replicate buffer_size 0) 0 (pos (buffer_size - 1)))
start-IsBuilt = record {
  memory = replicate 1024 0;
  state = refl;
  size = length-replicate {A = ℕ} 1024 0;
  text = refl;
}

with_body :
    (t body : Bytes) (has_body : Bool) (b : Building)
    → IsBuilt t b
    → length (t ++ (if has_body then body else [])) ≤ 1022
    → IsBuilt (t ++ (if has_body then body else [])) (if has_body then print body b else b)
with_body t body true b h k = print-IsBuilt t body b h (omega (arith, length-append t body))
with_body t body false b h k = subst (λ s. IsBuilt s b) (sym (append-nil t)) h

build_request-IsRequest :
    (c : Client) (is_get add_installation : Bool) (host verb body : Bytes)
    → length (request_text c is_get add_installation host verb body) ≤ 1022
    → IsRequest
        (request_text c is_get add_installation host verb body)
        (build_request c is_get add_installation host verb body)
unfolding build_request
build_request-IsRequest c is_get add_installation host verb body h =
    let has_body = not is_get && not (length body == 0) in
    let lines = head_lines c is_get add_installation has_body host verb body in
    let head = joined lines in
    let end = if has_body then body else [] in
    let fits : length head + 2 + length end ≤ 1022 =
      omega (arith, length-append (head ++ codes "\r\n") end, length-append head (codes "\r\n")) in
    let b = add_lines lines (built (replicate buffer_size 0) 0 (pos (buffer_size - 1))) in
    terminated-IsRequest (request_text c is_get add_installation host verb body) _
      (with_body (head ++ codes "\r\n") body has_body (print (codes "\r\n") b)
        (print-IsBuilt head (codes "\r\n") b
          (add_lines-IsBuilt lines [] _ start-IsBuilt (omega arith)) (omega arith))
        h)
      h

length-printed : (n : ℕ) (text : Bytes) → length (printed (pos n) text) ≤ n
length-printed zero text = omega arith
length-printed (suc n) text =
    omega (arith, length-append (take n text) (0 ∷ []), length-take n text)

-- A body that goes past the array: the array is left as it is, and the NUL is written behind it.
long_body :
    (t body : Bytes) (b : Building)
    → IsBuilt t b
    → length t ≤ 1022
    → 1024 ≤ length t + length body
    → terminated (print body b) ≡ fault
unfolding print
long_body t body b h k l =
    let size = 1023 - length t in
    let d = printed (pos size) body in
    let position = length t + length body in
    ap (λ b. terminated (print body b)) h.state
    ∙ ap
        (λ q. terminated (
          stored position (pos size -ℤ length body)
            (if q then some (write_at h.memory (length t) d) else none)))
        (leb-true (length t + length d) 1024 (omega (arith, length-printed size body)))
    ∙ ap
        (λ q.
          stored position (pos size -ℤ length body) (
            if q then some (write_at (write_at h.memory (length t) d) position (0 ∷ [])) else none))
        (leb-false (position + 1) 1024 (omega arith))

build_request_fault :
    (c : Client) (add_installation : Bool) (host verb : Bytes) (x : ℕ) (body : Bytes)
    → let lines =
        joined (head_lines c false add_installation true host verb (x ∷ body)) ++ codes "\r\n" in
      length lines ≤ 1022
      → 1024 ≤ length lines + length (x ∷ body)
      → build_request c false add_installation host verb (x ∷ body) ≡ fault
unfolding build_request
build_request_fault c add_installation host verb x body h k =
    let lines = head_lines c false add_installation true host verb (x ∷ body) in
    let b = add_lines lines (built (replicate buffer_size 0) 0 (pos (buffer_size - 1))) in
    let fits : length (joined lines) + 2 ≤ 1022 =
      omega (arith, length-append (joined lines) (codes "\r\n")) in
    let has_body : not (length (x ∷ body) == 0) ≡ true =
      ap not (ne→== (length (x ∷ body)) 0 (omega arith)) in
    let start = built (replicate buffer_size 0) 0 (pos (buffer_size - 1)) in
    ap
      (λ q.
        let head =
          print (codes "\r\n")
            (add_lines (head_lines c false add_installation q host verb (x ∷ body)) start) in
        terminated (if q then print (x ∷ body) head else head))
      has_body
    ∙ long_body (joined lines ++ codes "\r\n") (x ∷ body) (print (codes "\r\n") b)
        (print-IsBuilt (joined lines) (codes "\r\n") b
          (add_lines-IsBuilt lines [] start start-IsBuilt (omega arith)) (omega arith))
        h k

-- A request whose text has 1022 bytes or fewer is built whole: no write leaves the buffer, the buffer
-- starts with exactly the request line, the headers that have a value, the empty line and the body,
-- and a NUL behind them, and the length of the text is returned.
pub build_request_headers-IsRequest :
    (c : Client) (add_installation : Bool) (host verb body : Bytes)
    → length (request_text c (is_get_request verb) add_installation host verb body) ≤ 1022
    → IsRequest
        (request_text c (is_get_request verb) add_installation host verb body)
        (build_request_headers c add_installation host verb body)
unfolding build_request_headers
build_request_headers-IsRequest c add_installation host verb body =
    build_request-IsRequest c (is_get_request verb) add_installation host verb body

-- Where the lines in front of the body have 1022 bytes or fewer, and 1024 or more with the body, the
-- NUL behind the request is written past the buffer: `snprintf` returns the length of the whole body,
-- and the position moves by it. The request is not a GET, and has a body.
pub build_request_headers_fault :
    (c : Client) (add_installation : Bool) (host verb : Bytes) (x : ℕ) (body : Bytes)
    → is_get_request verb ≡ false
    → let lines =
        joined (head_lines c false add_installation true host verb (x ∷ body)) ++ codes "\r\n" in
      length lines ≤ 1022
      → 1024 ≤ length lines + length (x ∷ body)
      → build_request_headers c add_installation host verb (x ∷ body) ≡ fault
unfolding build_request_headers
build_request_headers_fault c add_installation host verb x body g h k =
    ap (λ q. build_request c q add_installation host verb (x ∷ body)) g
    ∙ build_request_fault c add_installation host verb x body h k
