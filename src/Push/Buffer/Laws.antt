-- ===== src/Push/Buffer/Laws.antt =====
-- What the operations of the receive buffer do to a whole message at its start.
use native.Mathlib.Decide.{dec_le}
use parse_embedded_sdks.Base.{
  ℕ, ◌+◌, ◌-◌, ◌≤◌, ◌<◌, ◌≡◌, sym, drop-append, drop-drop, ap, ◌∙◌, some, ◌∷◌, ◌++◌, Bytes, length,
  take, drop, set, length-append, length-take, length-drop, set-append, drop-append_suc,
  take-append, pos, sub_ℕ-le, sub_ℕ-lt, lt→ltb, arith,
}
use parse_embedded_sdks.Push.Buffer.{Buffer, write_at, terminate, consume}

-- A read that fits keeps the size of the array.
pub length-write_at :
    (bytes d : Bytes) (n : ℕ)
    → n + length d ≤ length bytes
    → length (write_at bytes n d) ≡ length bytes
length-write_at bytes d n h = omega (
  arith,
  length-append (take n bytes) (d ++ drop (n + length d) bytes),
  length-append d (drop (n + length d) bytes),
  length-take n bytes,
  length-drop (n + length d) bytes,
)

-- Such a read leaves the bytes before it and behind it, and its bytes stand between them.
module _ (bytes d : Bytes) (n : ℕ) (fits : n + length d ≤ length bytes) where
  size : length (take n bytes) ≡ n
  size = omega (arith, length-take n bytes)

  pub take-write_at : take n (write_at bytes n d) ≡ take n bytes
  take-write_at = ap (λ k. take k (write_at bytes n d)) (sym size) ∙ take-append (take n bytes) _

  drop_n : drop n (write_at bytes n d) ≡ d ++ drop (n + length d) bytes
  drop_n = ap (λ k. drop k (write_at bytes n d)) (sym size) ∙ drop-append (take n bytes) _

  pub write_at-read : take (length d) (drop n (write_at bytes n d)) ≡ d
  write_at-read = ap (take (length d)) drop_n ∙ take-append d _

  pub drop-write_at : drop (n + length d) (write_at bytes n d) ≡ drop (n + length d) bytes
  drop-write_at =
      sym (drop-drop n (length d) (write_at bytes n d))
      ∙ ap (drop (length d)) drop_n
      ∙ drop-append d _

-- The message ends with a NUL, at the place of the byte behind it.
pub terminate_lem :
    (cap : ℕ) (msg : Bytes) (sep : ℕ) (rest : Bytes)
    → length msg < cap
    → terminate cap 0 (length msg) (msg ++ sep ∷ rest) ≡ some (msg ++ 0 ∷ rest)
unfolding terminate
terminate_lem cap msg sep rest h =
    rw (lt→ltb (0 + length msg) cap (omega arith))
      (ap some (ap (λ i. set (msg ++ sep ∷ rest) i 0) (omega arith) ∙ set-append msg sep 0 rest))

-- The rest behind the message and its separator moves to the front.
pub consume_lem :
    (msg rest behind : Bytes)
    → let b = consume (length msg) (record {
      bytes = msg ++ 0 ∷ (rest ++ behind);
      used = pos (length msg + 1 + length rest);
    }) in
      (b.used ≡ pos (length rest)) × (take (length rest) b.bytes ≡ rest)
unfolding consume
consume_lem msg rest behind =
    let e : length msg + 1 + length rest - (length msg + 1) ≡ length rest = omega arith in
    let used = sub_ℕ-le (length msg + 1 + length rest) (length msg + 1) (omega arith) in
    (
      rw (used, e),
      rw (used, e, drop-append_suc msg) (rw (take-append rest behind) (take-append rest _)),
    )

-- The length of the array does not change.
pub length-consume :
    (cap len : ℕ) (b : Buffer) (n : ℕ)
    → b.used ≡ pos n
    → length b.bytes ≡ cap
    → n ≤ cap
    → length (consume len b).bytes ≡ cap
unfolding consume
length-consume cap len b n e h f = rw e (elim (dec_le (len + 1) n) [
  | yes more ↦ rw (sub_ℕ-le n (len + 1) more) (
      omega (
        arith,
        length-append (take (n - (len + 1)) (drop (len + 1) b.bytes))
            (drop (n - (len + 1)) b.bytes),
        length-take (n - (len + 1)) (drop (len + 1) b.bytes),
        length-drop (len + 1) b.bytes,
        length-drop (n - (len + 1)) b.bytes,
      ))
  | no less ↦ rw (sub_ℕ-lt n (len + 1) (omega arith)) h
])
