-- ===== src/Cc3200/Socket/Laws.antt =====
-- The bounds of a read, and the outcomes of a connection.
use parse_embedded_sdks.Base.{
  ℕ, zero, suc, ◌+◌, ◌-◌, ◌%◌, ◌≤◌, ◌<◌, ◌≡◌, refl, sym, ap, ◌∙◌, Bool, true, false, not, ◌&&◌,
  Bool-cases, inl, inr, ◌⊎◌, List, [], ◌∷◌, ◌++◌, Bytes, length, length-append, length-take, take,
  drop, ltb, lt→ltb, ◌==◌, if◌then◌else◌, ℤ, pos, negsuc, is_negative, arith,
}
use parse_embedded_sdks.Push.Buffer.{write_at}
use parse_embedded_sdks.Push.Buffer.Laws.{take-write_at, drop-write_at, write_at-read}
use parse_embedded_sdks.Cc3200.Socket.{
  got, refused, Poll, quiet, wait_failed, ready, to_short, asked, is_less, fill, store, socket_read,
}

-- A read of at most `room` bytes, whose status counts them or is negative.
pub record IsRead (room : ℕ) (r : ℤ × Bytes) : Type 0 where
  pub fits : length r.1 ≤ room
  pub counts : (r.0 ≡ pos (length r.1)) ⊎ (is_negative r.0 ≡ true)

failed : (room n : ℕ) (acc : Bytes) → length acc ≤ room → IsRead room (negsuc n, acc)
failed room n acc h = record { fits = h; counts = inr refl }

-- A count below 2 ^ 15 is itself as a `short`.
to_short_small : (n : ℕ) → n < 32768 → to_short n ≡ pos n
to_short_small n h =
    let low : n % 65536 ≡ n = omega arith in
    ap (λ m. if ltb m 32768 then pos m else negsuc (65535 - m)) low ∙ rw (lt→ltb n 32768 h) refl

counted :
    (room : ℕ) (acc : Bytes)
    → room < 32768
    → length acc ≤ room
    → IsRead room (to_short (length acc), acc)
counted room acc hr h = record {
  fits = h;
  counts = inl (to_short_small (length acc) (omega arith));
}

asked-le : (room received : ℕ) → asked room received ≤ room - received
asked-le room received = ground arith

append-take-le :
    (n room : ℕ) (acc d : Bytes)
    → n ≤ room - length acc
    → length acc ≤ room
    → length (acc ++ take n d) ≤ room
append-take-le n room acc d hn h = omega (arith, length-append acc (take n d), length-take n d)

pub fill-IsRead :
    (room : ℕ) (block : Bool) (acc : Bytes) (polls : List Poll)
    → room < 32768
    → length acc ≤ room
    → IsRead room (fill room block acc polls)
unfolding fill
fill-IsRead room block acc [] hr h = counted room acc hr h
fill-IsRead room block acc (quiet ∷ polls) hr h = counted room acc hr h
fill-IsRead room block acc (wait_failed n ∷ polls) hr h = failed room n acc h
fill-IsRead room block acc (ready again (refused n) ∷ polls) hr h =
    elim (Bool-cases (block && not (again == 0))) [
      | inl e ↦ rw e (failed room 10 acc h)
      | inr e ↦ rw e (failed room n acc h)
    ]
fill-IsRead room block acc (ready again (got d) ∷ polls) hr h =
    let acc' = acc ++ take (asked room (length acc)) d in
    let n = asked room (length acc) in
    let h' = append-take-le n room acc d (asked-le room (length acc)) h in
    elim (Bool-cases (block && not (again == 0))) [
      | inl e ↦ rw e (failed room 10 acc h)
      | inr e ↦ rw e (elim (Bool-cases (is_less (to_short (length acc')) room)) [
        | inl f ↦ rw f (fill-IsRead room true acc' polls hr h')
        | inr f ↦ rw f (counted room acc' hr h')
      ])
    ]

-- A read for fewer than 2 ^ 15 bytes puts what it has taken at the offset, with a NUL behind.
pub socket_read_small :
    (handle : ℕ) (polls : List Poll) (memory : Bytes) (offset room : ℕ)
    → room < 32768
    → let r = fill room false [] polls in
      socket_read (pos handle) polls memory offset (suc room)
      ≡ (r.0, write_at memory offset (r.1 ++ 0 ∷ []))
unfolding socket_read store
socket_read_small handle polls memory offset room h =
    let r = fill room false [] polls in
    let read = fill-IsRead room false [] polls h (omega arith) in
    ap (λ k. (r.0, store memory offset r.1 k))
      (to_short_small (length r.1) (omega (arith, read.fits)))

-- A read of an array at an offset, for a size that is not 0, is 2 ^ 15 at most and stays in the
-- array, from a handle that is not negative: it takes fewer bytes than the size, puts them and a NUL
-- behind them at the offset, leaves the bytes before and behind these as they are, and gives the
-- number of the bytes or a negative status.
pub socket_read-IsRead :
    (handle : ℕ) (polls : List Poll) (memory : Bytes) (offset size : ℕ)
    → 0 < size
    → size ≤ 32768
    → offset + size ≤ length memory
    → let (status, memory') = socket_read (pos handle) polls memory offset size in
      (acc : Bytes) × (length acc < size)
      × ((status ≡ pos (length acc)) ⊎ (is_negative status ≡ true))
      × (take offset memory' ≡ take offset memory)
      × (take (length acc + 1) (drop offset memory') ≡ acc ++ 0 ∷ [])
      × (drop (offset + (length acc + 1)) memory' ≡ drop (offset + (length acc + 1)) memory)
socket_read-IsRead handle polls memory offset zero h small b = absurd (omega arith)
socket_read-IsRead handle polls memory offset (suc room) h small b =
    let r = fill room false [] polls in
    let read = fill-IsRead room false [] polls (omega arith) (omega arith) in
    let d = r.1 ++ 0 ∷ [] in
    let size : length d ≡ length r.1 + 1 = omega (arith, length-append r.1 (0 ∷ [])) in
    let fits : offset + length d ≤ length memory = omega (arith, read.fits) in
    rw (socket_read_small handle polls memory offset room (omega arith)) (
      r.1,
      omega (arith, read.fits),
      read.counts,
      take-write_at memory d offset fits,
      ap (λ n. take n (drop offset (write_at memory offset d))) (sym size)
          ∙ write_at-read memory d offset fits,
      ap (λ n. drop (offset + n) (write_at memory offset d)) (sym size)
          ∙ drop-write_at memory d offset fits
          ∙ ap (λ n. drop (offset + n) memory) size,
    )
