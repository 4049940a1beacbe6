-- ===== src/Cc3200/Clock/Laws.antt =====
-- What the clock's difference of two dates comes to.
use parse_embedded_sdks.Base.{ℕ, ◌+◌, ◌*◌, ◌≤◌, ◌<◌, ◌≡◌, false, ℤ, pos, le→ltb, arith}
use parse_embedded_sdks.Cc3200.Clock.{
  DateTime, sub_word, to_long, wrapped_term, differ_term, time_diff_in_sec, is_ping_time,
}

-- Two seconds of a minute differ by less than a minute.
seconds_lem : (a b : ℕ) → a < 60 → b < 60 → wrapped_term 60 (to_long (sub_word a b)) < 60
seconds_lem a b h k = ground arith

differ_lem : (a b unit : ℕ) (temp : ℤ) → wrapped_term unit (differ_term a b temp) ≤ 1
differ_lem a b unit temp = ground arith

to_long_lem : (n : ℕ) → n < 100 → to_long n ≡ pos n
to_long_lem n h = ground arith

-- Two dates whose seconds are below 60 differ by at most 61 for the clock, whatever their minutes
-- and hours.
pub time_diff_in_sec_lem :
    (now last : DateTime)
    → now.seconds < 60
    → last.seconds < 60
    → (n : ℕ) × (time_diff_in_sec now last ≡ pos n) × (n ≤ 61)
unfolding time_diff_in_sec
time_diff_in_sec_lem now last h k =
    let s = to_long (sub_word last.seconds now.seconds) in
    let m = differ_term last.minutes now.minutes s in
    let seconds = seconds_lem last.seconds now.seconds k h in
    let minutes = differ_lem last.minutes now.minutes 60 s in
    let hours = differ_lem last.hours now.hours 24 m in
    let n =
      wrapped_term 60 s
      + wrapped_term 60 m
      + wrapped_term 24 (differ_term last.hours now.hours m) in
    (
      n,
      to_long_lem n (omega (arith, seconds, minutes, hours)),
      omega (arith, seconds, minutes, hours),
    )

-- It is then never time for a ping.
pub is_ping_time_lem :
    (now last : DateTime) → now.seconds < 60 → last.seconds < 60 → is_ping_time now last ≡ false
unfolding is_ping_time
is_ping_time_lem now last h k =
    let (n, diff, small) = time_diff_in_sec_lem now last h k in
    rw diff (le→ltb (10 * 60 * 1000) n (omega (arith, small)))
