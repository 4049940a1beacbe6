-- ===== src/Cc3200/Clock.antt =====
-- The clock of the CC3200 board: cc3200/src/utils.c. The fields of a date are those of simplelink,
-- `unsigned long`; `long` and `int` have 32 bits too.
pub mod Laws
use parse_embedded_sdks.Base.{
  ℕ, ◌+◌, ◌-◌, ◌*◌, ◌%◌, ◌^◌, Bool, true, false, ltb, ◌==◌, if◌then◌else◌, ℤ, pos, negsuc,
  is_negative,
}

-- The fields of `SlDateTime_t` that the code reads.
pub record DateTime : Type 0 where
  pub seconds : ℕ
  pub minutes : ℕ
  pub hours : ℕ

-- A difference of two `unsigned long`s, and one taken as a `long`.
abbrev pub sub_word : ℕ → ℕ → ℕ
sub_word a b = (a % 2 ^ 32 + (2 ^ 32 - b % 2 ^ 32)) % 2 ^ 32

abbrev pub to_long : ℕ → ℤ
to_long n = if ltb (n % 2 ^ 32) (2 ^ 31) then pos (n % 2 ^ 32) else negsuc (2 ^ 32 - 1 - n % 2 ^ 32)

-- `(temp < 0) ? (60 + temp) : (temp)`, as the `unsigned long` that is added to the result.
abbrev pub wrapped_term : ℕ → ℤ → ℕ
wrapped_term unit (pos n) = n
wrapped_term unit (negsuc n) = sub_word unit (n + 1)

-- `a - b - (temp < 0) ? 1 : 0`: the condition is the whole difference.
abbrev pub differ_term : ℕ → ℕ → ℤ → ℤ
differ_term a b temp =
    if sub_word (sub_word a b) (if is_negative temp then 1 else 0) == 0 then pos 0 else pos 1

-- `timeDiffInSec`.
unfoldable pub time_diff_in_sec : DateTime → DateTime → ℤ
time_diff_in_sec dt1 dt2 =
    let seconds = to_long (sub_word dt2.seconds dt1.seconds) in
    let minutes = differ_term dt2.minutes dt1.minutes seconds in
    let hours = differ_term dt2.hours dt1.hours minutes in
    to_long (wrapped_term 60 seconds + wrapped_term 60 minutes + wrapped_term 24 hours)

-- PUSH_KEEP_ALIVE.
abbrev pub push_keep_alive : ℕ
push_keep_alive = 10 * 60 * 1000

abbrev exceeds : ℤ → ℕ → Bool
exceeds (pos n) limit = ltb limit n
exceeds (negsuc n) limit = false

-- `isPingTime`, at the date `now`, where the last ping was at the date `last`.
unfoldable pub is_ping_time : DateTime → DateTime → Bool
unfolding time_diff_in_sec
is_ping_time now last = exceeds (time_diff_in_sec now last) push_keep_alive

-- `updateLastPingTime`: what the device answers becomes the date of the last ping.
abbrev pub update_last_ping_time : (now last : DateTime) → DateTime
update_last_ping_time now last = now
