-- ===== src/Push/Buffer.antt =====
-- The receive buffer of a push service: a static array, and the `int` that counts its used bytes.
-- The operations are those of `parseProcessNextPushNotification` in unix/src/parse.c and, with
-- another capacity, in rtos/push.c.
pub mod Laws
use parse_embedded_sdks.Base.{
  ℕ, ◌+◌, Bool, true, false, Option, none, some, ◌++◌, ltb, ◌==◌, if◌then◌else◌, Bytes, length,
  take, drop, set, ℤ, pos, negsuc, ◌-ℤ◌,
}
use parse_embedded_sdks.Json.Frame.{PushJson, message}

pub record Buffer : Type 0 where
  pub bytes : Bytes
  pub used : ℤ

-- `used < sizeof(buffer)`: the `int` is converted to `size_t`, so a negative one is not below.
abbrev pub has_room : ℕ → ℤ → Bool
has_room cap (pos n) = ltb n cap
has_room cap (negsuc _) = false

-- `used == sizeof(buffer)`.
abbrev pub is_full : ℕ → ℤ → Bool
is_full cap (pos n) = n == cap
is_full cap (negsuc _) = false

-- `used` as the number of bytes that a scan is given. It is asked for only where there is room.
abbrev pub used_size : ℤ → ℕ
used_size (pos n) = n
used_size (negsuc _) = 0

-- The bytes `d` at offset `n`.
abbrev pub write_at : Bytes → ℕ → Bytes → Bytes
write_at bytes n d = take n bytes ++ (d ++ drop (n + length d) bytes)

-- A read of `d` behind the used bytes.
unfoldable pub append : Buffer → Bytes → Buffer
append b d = record {
  bytes = write_at b.bytes (used_size b.used) d;
  used = pos (used_size b.used + length d);
}

-- `length == -1`.
abbrev pub is_partial : PushJson → Bool
is_partial (message _ (some _)) = false
is_partial _ = true

-- `message[length] = '\0'`; `none` is a write past the array.
unfoldable pub terminate : ℕ → ℕ → ℕ → Bytes → Option Bytes
terminate cap start len bytes =
    if ltb (start + len) cap then some (set bytes (start + len) 0) else none

-- `used -= length + 1; if (used > 0) memmove(buffer, buffer + length + 1, used);`
move_rest : ℕ → Bytes → ℤ → Bytes
move_rest len bytes (pos n) = take n (drop (len + 1) bytes) ++ drop n bytes
move_rest len bytes (negsuc _) = bytes

unfoldable pub consume : ℕ → Buffer → Buffer
unfolding move_rest
consume len b = record {
  bytes = move_rest len b.bytes (b.used -ℤ (len + 1));
  used = b.used -ℤ (len + 1);
}

-- `used > 0`.
abbrev pub has_more : ℤ → Bool
has_more (pos n) = ltb 0 n
has_more (negsuc _) = false
