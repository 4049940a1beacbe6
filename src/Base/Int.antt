-- ===== src/Base/Int.antt =====
-- Signed integers over the native numbers: `negsuc n` is -(n + 1).
use Prim.Native.Nat.{ℕ, zero, suc, ◌+◌, ◌-◌, ◌≤◌, ◌<◌}
use mathlib.Core.Path.{◌≡◌}
use native.Mathlib.Omega.{arith}
use mathlib.Core.Bool.{Bool, true, false}
use parse_embedded_sdks.Base.Tests.{leb, if◌then◌else◌, ◌==◌}

pub data ℤ : Type 0 where
  pos : ℕ → ℤ
  negsuc : ℕ → ℤ

-- a - b, as an integer.
abbrev pub sub_ℕ : ℕ → ℕ → ℤ
sub_ℕ a b = if leb b a then pos (a - b) else negsuc (b - a - 1)

infixl 65 ◌-ℤ◌
-- `z - n` for a natural number `n`.
abbrev pub ◌-ℤ◌ : ℤ → ℕ → ℤ
pos a -ℤ n = sub_ℕ a n
negsuc a -ℤ n = negsuc (a + n)

abbrev pub inc : ℤ → ℤ
inc (pos a) = pos (suc a)
inc (negsuc zero) = pos 0
inc (negsuc (suc a)) = negsuc a

abbrev pub dec : ℤ → ℤ
dec (pos zero) = negsuc 0
dec (pos (suc a)) = pos a
dec (negsuc a) = negsuc (suc a)

abbrev pub is_zero : ℤ → Bool
is_zero (pos a) = a == 0
is_zero (negsuc a) = false

abbrev pub is_negative : ℤ → Bool
is_negative (pos a) = false
is_negative (negsuc a) = true

pub sub_ℕ-le : (a b : ℕ) → b ≤ a → sub_ℕ a b ≡ pos (a - b)
sub_ℕ-le a b h = ground arith

pub sub_ℕ-lt : (a b : ℕ) → a < b → sub_ℕ a b ≡ negsuc (b - a - 1)
sub_ℕ-lt a b h = ground arith

infixl 65 ◌+ℤ◌
abbrev pub ◌+ℤ◌ : ℤ → ℤ → ℤ
pos a +ℤ pos b = pos (a + b)
pos a +ℤ negsuc b = sub_ℕ a (suc b)
negsuc a +ℤ pos b = sub_ℕ b (suc a)
negsuc a +ℤ negsuc b = negsuc (suc (a + b))
