-- ===== src/Base/Text.antt =====
-- ASCII text as a list of byte values.
use Prim.Native.Char.{code}
use Prim.Native.String.{String}
use Prim.Native.Nat.{ℕ, ◌+◌}
use mathlib.Core.Bool.{◌&&◌}
use parse_embedded_sdks.Base.Tests.{leb, if◌then◌else◌}
use mathlib.Core.List.{List, [], ◌∷◌}

abbrev pub Bytes : Type 0
Bytes = List ℕ

abbrev pub codes : String → Bytes
codes String.[] = []
codes (String.◌∷◌ c s) = code c ∷ codes s

-- Lower case, of the letters of ASCII.
abbrev pub lower_unit : ℕ → ℕ
lower_unit c = if leb b'A' c && leb c b'Z' then c + 32 else c

abbrev pub lower : Bytes → Bytes
lower [] = []
lower (c ∷ s) = lower_unit c ∷ lower s
