-- ===== src/Base/Bytes.antt =====
-- Bytes and 16-bit words, little-endian as on the machines the program is built for.
use Prim.Native.Nat.{ℕ, ◌+◌, ◌*◌, ◌/◌, ◌%◌, ◌<◌}
use mathlib.Core.Path.{◌≡◌}
use mathlib.Core.List.{List, [], ◌∷◌, ◌++◌}
use mathlib.Core.Option.{Option, none, some}
use native.Mathlib.Omega.{arith}
use f1985gfw.Base.Lists.{length}

abbrev pub u16_mod : ℕ
u16_mod = 65536

-- `*(uint16_t*)p = n`
abbrev pub u16_bytes : ℕ → List ℕ
u16_bytes n = (n % 256) ∷ (n / 256 % 256) ∷ []

-- `*(uint16_t*)p`; `none` is a read beyond the memory block.
abbrev pub u16_read : List ℕ → Option ℕ
u16_read [] = none
u16_read (a ∷ []) = none
u16_read (a ∷ b ∷ rest) = some (a + 256 * b)

pub u16_bytes-value : (n : ℕ) → n < u16_mod → (n % 256) + 256 * (n / 256 % 256) ≡ n
u16_bytes-value n h = omega arith

-- The bytes of a message on the wire: the number, the size of the body, the body.
unfoldable pub frame : ℕ → List ℕ → List ℕ
frame msg_id body = u16_bytes msg_id ++ u16_bytes (length body) ++ body
