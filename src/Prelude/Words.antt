-- ===== src/Prelude/Words.antt =====
-- Unsigned machine words as native numbers: every operation that can wrap says so.
use Prim.Native.Nat.{ℕ, ◌+◌, ◌-◌, ◌%◌}
use enet_rs.Prelude.Tests.{ltb, if◌then◌else◌}

-- A conversion to `enet_uint16` and to `enet_uint32`.
abbrev pub u8 : ℕ → ℕ
u8 x = x % 256

abbrev pub u16 : ℕ → ℕ
u16 x = x % 65536

abbrev pub u32 : ℕ → ℕ
u32 x = x % 4294967296

-- a - b on `enet_uint32`.
abbrev pub sub32 : ℕ → ℕ → ℕ
sub32 a b = (u32 a + 4294967296 - u32 b) % 4294967296

-- A conversion to and a subtraction on `size_t` (64 bits).
abbrev pub size_sub : ℕ → ℕ → ℕ
size_sub a b = (a + 18446744073709551616 - b) % 18446744073709551616

-- ENET_MAX, ENET_MIN and ENET_DIFFERENCE of utility.h.
abbrev pub enet_max : ℕ → ℕ → ℕ
enet_max x y = if ltb y x then x else y

abbrev pub enet_min : ℕ → ℕ → ℕ
enet_min x y = if ltb x y then x else y

abbrev pub enet_difference : ℕ → ℕ → ℕ
enet_difference x y = if ltb x y then y - x else x - y
