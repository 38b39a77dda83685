-- ===== src/Prelude/Words.antt =====
-- Machine words. A word is a number below its modulus, and each operation wraps.
use Prim.Native.Nat.{ℕ, ◌+◌, ◌-◌, ◌%◌, ◌^◌}

abbrev pub u8_mod : ℕ
u8_mod = 2 ^ 8

abbrev pub u16_mod : ℕ
u16_mod = 2 ^ 16

abbrev pub u32_mod : ℕ
u32_mod = 2 ^ 32

abbrev pub u64_mod : ℕ
u64_mod = 2 ^ 64

-- Conversions to the width, and sums and differences at it.
abbrev pub u8 : ℕ → ℕ
u8 a = a % u8_mod

abbrev pub u16 : ℕ → ℕ
u16 a = a % u16_mod

abbrev pub u32 : ℕ → ℕ
u32 a = a % u32_mod

abbrev pub add16 : ℕ → ℕ → ℕ
add16 a b = (a + b) % u16_mod

abbrev pub sub16 : ℕ → ℕ → ℕ
sub16 a b = (a + (u16_mod - b % u16_mod)) % u16_mod

abbrev pub add32 : ℕ → ℕ → ℕ
add32 a b = (a + b) % u32_mod

abbrev pub sub32 : ℕ → ℕ → ℕ
sub32 a b = (a + (u32_mod - b % u32_mod)) % u32_mod
