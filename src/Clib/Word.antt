-- ===== src/Clib/Word.antt =====
-- The conversions of C between `int`, `uint16_t`, `int16_t` and `uint32_t`: a value is kept modulo
-- the width of the target type.
use modbus_server.Prelude.{ℕ, ◌-◌, ◌%◌, ◌^◌, ◌<◌, ◌≡◌, arith, ltb, if◌then◌else◌}
use modbus_server.Prelude.Int.{ℤ, pos, negsuc}

-- `(uint16_t)x`
unfoldable pub to_u16 : ℤ → ℕ
to_u16 (pos n) = n % 2 ^ 16
to_u16 (negsuc n) = 2 ^ 16 - 1 - n % 2 ^ 16

-- `(uint32_t)x`
unfoldable pub to_u32 : ℤ → ℕ
to_u32 (pos n) = n % 2 ^ 32
to_u32 (negsuc n) = 2 ^ 32 - 1 - n % 2 ^ 32

-- The number that a 16-bit pattern stands for in two's complement.
abbrev pub signed16 : ℕ → ℤ
signed16 w = if ltb w (2 ^ 15) then pos w else negsuc (2 ^ 16 - 1 - w)

-- The number that a 32-bit pattern stands for in two's complement.
abbrev pub signed32 : ℕ → ℤ
signed32 w = if ltb w (2 ^ 31) then pos w else negsuc (2 ^ 32 - 1 - w)

-- `(int16_t)x`
unfoldable pub to_s16 : ℤ → ℤ
unfolding to_u16
to_s16 x = signed16 (to_u16 x)

-- `(int32_t)x`
unfoldable pub to_s32 : ℤ → ℤ
unfolding to_u32
to_s32 x = signed32 (to_u32 x)

pub to_u16-lt : (x : ℤ) → to_u16 x < 2 ^ 16
unfolding to_u16
to_u16-lt (pos n) = omega arith
to_u16-lt (negsuc n) = omega arith

pub to_u32-lt : (x : ℤ) → to_u32 x < 2 ^ 32
unfolding to_u32
to_u32-lt (pos n) = omega arith
to_u32-lt (negsuc n) = omega arith

-- The signed conversion in between changes no bit of the pattern.
pub to_u16-to_s16 : (x : ℤ) → to_u16 (to_s16 x) ≡ to_u16 x
unfolding to_u16 to_s16
to_u16-to_s16 (pos n) = ground arith
to_u16-to_s16 (negsuc n) = ground arith

pub to_u32-to_s32 : (x : ℤ) → to_u32 (to_s32 x) ≡ to_u32 x
unfolding to_u32 to_s32
to_u32-to_s32 (pos n) = ground arith
to_u32-to_s32 (negsuc n) = ground arith
