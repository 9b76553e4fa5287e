-- ===== src/Platform.antt =====
-- src/utils/platform.c and platform.h, the branch for Linux: descriptors and the standard input.
pub mod Windows
mod Laws
mod Tests
use Prim.Native.Nat.{bit_or}
use modbus_server.Prelude.{
  ℕ, ◌*◌, ◌/◌, ◌%◌, ◌-◌, ◌==◌, Bool, true, false, ◌&&◌, List, [], Option, none, some, length,
  if◌then◌else◌,
}
use modbus_server.Prelude.Int.{ℤ, pos, negsuc, minus_one, eqb_ℤ, ltb_ℤ}
use modbus_server.Foreign.Modbus.{Modbus}
use modbus_server.Machine.{Env}

abbrev pub o_nonblock : ℕ
o_nonblock = 0o4000

-- `flags | O_NONBLOCK`, for flags that are not negative. A negative number keeps its sign bit, and
-- the bit of the flag is set in its two's complement.
abbrev pub with_nonblock : ℤ → ℤ
with_nonblock (pos flags) = pos (bit_or flags o_nonblock)
with_nonblock (negsuc n) = if n / o_nonblock % 2 == 0 then negsuc n else negsuc (n - o_nonblock)

module _ {W : Type 0} (lib : Modbus W) where
  unfoldable pub platform_set_nonblocking : ℤ → Env W → ℤ × Env W
  platform_set_nonblocking fd e =
      let (flags, w1) = lib.get_flags fd e.world in
      if eqb_ℤ flags minus_one
      then (minus_one, record e { world = w1 })
      else (let (rc, w2) = lib.set_flags fd (with_nonblock flags) w1 in
          (if eqb_ℤ rc minus_one then minus_one else pos 0, record e { world = w2 }))

-- No initialisation and no cleanup is needed.
unfoldable pub platform_init : ℤ
platform_init = pos 0

unfoldable pub platform_cleanup : {W : Type 0} → W → W
platform_cleanup w = w

-- The two parts of the time-out that `select` gets, for a time that is not negative.
unfoldable pub timeout_parts : ℕ → ℕ × ℕ
timeout_parts timeout_ms = (timeout_ms / 1000, timeout_ms % 1000 * 1000)

-- The answer of `select`, whether the standard input is then ready, and the line that `fgets`
-- puts into the buffer, if it gives one; the buffer keeps its old text otherwise.
unfoldable pub platform_read_stdin : ℤ → Bool → Option (List ℕ) → List ℕ → ℤ × List ℕ
platform_read_stdin ret is_set line buf =
    if ltb_ℤ (pos 0) ret && is_set
    then elim line [
      | some text ↦ (pos (length text), text)
      | none ↦ (if ltb_ℤ ret (pos 0) then minus_one else pos 0, buf)
    ]
    else (if ltb_ℤ ret (pos 0) then minus_one else pos 0, buf)

-- `sysconf(_SC_NPROCESSORS_ONLN)` as an argument.
unfoldable pub platform_get_nprocs : ℤ → ℤ
platform_get_nprocs nprocs = if ltb_ℤ (pos 0) nprocs then nprocs else pos 1
