-- ===== src/UnitTestServer/Bytes.antt =====
-- The two macros of modbus.h that read and write a number in two bytes of a request.
use Prim.Native.Nat.{bit_or}
use modbus_server.Prelude.{
  ℕ, ◌+◌, ◌*◌, ◌/◌, ◌%◌, ◌^◌, ◌<◌, ◌≡◌, refl, ◌∙◌, List, some, arith, length, get_elem?, set,
  length-set, get_elem?-lt,
}
use modbus_server.Prelude.Int.{ℤ, pos, pos-add}
use modbus_server.Clib.Fault.{ok}
use modbus_server.Clib.Word.{to_u16}
use modbus_server.Clib.Memory.{load_in_bounds, store_in_bounds}
use modbus_server.UnitTestServer.Requests.{get_int16, set_int16}

-- The two bytes of a word in a request.
pub get_int16-bytes :
    (tab : List ℕ) (i : ℕ) {a b : ℕ}
    → get_elem? tab i ≡ some a
    → get_elem? tab (i + 1) ≡ some b
    → get_int16 tab (pos i) ≡ ok (bit_or (a * 2 ^ 8) b)
unfolding get_int16
get_int16-bytes tab i at at' =
    rw (pos-add i 1, load_in_bounds tab i at, load_in_bounds tab (i + 1) at') refl

-- Inside a buffer two bytes can be read.
pub get_int16-ok :
    (tab : List ℕ) (i : ℕ) → i + 1 < length tab → (v : ℕ) × (get_int16 tab (pos i) ≡ ok v)
get_int16-ok tab i h =
    let (a, at) = get_elem?-lt tab i (omega arith) in
    let (b, at') = get_elem?-lt tab (i + 1) h in
    (bit_or (a * 2 ^ 8) b, get_int16-bytes tab i at at')

abbrev written : List ℕ → ℕ → ℤ → List ℕ
written tab i value = set (set tab i (to_u16 value / 2 ^ 8)) (i + 1) (to_u16 value % 2 ^ 8)

pub set_int16-ok :
    (tab : List ℕ) (i : ℕ) (value : ℤ)
    → i + 1 < length tab
    → set_int16 tab (pos i) value ≡ ok (written tab i value)
unfolding set_int16
set_int16-ok tab i value h =
    rw
      (
        pos-add i 1,
        store_in_bounds tab i (to_u16 value / 2 ^ 8) (omega arith),
        store_in_bounds (set tab i (to_u16 value / 2 ^ 8)) (i + 1) (to_u16 value % 2 ^ 8)
            (omega (arith, length-set tab i (to_u16 value / 2 ^ 8))),
      )
      refl

pub length-written : (tab : List ℕ) (i : ℕ) (value : ℤ) → length (written tab i value) ≡ length tab
length-written tab i value =
    length-set (set tab i (to_u16 value / 2 ^ 8)) (i + 1) (to_u16 value % 2 ^ 8)
    ∙ length-set tab i (to_u16 value / 2 ^ 8)
