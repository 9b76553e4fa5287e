-- ===== src/ByteOrder.antt =====
-- src/utils/byte_order.c and byte_order.h: the order in which the words of a value are put into the
-- register array. json-modbus-server.c holds the same two functions over its global mapping.
pub mod Words
pub mod Copying
pub mod Layout
pub mod Ranges
pub mod Parsing
mod Tests
use modbus_server.Prelude.{
  ℕ, zero, suc, ◌+◌, ◌*◌, ◌/◌, ◌%◌, ◌^◌, ◌≡◌, Bool, true, false, ◌&&◌, ◌||◌, List, Option, none,
  some, ◌==◌, if◌then◌else◌,
}
use modbus_server.Prelude.Int.{ℤ, pos, ◌+ℤ◌}
use modbus_server.Clib.Fault.{Result, ok, ◌>>=◌}
use modbus_server.Clib.Memory.{load, store}
use modbus_server.Clib.Text.{codes, str_case_eq}
use Words.{swap_bytes}

pub data ByteOrder : Type 0 where
  order_le order_be order_swap : ByteOrder

-- `s` may be the null pointer.
unfoldable pub parse_byte_order : Option (List ℕ) → ByteOrder
parse_byte_order none = order_le
parse_byte_order (some s) =
    if str_case_eq s (codes "LE")
    then order_le
    else if str_case_eq s (codes "BE")
    then order_be
    else if str_case_eq s (codes "SWAP")
    then order_swap
    else order_le

-- `for (i...) words[i] = (words[i] >> 8) | (words[i] << 8)`, with the rounds left.
unfoldable pub swap_words : ℕ → ℕ → List ℕ → Result (List ℕ)
swap_words zero i words = ok words
swap_words (suc left) i words = do
  w ← load words (pos i)
  words' ← store words (pos i) (swap_bytes w)
  swap_words left (i + 1) words'

-- The exchange of the first two words.
unfoldable pub exchange : List ℕ → Result (List ℕ)
exchange words = do
  tmp ← load words (pos 0)
  second ← load words (pos 1)
  words' ← store words (pos 0) second
  store words' (pos 1) tmp

-- `for (i...) registers[start_idx + i] = words[i]`, with the rounds left.
unfoldable pub copy_words : ℕ → ℕ → ℤ → List ℕ → List ℕ → Result (List ℕ)
copy_words zero i start words registers = ok registers
copy_words (suc left) i start words registers = do
  w ← load words (pos i)
  registers' ← store registers (start +ℤ pos i) w
  copy_words left (i + 1) start words registers'

abbrev pub is_swap : ByteOrder → Bool
is_swap order_swap = true
is_swap _ = false

abbrev pub is_be : ByteOrder → Bool
is_be order_be = true
is_be _ = false

-- The register array as the call leaves it; the caller's words are its own copy.
unfoldable pub write_registers : ℤ → List ℕ → ℕ → ByteOrder → List ℕ → Result (List ℕ)
write_registers start_idx words count order registers = do
  swapped ← if is_swap order then swap_words count 0 words else ok words
  ordered ← if is_be order && count == 2 then exchange swapped else ok swapped
  copy_words count 0 start_idx ordered registers
