-- ===== src/Legacy/Words.antt =====
-- `parse_byte_order` and `write_registers` of json-modbus-server.c.
use modbus_server.Prelude.{
  ℕ, zero, suc, ◌+◌, ◌≡◌, refl, ap, ◌&&◌, List, Option, none, some, ◌==◌, if◌then◌else◌,
}
use mathlib.Core.Path.{fun_ext}
use modbus_server.Prelude.Int.{ℤ, pos, ◌+ℤ◌}
use modbus_server.Clib.Fault.{Result, ok, ◌>>=◌}
use modbus_server.Clib.Memory.{load, store}
use modbus_server.Clib.Text.{codes, str_case_eq}
use modbus_server.ByteOrder
use modbus_server.ByteOrder.{ByteOrder, order_le, order_be, order_swap, is_swap, is_be}
use modbus_server.ByteOrder.Words.{swap_bytes}

unfoldable pub parse_byte_order : Option (List ℕ) → ByteOrder
parse_byte_order none = order_le
parse_byte_order (some s) =
    if str_case_eq s (codes "LE")
    then order_le
    else if str_case_eq s (codes "BE")
    then order_be
    else if str_case_eq s (codes "SWAP")
    then order_swap
    else order_le

unfoldable pub swap_words : ℕ → ℕ → List ℕ → Result (List ℕ)
swap_words zero i words = ok words
swap_words (suc left) i words = do
  w ← load words (pos i)
  words' ← store words (pos i) (swap_bytes w)
  swap_words left (i + 1) words'

unfoldable pub copy_words : ℕ → ℕ → ℤ → List ℕ → List ℕ → Result (List ℕ)
copy_words zero i start words registers = ok registers
copy_words (suc left) i start words registers = do
  w ← load words (pos i)
  registers' ← store registers (start +ℤ pos i) w
  copy_words left (i + 1) start words registers'

unfoldable pub exchange : List ℕ → Result (List ℕ)
exchange words = do
  tmp ← load words (pos 0)
  second ← load words (pos 1)
  words' ← store words (pos 0) second
  store words' (pos 1) tmp

-- The registers are those of the global mapping.
unfoldable pub write_registers : ℤ → List ℕ → ℕ → ByteOrder → List ℕ → Result (List ℕ)
write_registers start_idx words count order registers = do
  swapped ← if is_swap order then swap_words count 0 words else ok words
  ordered ← if is_be order && count == 2 then exchange swapped else ok swapped
  copy_words count 0 start_idx ordered registers

swap_words_same : (left i : ℕ) (ws : List ℕ) → swap_words left i ws ≡ ByteOrder.swap_words left i ws
unfolding swap_words ByteOrder.swap_words
swap_words_same zero i ws = refl
swap_words_same (suc left) i ws = ap (◌>>=◌ (load ws (pos i))) (
    fun_ext λ w.
      ap (◌>>=◌ (store ws (pos i) (swap_bytes w)))
        (fun_ext λ ws'. swap_words_same left (i + 1) ws'))

copy_words_same :
    (left i : ℕ) (start : ℤ) (ws regs : List ℕ)
    → copy_words left i start ws regs ≡ ByteOrder.copy_words left i start ws regs
unfolding copy_words ByteOrder.copy_words
copy_words_same zero i start ws regs = refl
copy_words_same (suc left) i start ws regs = ap (◌>>=◌ (load ws (pos i))) (
    fun_ext λ w.
      ap (◌>>=◌ (store regs (start +ℤ pos i) w))
        (fun_ext λ regs'. copy_words_same left (i + 1) start ws regs'))

-- Write_registers of json-modbus-server.c and of byte_order.c give the same result for all
-- arguments.
pub write_registers_same :
    (start : ℤ) (ws : List ℕ) (count : ℕ) (o : ByteOrder) (regs : List ℕ)
    → write_registers start ws count o regs ≡ ByteOrder.write_registers start ws count o regs
unfolding write_registers ByteOrder.write_registers exchange ByteOrder.exchange
write_registers_same start ws count o regs = rw (swap_words_same count 0 ws) (
    ap (◌>>=◌ (if is_swap o then ByteOrder.swap_words count 0 ws else ok ws)) (
      fun_ext λ swapped.
        ap (◌>>=◌ (if is_be o && count == 2 then ByteOrder.exchange swapped else ok swapped))
          (fun_ext λ ordered. copy_words_same count 0 start ordered regs)))

pub parse_byte_order_same :
    (s : Option (List ℕ)) → parse_byte_order s ≡ ByteOrder.parse_byte_order s
unfolding parse_byte_order ByteOrder.parse_byte_order
parse_byte_order_same none = refl
parse_byte_order_same (some s) = refl
