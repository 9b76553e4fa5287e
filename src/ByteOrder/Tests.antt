-- ===== src/ByteOrder/Tests.antt =====
-- Runs of the byte-order functions, and the theorems at concrete inputs.
use modbus_server.Prelude.{ℕ, ◌+◌, ◌*◌, ◌^◌, ◌≡◌, refl, List, [], ◌∷◌, some, arith, get_elem?}
use modbus_server.Prelude.Int.{pos, ◌+ℤ◌}
use modbus_server.Clib.Fault.{ok, fault, out_of_bounds}
use modbus_server.Clib.Memory.{load, store}
use modbus_server.ByteOrder.{
  order_le, order_be, order_swap, swap_words, copy_words, write_registers,
}
use modbus_server.ByteOrder.Words.{swap_bytes}
use modbus_server.ByteOrder.Layout.{
  Written, write_registers_lem, write_registers_outside, value_of, write_registers-value_of,
}

abbrev registers : List ℕ
registers = 1 ∷ 2 ∷ 3 ∷ 4 ∷ []

swapped_words :
    write_registers (pos 1) (0x1234 ∷ 0x5678 ∷ []) 2 order_swap registers
    ≡ ok (1 ∷ 0x3412 ∷ 0x7856 ∷ 4 ∷ [])
unfolding write_registers swap_words copy_words load store swap_bytes ◌+ℤ◌
swapped_words = refl

write_registers_lem_example :
    (r : List ℕ) × (write_registers (pos 1) (0x1234 ∷ 0x5678 ∷ []) 2 order_be registers ≡ ok r)
    × Written 1 (0x5678 ∷ 0x1234 ∷ []) registers r
write_registers_lem_example =
    write_registers_lem order_be 1 (0x1234 ∷ 0x5678 ∷ []) registers (omega arith)

write_registers_outside_example :
    write_registers (pos 3) (0x1234 ∷ 0x5678 ∷ []) 2 order_le registers ≡ fault out_of_bounds
write_registers_outside_example =
    write_registers_outside order_le 3 (0x1234 ∷ 0x5678 ∷ []) registers (omega arith) (omega arith)

write_registers-value_of_example :
    (r : List ℕ) × (a : ℕ) × (b : ℕ) × (write_registers
        (pos 2)
        (0x1234 ∷ 0x5678 ∷ [])
        2
        order_swap
        registers
      ≡ ok r)
    × (get_elem? r 2 ≡ some a)
    × (get_elem? r (2 + 1) ≡ some b)
    × (value_of order_swap a b ≡ 0x5678 * 2 ^ 16 + 0x1234)
write_registers-value_of_example =
    write_registers-value_of order_swap 2 0x1234 0x5678 registers (omega arith) (omega arith)
      (omega arith)
