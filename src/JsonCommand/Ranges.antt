-- ===== src/JsonCommand/Ranges.antt =====
-- The words that an update writes have 16 bits.
use modbus_server.Prelude.{ℕ, ◌≡◌, List, arith, Bool-cases, inl, inr, sym, subst, ◌∙◌}
use modbus_server.Prelude.Int.{ℤ}
use modbus_server.Clib.Fault.{ok, Holds}
use modbus_server.Clib.Memory.{IsWord, IsWords, store-IsWords}
use modbus_server.Clib.Word.{to_u16, to_u32, to_u16-lt}
use modbus_server.ByteOrder.{ByteOrder, order_le, order_be, order_swap}
use modbus_server.ByteOrder.Words.{swap_bytes-lt}
use modbus_server.ByteOrder.Ranges.{write_registers-IsWords}
use modbus_server.Foreign.Cjson.{Cjson}
use modbus_server.JsonCommand.{order_word, write_value}
use modbus_server.JsonCommand.Values.{
  Datatype, word16, word32, float32, unknown, datatype_of, digits16, dispatch, write_value-dispatch,
}

module _ {Item Double : Type 0} (c : Cjson Item Double) where
  order_word-IsWord : (bo : ByteOrder) (w : ℕ) → IsWord w → IsWord (order_word bo w)
  unfolding order_word
  order_word-IsWord order_le w h = h
  order_word-IsWord order_be w h = h
  order_word-IsWord order_swap w h = swap_bytes-lt w h

  digits16-IsWords : (u : ℕ) → IsWords (digits16 u)
  digits16-IsWords u = (omega arith, (omega arith, tt))

  dispatch-IsWords :
      (k : Datatype) (val : Item) (bo : ByteOrder) (idx : ℤ) (regs : List ℕ) {r : List ℕ}
      → IsWords regs
      → dispatch c k val bo idx regs ≡ ok r
      → IsWords r
  unfolding dispatch
  dispatch-IsWords word16 val bo idx regs h e =
      let v = c.valueint val in
      store-IsWords regs idx _ h (order_word-IsWord bo (to_u16 v) (to_u16-lt v)) e
  dispatch-IsWords word32 val bo idx regs h e =
      write_registers-IsWords idx _ 2 bo regs (digits16-IsWords (to_u32 (c.valueint val))) h e
  dispatch-IsWords float32 val bo idx regs h e =
      write_registers-IsWords idx _ 2 bo regs (digits16-IsWords (c.float_bits (c.valuedouble val)))
        h e
  dispatch-IsWords unknown val bo idx regs h e = subst (Holds IsWords) e h

  -- However the write goes, a table of 16-bit words stays one.
  pub write_value-IsWords :
      (t : List ℕ) (val : Item) (bo : ByteOrder) (idx : ℤ) (regs : List ℕ) {r : List ℕ}
      → IsWords regs
      → write_value c t val bo idx regs ≡ ok r
      → IsWords r
  write_value-IsWords t val bo idx regs {r} h e = elim (Bool-cases (c.is_number val)) [
    | inl number ↦
        dispatch-IsWords (datatype_of t) val bo idx regs h
          (rw number at (sym (write_value-dispatch c t val bo idx regs) ∙ e))
    | inr other ↦
        subst (Holds IsWords) (rw other at (sym (write_value-dispatch c t val bo idx regs) ∙ e)) h
  ]
