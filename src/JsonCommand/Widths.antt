-- ===== src/JsonCommand/Widths.antt =====
-- How many registers an update takes, and where it therefore succeeds.
use modbus_server.Prelude.{
  ℕ, ◌+◌, ◌≤◌, ◌<◌, ◌≡◌, refl, ◌⊎◌, true, List, arith, length, leb, Bool-cases, inl, inr,
}
use modbus_server.Prelude.Int.{pos}
use modbus_server.Clib.Fault.{ok}
use modbus_server.ByteOrder.{ByteOrder}
use modbus_server.ByteOrder.Layout.{length-arrange}
use modbus_server.Foreign.Cjson.{Cjson}
use modbus_server.JsonCommand.{write_value}
use modbus_server.JsonCommand.Values.{
  Datatype, word16, word32, float32, unknown, datatype_of, IsWide, words_of, written_words,
  write_value_lem, length-written_words,
}

module _ {Item Double : Type 0} (c : Cjson Item Double) where
  -- A value takes at most one register, or it is a number of a datatype of two words.
  width_cases :
      (t : List ℕ) (val : Item) (bo : ByteOrder)
      → (length (written_words c t val bo) ≤ 1)
        ⊎ ((c.is_number val ≡ true) × IsWide t × (length (written_words c t val bo) ≡ 2))
  width_cases t val bo = elim (Bool-cases (c.is_number val)) [
    | inr other ↦ inl (rw other (omega arith))
    | inl number ↦ by_type number (datatype_of t) refl
  ]
    where
      by_type :
          c.is_number val ≡ true
          → (k : Datatype) → datatype_of t ≡ k
          → (length (written_words c t val bo) ≤ 1)
            ⊎ ((c.is_number val ≡ true) × IsWide t × (length (written_words c t val bo) ≡ 2))
      by_type number word16 e =
          inl (rw (number, e) (omega (arith, length-arrange bo (words_of c word16 val))))
      by_type number word32 e = inr (number, inl e, length-written_words c t val bo number (inl e))
      by_type number float32 e = inr (number, inr e, length-written_words c t val bo number (inr e))
      by_type number unknown e =
          inl (rw (number, e) (omega (arith, length-arrange bo (words_of c unknown val))))

  -- A write to a register of the table succeeds, unless it is one of two words at the last one.
  pub write_value-succeeds :
      (t : List ℕ) (val : Item) (bo : ByteOrder) (s : ℕ) (regs : List ℕ)
      → s < length regs
      → ((r : List ℕ) × (write_value c t val bo (pos s) regs ≡ ok r))
        ⊎ ((c.is_number val ≡ true) × IsWide t × (s + 1 ≡ length regs))
  write_value-succeeds t val bo s regs inside =
      elim (Bool-cases (leb (s + length (written_words c t val bo)) (length regs))) [
        | inl fits ↦
            let (r, run, _) = write_value_lem c t val bo s regs (ground arith) in inl (r, run)
        | inr out ↦ elim (width_cases t val bo) [
          | inl narrow ↦ absurd (ground arith)
          | inr (number, wide, two) ↦ inr (number, wide, ground arith)
        ]
      ]
