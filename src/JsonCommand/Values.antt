-- ===== src/JsonCommand/Values.antt =====
-- What an update writes for each datatype: the words of the value in the order asked for, or none.
use modbus_server.Prelude.{
  ℕ, ◌+◌, ◌-◌, ◌/◌, ◌%◌, ◌≤◌, ◌<◌, ◌≡◌, refl, ap, ◌⊎◌, ◌==◌, true, ◌||◌, List, [], ◌∷◌, arith,
  length, get_elem?, set, length-set, get_elem?-set_self, get_elem?-set_ne, if◌then◌else◌,
  Bool-cases, inl, inr,
}
use modbus_server.Prelude.Int.{ℤ, pos}
use modbus_server.Clib.Fault.{Result, ok, fault, out_of_bounds}
use modbus_server.Clib.Memory.{store, store_in_bounds, store-length}
use modbus_server.Clib.Word.{to_u16, to_u32, to_u16-to_s16, to_u32-to_s32}
use modbus_server.Clib.Text.{codes, str_eq}
use modbus_server.ByteOrder.{ByteOrder, order_le, order_be, order_swap, write_registers}
use modbus_server.ByteOrder.Layout.{
  Written, arrange, length-arrange, write_registers_lem, write_registers_outside,
  write_registers-length,
}
use modbus_server.Foreign.Cjson.{Cjson}
use modbus_server.JsonCommand.{order_word, split_words, write_value}

pub data Datatype : Type 0 where
  word16 word32 float32 unknown : Datatype

-- The datatype that a name stands for. Signed and unsigned are written alike.
abbrev pub datatype_of : List ℕ → Datatype
datatype_of t =
    if str_eq t (codes "uint16") || str_eq t (codes "int16")
    then word16
    else if str_eq t (codes "uint32") || str_eq t (codes "int32")
    then word32
    else if str_eq t (codes "float")
    then float32
    else unknown

-- The two lowest digits of a number to the base 65536, the lowest first.
abbrev pub digits16 : ℕ → List ℕ
digits16 u = (u % 65536) ∷ (u / 65536 % 65536) ∷ []

-- The datatypes of two words.
abbrev pub IsWide : List ℕ → Type 0
IsWide t = (datatype_of t ≡ word32) ⊎ (datatype_of t ≡ float32)

module _ {Item Double : Type 0} (c : Cjson Item Double) where
  -- The words of a number, lowest first, before they are put in order.
  abbrev pub words_of : Datatype → Item → List ℕ
  words_of word16 val = to_u16 (c.valueint val) ∷ []
  words_of word32 val = digits16 (to_u32 (c.valueint val))
  words_of float32 val = digits16 (c.float_bits (c.valuedouble val))
  words_of unknown val = []

  -- The words that an update writes.
  abbrev pub written_words : List ℕ → Item → ByteOrder → List ℕ
  written_words t val bo = if c.is_number val then arrange bo (words_of (datatype_of t) val) else []

set-Written : (s w : ℕ) (regs : List ℕ) → s < length regs → Written s (w ∷ []) regs (set regs s w)
set-Written s w regs h = (
  length-set regs s w,
  λ j. elim (Bool-cases (s == j)) [
    | inl same ↦
        ground (arith, get_elem?-set_self regs s w h, ap (get_elem? (w ∷ [])) (sub_self s j same))
    | inr other ↦ ground (arith, get_elem?-set_ne regs {i = s} {j = j} w)
  ],
)
  where
    sub_self : (s j : ℕ) → (s == j) ≡ true → j - s ≡ 0
    sub_self s j e = ground arith

arrange_one : (w : ℕ) (bo : ByteOrder) → arrange bo (w ∷ []) ≡ order_word bo w ∷ []
unfolding order_word
arrange_one w order_le = refl
arrange_one w order_be = refl
arrange_one w order_swap = refl

module _ {Item Double : Type 0} (c : Cjson Item Double) where
  -- The branches by the datatype alone.
  unfoldable pub dispatch : Datatype → Item → ByteOrder → ℤ → List ℕ → Result (List ℕ)
  dispatch word16 val bo idx regs = store regs idx (order_word bo (to_u16 (c.valueint val)))
  dispatch word32 val bo idx regs = write_registers idx (words_of c word32 val) 2 bo regs
  dispatch float32 val bo idx regs = write_registers idx (words_of c float32 val) 2 bo regs
  dispatch unknown val bo idx regs = ok regs

  pub write_value-dispatch :
      (t : List ℕ) (val : Item) (bo : ByteOrder) (idx : ℤ) (regs : List ℕ)
      → write_value c t val bo idx regs
        ≡ (if c.is_number val then dispatch (datatype_of t) val bo idx regs else ok regs)
  unfolding write_value dispatch split_words
  write_value-dispatch t val bo idx regs =
      rw (to_u16-to_s16 (c.valueint val), to_u32-to_s32 (c.valueint val)) (ground arith)

  dispatch_lem :
      (k : Datatype) (val : Item) (bo : ByteOrder) (s : ℕ) (regs : List ℕ)
      → s + length (arrange bo (words_of c k val)) ≤ length regs
      → (r : List ℕ) × (dispatch k val bo (pos s) regs ≡ ok r)
        × Written s (arrange bo (words_of c k val)) regs r
  unfolding dispatch
  dispatch_lem word16 val bo s regs h =
      let w = to_u16 (c.valueint val) in
      let fits : s < length regs = omega (arith, ap length (arrange_one w bo)) in
      (
        set regs s (order_word bo w),
        store_in_bounds regs s (order_word bo w) fits,
        rw (arrange_one w bo) (set-Written s (order_word bo w) regs fits),
      )
  dispatch_lem word32 val bo s regs h =
      write_registers_lem bo s (words_of c word32 val) regs
        (omega (arith, length-arrange bo (words_of c word32 val)))
  dispatch_lem float32 val bo s regs h =
      write_registers_lem bo s (words_of c float32 val) regs
        (omega (arith, length-arrange bo (words_of c float32 val)))
  dispatch_lem unknown val bo s regs h = (regs, refl, arrange_none)
    where
      arrange_none : Written s (arrange bo []) regs regs
      arrange_none = (refl, λ j. ground (arith, length-arrange bo []))

  -- Where the words fit, an update of any datatype, order and value succeeds; the registers from
  -- the index on hold the words of the value in that order, and nothing else changes. For a value
  -- that is no number, or an unknown datatype, nothing changes at all.
  pub write_value_lem :
      (t : List ℕ) (val : Item) (bo : ByteOrder) (s : ℕ) (regs : List ℕ)
      → s + length (written_words c t val bo) ≤ length regs
      → (r : List ℕ) × (write_value c t val bo (pos s) regs ≡ ok r)
        × Written s (written_words c t val bo) regs r
  write_value_lem t val bo s regs h = elim (Bool-cases (c.is_number val)) [
    | inl number ↦
        rw (write_value-dispatch t val bo (pos s) regs, number)
          (dispatch_lem (datatype_of t) val bo s regs (rw number at h))
    | inr other ↦
        rw (write_value-dispatch t val bo (pos s) regs, other)
          (regs, refl, (refl, λ j. ground arith))
  ]

  dispatch_outside :
      (k : Datatype) (val : Item) (bo : ByteOrder) (s : ℕ) (regs : List ℕ)
      → length regs < s + length (arrange bo (words_of c k val))
      → s < length regs
      → dispatch k val bo (pos s) regs ≡ fault out_of_bounds
  unfolding dispatch
  dispatch_outside word16 val bo s regs h inside =
      absurd (omega (arith, length-arrange bo (words_of c word16 val)))
  dispatch_outside word32 val bo s regs h inside =
      write_registers_outside bo s (words_of c word32 val) regs (omega arith)
        (omega (arith, length-arrange bo (words_of c word32 val)))
  dispatch_outside float32 val bo s regs h inside =
      write_registers_outside bo s (words_of c float32 val) regs (omega arith)
        (omega (arith, length-arrange bo (words_of c float32 val)))
  dispatch_outside unknown val bo s regs h inside =
      absurd (omega (arith, length-arrange bo (words_of c unknown val)))

  -- Where the words do not fit behind a register of the table, the update writes outside it.
  pub write_value_outside :
      (t : List ℕ) (val : Item) (bo : ByteOrder) (s : ℕ) (regs : List ℕ)
      → s < length regs
      → length regs < s + length (written_words c t val bo)
      → write_value c t val bo (pos s) regs ≡ fault out_of_bounds
  write_value_outside t val bo s regs inside h = elim (Bool-cases (c.is_number val)) [
    | inl number ↦
        rw (write_value-dispatch t val bo (pos s) regs, number)
          (dispatch_outside (datatype_of t) val bo s regs (rw number at h) inside)
    | inr other ↦ absurd (ground arith)
  ]

  -- A number of such a datatype takes two registers.
  pub length-written_words :
      (t : List ℕ) (val : Item) (bo : ByteOrder)
      → c.is_number val ≡ true
      → IsWide t
      → length (written_words c t val bo) ≡ 2
  length-written_words t val bo number (inl wide) =
      rw (number, wide) (length-arrange bo (words_of c word32 val))
  length-written_words t val bo number (inr wide) =
      rw (number, wide) (length-arrange bo (words_of c float32 val))

  -- However the write goes, the table keeps its length.
  pub write_value-length :
      (t : List ℕ) (val : Item) (bo : ByteOrder) (idx : ℤ) (regs : List ℕ) {r : List ℕ}
      → write_value c t val bo idx regs ≡ ok r
      → length r ≡ length regs
  unfolding write_value
  write_value-length t val bo idx regs {r} e = grind (arith, store-length, write_registers-length)
