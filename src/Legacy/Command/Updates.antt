-- ===== src/Legacy/Command/Updates.antt =====
-- The data updates of `process_json` of json-modbus-server.c.
use modbus_server.Prelude.{
  ℕ, ◌+◌, ◌^◌, ◌<◌, ◌≤◌, ◌≡◌, refl, ◌∙◌, true, false, List, [], ◌∷◌, ◌++◌, none, some, arith,
  length,
}
use modbus_server.Prelude.Int.{ℤ, pos, ◌+ℤ◌, ◌-ℤ◌}
use modbus_server.Clib.Fault.{ok, fault, null_pointer, out_of_bounds}
use modbus_server.Clib.Text.{codes}
use modbus_server.ByteOrder.{ByteOrder}
use modbus_server.ByteOrder.Layout.{Written}
use modbus_server.Foreign.Cjson.{Cjson}
use modbus_server.Foreign.Mapping.{Mapping, IsSized}
use modbus_server.JsonCommand.{updated, order_text}
use modbus_server.JsonCommand.Values.{
  IsWide, written_words, length-written_words, write_value_lem, write_value_outside,
}
use modbus_server.JsonCommand.Update.{IsUpdate}
use modbus_server.Legacy.{Server}
use modbus_server.Legacy.Words.{parse_byte_order_same}
use modbus_server.Legacy.Command.{
  int_add, is_out_of_range, update_table, update_checked, update_address, update_command,
  process_json,
}
use modbus_server.Legacy.Command.Changes.{write_typed_same}

-- The text is a data update and no command by name.
pub record IsLine {Item Double : Type 0} (c : Cjson Item Double) (json t : List ℕ) (a : ℤ)
    (bo : ByteOrder) (val : Item) : Type 0 where
  pub update : IsUpdate c json t a bo val
  pub no_cmd : c.object_item_case_sensitive update.root (codes "cmd") ≡ none

-- The `k`-th of the holding registers that the settings name has the address `a`.
pub record IsAt {W : Type 0} (s : Server W) (k : ℕ) (a : ℤ) : Type 0 where
  pub first : ℕ
  pub count : ℕ
  pub starts : s.settings.config.holding_regs_start ≡ pos first
  pub counts : s.settings.config.nb_holding_regs ≡ pos count
  pub inside : k < count
  pub fits_int : first + count < 2 ^ 31
  pub address : a ≡ pos (first + k)

module _ {Item Double W : Type 0} (c : Cjson Item Double) where
  process_json-address :
      {json t : List ℕ} {a : ℤ} {bo : ByteOrder} {val : Item} (s : Server W)
      (u : IsLine c json t a bo val)
      → process_json c json s
        ≡ update_address c u.update.addr u.update.datatype u.update.order_it val s
  unfolding process_json update_command
  process_json-address s u = let v = u.update in ground (arith, u.no_cmd)

  -- A well-formed update of a holding register reaches the tables.
  process_json-checked :
      {json t : List ℕ} {a : ℤ} {bo : ByteOrder} {val : Item} (k : ℕ) (s : Server W)
      (u : IsLine c json t a bo val)
      → IsAt s k a
      → process_json c json s
        ≡ update_checked c false u.update.addr u.update.datatype u.update.order_it val s
  unfolding update_address is_out_of_range int_add ◌+ℤ◌
  process_json-checked k s u at =
      process_json-address s u
      ∙ rw (u.update.address, at.starts, at.counts, at.address)
          (ground (arith, at.inside, at.fits_int))

  -- The server that a write leaves behind.
  abbrev pub after_write : Server W → Mapping → List ℕ → ℤ → List ℕ → Server W
  after_write s m r a t = record s {
    backend = record s.backend { mapping = some (record m { tab_registers = r }) };
    printed = s.printed ++ updated a t ∷ [];
  }

  -- In json-modbus-server.c, a well-formed update of a holding register in a server without tables
  -- dereferences the null pointer.
  pub process_json_before_start :
      {json t : List ℕ} {a : ℤ} {bo : ByteOrder} {val : Item} (k : ℕ) (s : Server W)
      → IsLine c json t a bo val
      → IsAt s k a
      → s.backend.mapping ≡ none
      → process_json c json s ≡ fault null_pointer
  unfolding update_checked
  process_json_before_start k s u at missing = process_json-checked k s u at ∙ rw missing refl

  index_lem :
      {json t : List ℕ} {a : ℤ} {bo : ByteOrder} {val : Item} (k : ℕ) (s : Server W)
      (u : IsLine c json t a bo val)
      → IsAt s k a
      → c.valueint u.update.addr -ℤ s.settings.config.holding_regs_start ≡ pos k
  unfolding ◌-ℤ◌
  index_lem k s u at = rw (u.update.address, at.starts, at.address) (ground arith)

  -- In json-modbus-server.c, a well-formed update of the k-th holding register that the settings
  -- name, in a server with a sized mapping in which the words fit, writes the words of the value
  -- from register k of the table on and nothing else, and reports the address and the datatype.
  pub process_json_writes :
      {json t : List ℕ} {a : ℤ} {bo : ByteOrder} {val : Item} (k : ℕ) (s : Server W) (m : Mapping)
      → IsLine c json t a bo val
      → IsAt s k a
      → s.backend.mapping ≡ some m
      → IsSized m
      → k < length m.tab_registers
      → k + length (written_words c t val bo) ≤ length m.tab_registers
      → (r : List ℕ) × (process_json c json s ≡ ok (after_write s m r a t))
        × Written k (written_words c t val bo) m.tab_registers r
  unfolding update_checked update_table
  process_json_writes {t} {a} {bo} {val} k s m u at here sized inside fits =
      let (r, run, w) = write_value_lem c t val bo k m.tab_registers fits in
      (
        r,
        process_json-checked k s u at
            ∙ rw
                (
                  here,
                  index_lem k s u at,
                  sized,
                  u.update.text,
                  u.update.address,
                  parse_byte_order_same (order_text c u.update.order_it),
                  u.update.order,
                  write_typed_same c t val bo (pos k) m.tab_registers,
                )
                (ground arith),
        w,
      )

  -- In json-modbus-server.c, a well-formed update with a number for a 32-bit or float datatype at
  -- the last register of a sized mapping writes outside the table.
  pub process_json_overruns :
      {json t : List ℕ} {a : ℤ} {bo : ByteOrder} {val : Item} (k : ℕ) (s : Server W) (m : Mapping)
      → IsLine c json t a bo val
      → IsAt s k a
      → s.backend.mapping ≡ some m
      → IsSized m
      → c.is_number val ≡ true
      → IsWide t
      → k + 1 ≡ length m.tab_registers
      → process_json c json s ≡ fault out_of_bounds
  unfolding update_checked update_table
  process_json_overruns {t} {a} {bo} {val} k s m u at here sized number wide last =
      process_json-checked k s u at
      ∙ rw
          (
            here,
            index_lem k s u at,
            sized,
            u.update.text,
            u.update.address,
            parse_byte_order_same (order_text c u.update.order_it),
            u.update.order,
            write_typed_same c t val bo (pos k) m.tab_registers,
          )
          (ground (
            arith,
            write_value_outside c t val bo k m.tab_registers,
            length-written_words c t val bo number wide,
          ))
