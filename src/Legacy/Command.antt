-- ===== src/Legacy/Command.antt =====
-- `process_json` of json-modbus-server.c.
pub mod Changes
pub mod Outcomes
pub mod Updates
pub mod Sessions
pub mod Agreement
pub mod Faults
mod Tests
use modbus_server.Prelude.{
  ℕ, ◌+◌, ◌-◌, ◌^◌, Bool, true, false, ◌&&◌, ◌||◌, List, [], ◌∷◌, ◌++◌, Option, none, some, ltb,
  if◌then◌else◌,
}
use modbus_server.Prelude.Int.{ℤ, pos, negsuc, minus_one, ltb_ℤ, leb_ℤ, ◌+ℤ◌, ◌-ℤ◌}
use modbus_server.Clib.Fault.{Result, ok, fault, int_overflow, ◌>>=◌, deref}
use modbus_server.Clib.Memory.{store}
use modbus_server.Clib.Word.{to_u16, to_s16, to_u32, to_s32}
use modbus_server.Clib.Text.{codes, str_eq}
use modbus_server.ByteOrder.{ByteOrder}
use modbus_server.Foreign.Cjson.{Cjson, test}
use modbus_server.Foreign.Mapping.{Mapping}
use modbus_server.JsonCommand.{
  ServerState, state_stopped, state_running, Reply, stopping, already_running, starting, status_is,
  address_out_of_range, index_out_of_bounds, updated, order_word, split_words, order_text,
}
use modbus_server.Legacy.{Settings, Server}
use modbus_server.Legacy.Words.{parse_byte_order, write_registers}

-- A sum of two `int`, which must fit.
unfoldable pub int_add : ℤ → ℤ → Result ℤ
int_add a b =
    let sum = a +ℤ b in
    if leb_ℤ (negsuc (2 ^ 31 - 1)) sum && ltb_ℤ sum (pos (2 ^ 31))
    then ok sum
    else fault int_overflow

-- `addr_val < holding_regs_start || addr_val >= holding_regs_start + nb_holding_regs`
unfoldable pub is_out_of_range : ℤ → ℤ → ℤ → Result Bool
is_out_of_range addr start nb =
    if ltb_ℤ addr start then ok true else do last ← int_add start nb; ok (leb_ℤ last addr)

abbrev print : {W : Type 0} → Reply → Server W → Server W
print line s = record s { printed = s.printed ++ line ∷ [] }

module _ {Item Double : Type 0} (c : Cjson Item Double) where
  -- The branches on the datatype: the registers after the write.
  unfoldable pub write_typed : List ℕ → Item → ByteOrder → ℤ → List ℕ → Result (List ℕ)
  write_typed datatype val bo idx regs =
      if str_eq datatype (codes "uint16") && c.is_number val
      then store regs idx (order_word bo (to_u16 (c.valueint val)))
      else if str_eq datatype (codes "int16") && c.is_number val
      then store regs idx (order_word bo (to_u16 (to_s16 (c.valueint val))))
      else if (str_eq datatype (codes "uint32") || str_eq datatype (codes "int32"))
          && c.is_number val
      then (let u =
            if str_eq datatype (codes "int32")
            then to_u32 (to_s32 (c.valueint val))
            else to_u32 (c.valueint val) in
          write_registers idx (split_words u) 2 bo regs)
      else if str_eq datatype (codes "float") && c.is_number val
      then write_registers idx (split_words (c.float_bits (c.valuedouble val))) 2 bo regs
      else ok regs

module _ {Item Double W : Type 0} (c : Cjson Item Double) where
  -- From the check of the index on.
  unfoldable pub update_table :
      Mapping → Item → Item → Option Item → Item → Server W → Result (Server W)
  update_table m addr datatype order_it val s =
      let addr_val = c.valueint addr in
      let idx = addr_val -ℤ s.settings.config.holding_regs_start in
      if ltb_ℤ idx (pos 0) || leb_ℤ m.nb_registers idx then ok (print index_out_of_bounds s) else do
        text ← deref (c.valuestring datatype)
        regs ← write_typed c text val (parse_byte_order (order_text c order_it)) idx m.tab_registers
        ok (record s {
          backend = record s.backend { mapping = some (record m { tab_registers = regs }) };
          printed = s.printed ++ updated addr_val text ∷ [];
        })

  -- The address is outside the range, or it is looked up in the table.
  unfoldable pub update_checked :
      Bool → Item → Item → Option Item → Item → Server W → Result (Server W)
  update_checked true addr datatype order_it val s =
      ok (print (address_out_of_range (c.valueint addr)) s)
  update_checked false addr datatype order_it val s = do
    m ← deref s.backend.mapping
    update_table m addr datatype order_it val s

  -- From the check of the address on.
  unfoldable pub update_address : Item → Item → Option Item → Item → Server W → Result (Server W)
  update_address addr datatype order_it val s =
      let config = s.settings.config in
      do
        out ← is_out_of_range (c.valueint addr) config.holding_regs_start config.nb_holding_regs
        update_checked out addr datatype order_it val s

  -- The check of the items that the command names.
  unfoldable pub update_command :
      Option Item
      → Option Item
      → Option Item
      → Option Item
      → Option Item
      → Server W
      → Result (Server W)
  update_command type (some addr) (some datatype) order_it (some val) s =
      if test c c.is_string type && (c.is_number addr && c.is_string datatype)
      then update_address addr datatype order_it val s
      else ok s
  update_command type _ _ order_it _ s = ok s

  abbrev pub update_root : Item → Server W → Result (Server W)
  update_root root s =
      let item = c.object_item_case_sensitive root in
      update_command (item (codes "type")) (item (codes "address")) (item (codes "datatype"))
        (item (codes "byte_order")) (item (codes "value")) s

  unfoldable pub run_cmd : List ℕ → Item → Server W → Result (Server W)
  run_cmd cmd root s =
      if str_eq cmd (codes "stop")
      then ok (record s {
        state = state_stopped;
        running = false;
        printed = s.printed ++ stopping ∷ [];
      })
      else if str_eq cmd (codes "start")
      then ok (elim s.state [
        | state_running ↦ print already_running s
        | state_stopped ↦ record s { state = state_running; printed = s.printed ++ starting ∷ [] }
      ])
      else if str_eq cmd (codes "status")
      then ok (print (status_is s.state) s)
      else update_root root s

  unfoldable pub process_json : List ℕ → Server W → Result (Server W)
  process_json json_str s = elim (c.parse json_str) [
    | none ↦ ok s
    | some root ↦ elim (c.object_item_case_sensitive root (codes "cmd")) [
      | none ↦ update_root root s
      | some cmd ↦
          if c.is_string cmd
          then (deref (c.valuestring cmd) >>= λ text. run_cmd text root s)
          else update_root root s
    ]
  ]
