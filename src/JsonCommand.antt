-- ===== src/JsonCommand.antt =====
-- src/json/json_command.c and json_command.h: the commands that arrive on the standard input.
pub mod Values
pub mod Ranges
pub mod Widths
pub mod Faults
pub mod Update
pub mod Control
mod Tests
use modbus_server.Prelude.{
  ℕ, ◌/◌, ◌%◌, ◌^◌, Bool, true, false, not, ◌&&◌, ◌||◌, List, [], ◌∷◌, ◌++◌, Option, none, some,
  if◌then◌else◌,
}
use modbus_server.Prelude.Int.{ℤ, pos, minus_one, ltb_ℤ, leb_ℤ}
use modbus_server.Clib.Fault.{Result, ok, fault, ◌>>=◌, deref}
use modbus_server.Clib.Memory.{store}
use modbus_server.Clib.Word.{to_u16, to_s16, to_u32, to_s32}
use modbus_server.Clib.Text.{codes, str_eq}
use modbus_server.ByteOrder.{ByteOrder, is_swap, parse_byte_order, write_registers}
use modbus_server.ByteOrder.Words.{swap_bytes}
use modbus_server.Foreign.Cjson.{Cjson, test}
use modbus_server.Foreign.Mapping.{Mapping}
use modbus_server.Backend.{Backend}

pub data ServerState : Type 0 where
  state_stopped state_running : ServerState

-- The lines that the program prints for its parent process, one constructor for each format.
pub data Reply : Type 0 where
  stopping already_running starting : Reply
  status_is : ServerState → Reply
  address_out_of_range : ℤ → Reply
  index_out_of_bounds : Reply
  index_out_of_bounds_at : ℤ → Reply
  updated : ℤ → List ℕ → Reply
  ready server_stopped exited : Reply
  server_ready : Bool → Bool → ℤ → Reply

-- `if (bo == ORDER_SWAP) v = (v >> 8) | (v << 8)`
unfoldable pub order_word : ByteOrder → ℕ → ℕ
order_word bo v = if is_swap bo then swap_bytes v else v

-- `{ (uint16_t)(u & 0xFFFF), (uint16_t)(u >> 16) }`
unfoldable pub split_words : ℕ → List ℕ
split_words u = (u % 2 ^ 16) ∷ (u / 2 ^ 16 % 2 ^ 16) ∷ []

-- What `json_command_update_data` returns, prints and leaves behind.
pub record Updated : Type 0 where
  pub status : ℤ
  pub backend : Option Backend
  pub printed : List Reply

-- The variables that `json_command_process` gets by reference, and the lines printed so far.
pub record Session : Type 0 where
  pub backend : Option Backend
  pub state : ServerState
  pub running : Bool
  pub printed : List Reply

module _ {Item Double : Type 0} (c : Cjson Item Double) where
  -- The branches on the datatype: the registers after the write.
  unfoldable pub write_value : List ℕ → Item → ByteOrder → ℤ → List ℕ → Result (List ℕ)
  write_value datatype val bo idx regs =
      if str_eq datatype (codes "uint16") && c.is_number val
      then store regs idx (order_word bo (to_u16 (c.valueint val)))
      else if str_eq datatype (codes "int16") && c.is_number val
      then store regs idx (order_word bo (to_u16 (to_s16 (c.valueint val))))
      else if (str_eq datatype (codes "uint32") || str_eq datatype (codes "int32"))
          && c.is_number val
      then (let u =
            if str_eq datatype (codes "int32")
            then to_u32 (to_s32 (c.valueint val))
            else to_u32 (c.valueint val) in
          write_registers idx (split_words u) 2 bo regs)
      else if str_eq datatype (codes "float") && c.is_number val
      then write_registers idx (split_words (c.float_bits (c.valuedouble val))) 2 bo regs
      else ok regs

  -- `order_it ? order_it->valuestring : "LE"`
  abbrev pub order_text : Option Item → Option (List ℕ)
  order_text none = some (codes "LE")
  order_text (some i) = c.valuestring i

  -- From the check of the index on, for a mapping and items that are there.
  unfoldable pub update_mapping :
      Backend → Mapping → Item → Item → Option Item → Item → Result Updated
  update_mapping b m addr datatype order_it val =
      let addr_val = c.valueint addr in
      if ltb_ℤ addr_val (pos 0) || leb_ℤ m.nb_registers addr_val
      then ok (record {
        status = minus_one;
        backend = some b;
        printed = index_out_of_bounds_at addr_val ∷ [];
      })
      else do
        text ← deref (c.valuestring datatype)
        regs ←
            write_value text val (parse_byte_order (order_text order_it)) addr_val m.tab_registers
        ok (record {
          status = pos 0;
          backend = some (record b { mapping = some (record m { tab_registers = regs }) });
          printed = updated addr_val text ∷ [];
        })

  -- A call that fails its first checks.
  abbrev pub refused : Option Backend → Result Updated
  refused backend = ok (record { status = minus_one; backend = backend; printed = [] })

  -- `!backend || !backend->mapping`, and the rest
  unfoldable pub update_backend : Option Backend → Item → Item → Option Item → Item → Result Updated
  update_backend none addr datatype order_it val = refused none
  update_backend (some b) addr datatype order_it val = elim b.mapping [
    | none ↦ refused (some b)
    | some m ↦ update_mapping b m addr datatype order_it val
  ]

  -- The check of the items that the command names; the type is read for its presence alone.
  unfoldable pub update_items :
      Option Backend
      → Option Item
      → Option Item
      → Option Item
      → Option Item
      → Option Item
      → Result Updated
  update_items backend type (some addr) (some datatype) order_it (some val) =
      if test c c.is_string type && (c.is_number addr && c.is_string datatype)
      then update_backend backend addr datatype order_it val
      else refused backend
  update_items backend type _ _ order_it _ = refused backend

  unfoldable pub json_command_update_data : List ℕ → Option Backend → Result Updated
  unfolding update_items update_backend
  json_command_update_data json_str backend = elim (c.parse json_str) [
    | none ↦ refused backend
    | some root ↦
        let item = c.object_item_case_sensitive root in
        update_items backend (item (codes "type")) (item (codes "address"))
          (item (codes "datatype")) (item (codes "byte_order")) (item (codes "value"))
  ]

  -- The call at the end of `json_command_process`, whose status is dropped.
  abbrev pub process_update : List ℕ → Session → Result Session
  process_update json_str s = do
    u ← json_command_update_data json_str s.backend
    ok (record s { backend = u.backend; printed = s.printed ++ u.printed })

  -- The commands by name; any other name goes on to the update.
  unfoldable pub process_cmd : List ℕ → List ℕ → Session → Result Session
  process_cmd cmd json_str s =
      if str_eq cmd (codes "stop")
      then ok (record s {
        state = state_stopped;
        running = false;
        printed = s.printed ++ stopping ∷ [];
      })
      else if str_eq cmd (codes "start")
      then ok (elim s.state [
        | state_running ↦ record s { printed = s.printed ++ already_running ∷ [] }
        | state_stopped ↦ record s { state = state_running; printed = s.printed ++ starting ∷ [] }
      ])
      else if str_eq cmd (codes "status")
      then ok (record s { printed = s.printed ++ status_is s.state ∷ [] })
      else process_update json_str s

  unfoldable pub json_command_process : List ℕ → Session → Result Session
  unfolding process_cmd
  json_command_process json_str s = elim (c.parse json_str) [
    | none ↦ ok s
    | some root ↦ elim (c.object_item_case_sensitive root (codes "cmd")) [
      | none ↦ process_update json_str s
      | some cmd ↦
          if c.is_string cmd
          then (deref (c.valuestring cmd) >>= λ text. process_cmd text json_str s)
          else process_update json_str s
    ]
  ]
