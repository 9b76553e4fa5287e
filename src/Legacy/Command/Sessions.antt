-- ===== src/Legacy/Command/Sessions.antt =====
-- What json_command.c sees of a server of json-modbus-server.c: the lines and results beside each
-- other, and the write of a value.
use mathlib.Core.List.{map-append, append-nil}
use modbus_server.Prelude.{
  ℕ, ◌^◌, ◌<◌, ◌≡◌, ap, ◌||◌, List, [], ◌∷◌, ◌++◌, map, Option, some, arith,
}
use modbus_server.Prelude.Int.{ℤ, pos, minus_one, ltb_ℤ, leb_ℤ, ◌+ℤ◌, ◌-ℤ◌}
use modbus_server.Clib.Fault.{Result, ok, ◌>>=◌, bind_both}
use modbus_server.Foreign.Cjson.{Cjson}
use modbus_server.Foreign.Mapping.{Mapping}
use modbus_server.JsonCommand.{
  Reply, address_out_of_range, index_out_of_bounds_at, updated, order_text, Session, Updated,
  write_value,
}
use modbus_server.Legacy.{Server}
use modbus_server.ByteOrder.{parse_byte_order}
use modbus_server.Legacy.Words
use modbus_server.Legacy.Words.{parse_byte_order_same}
use modbus_server.Legacy.Command.{int_add, is_out_of_range, write_typed}
use modbus_server.Legacy.Command.Changes.{write_typed_same}

-- The line for an address outside the table differs.
abbrev pub plain_line : Reply → Reply
plain_line (address_out_of_range a) = index_out_of_bounds_at a
plain_line line = line

-- What json_command.c sees of a server.
abbrev pub session : {W : Type 0} → Server W → Session
session s = record {
  backend = some s.backend;
  state = s.state;
  running = s.running;
  printed = map plain_line s.printed;
}

-- The addresses are the indices of a table that is there.
pub record IsPlainly {W : Type 0} (s : Server W) (m : Mapping) : Type 0 where
  pub count : ℕ
  pub here : s.backend.mapping ≡ some m
  pub starts : s.settings.config.holding_regs_start ≡ pos 0
  pub counts : s.settings.config.nb_holding_regs ≡ pos count
  pub sized : m.nb_registers ≡ pos count
  pub fits_int : count < 2 ^ 31

-- A line is printed in both programs.
pub session-print :
    {W : Type 0} (s : Server W) (line : Reply)
    → session (record s { printed = s.printed ++ line ∷ [] })
      ≡ record (session s) { printed = (session s).printed ++ plain_line line ∷ [] }
session-print s line =
    ap (λ p. record (session s) { printed = p }) (map-append plain_line s.printed (line ∷ []))

pub is_out_of_range_lem :
    (a : ℤ) (n : ℕ)
    → n < 2 ^ 31
    → is_out_of_range a (pos 0) (pos n) ≡ ok (ltb_ℤ a (pos 0) || leb_ℤ (pos n) a)
unfolding is_out_of_range int_add ◌+ℤ◌
is_out_of_range_lem a n h = ground arith

pub minus_zero : (a : ℤ) → a -ℤ pos 0 ≡ a
unfolding ◌-ℤ◌
minus_zero a = ground arith

-- What a run of process_json comes to for json_command.c.
abbrev pub shown : {W : Type 0} → Result (Server W) → Result Session
shown r = r >>= λ s. ok (session s)

-- What json_command_process makes of an update.
abbrev pub reported : Session → Result Updated → Result Session
reported s r = r >>= λ u. ok (record s { backend = u.backend; printed = s.printed ++ u.printed })

pub reported_nothing :
    (s : Session)
    → reported s (ok (record { status = minus_one; backend = s.backend; printed = [] })) ≡ ok s
reported_nothing s = ap (λ p. ok (record s { printed = p })) (append-nil s.printed)

module _ {Item Double W : Type 0} (c : Cjson Item Double) where
  pub write_same :
      (m : Mapping) (a : ℤ) (text : List ℕ) (order_it : Option Item) (val : Item) (s : Server W)
      → shown (
          write_typed c text val (Words.parse_byte_order (order_text c order_it)) a m.tab_registers
          >>= λ regs. ok (record s {
            backend = record s.backend { mapping = some (record m { tab_registers = regs }) };
            printed = s.printed ++ updated a text ∷ [];
          }))
        ≡ reported (session s) (
            write_value c text val (parse_byte_order (order_text c order_it)) a m.tab_registers
            >>= λ regs. ok (record {
              status = pos 0;
              backend =
                  some (record s.backend { mapping = some (record m { tab_registers = regs }) });
              printed = updated a text ∷ [];
            }))
  write_same m a text order_it val s =
      rw
        (
          parse_byte_order_same (order_text c order_it),
          write_typed_same c text val (parse_byte_order (order_text c order_it)) a m.tab_registers,
        )
        (bind_both
          (write_value c text val (parse_byte_order (order_text c order_it)) a m.tab_registers) _ _
          _ _
          (λ regs.
            ap
              (λ p. ok (record {
                backend =
                    some (record s.backend { mapping = some (record m { tab_registers = regs }) });
                state = s.state;
                running = s.running;
                printed = p;
              }))
              (map-append plain_line s.printed (updated a text ∷ []))))
