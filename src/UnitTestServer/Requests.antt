-- ===== src/UnitTestServer/Requests.antt =====
-- The requests that unit-test-server.c answers in a way of its own, to test the client.
use Prim.Native.Nat.{bit_or}
use modbus_server.Prelude.{ℕ, ◌*◌, ◌/◌, ◌%◌, ◌^◌, List, [], ◌∷◌, Option, ◌==◌, if◌then◌else◌}
use modbus_server.Prelude.Int.{ℤ, pos, minus_one, eqb_ℤ, ◌+ℤ◌, ◌-ℤ◌}
use modbus_server.Clib.Fault.{Result, ok, ◌>>=◌}
use modbus_server.Clib.Word.{to_u16}
use modbus_server.Clib.Memory.{load, store}
use modbus_server.Foreign.Modbus.{Modbus}
use modbus_server.Machine.{Env, outside}
use modbus_server.UnitTestServer.{UnitTest, TestCalls, Transport, is_rtu}

abbrev pub fc_read_holding_registers : ℕ
fc_read_holding_registers = 0x03

abbrev pub fc_write_single_coil : ℕ
fc_write_single_coil = 0x05

abbrev pub fc_write_single_register : ℕ
fc_write_single_register = 0x06

abbrev pub exception_slave_or_server_busy : ℕ
exception_slave_or_server_busy = 0x06

-- `MODBUS_GET_INT16_FROM_INT8`
unfoldable pub get_int16 : List ℕ → ℤ → Result ℕ
get_int16 tab index = do
  high ← load tab index
  low ← load tab (index +ℤ pos 1)
  ok (bit_or (high * 2 ^ 8) low)

-- `MODBUS_SET_INT16_TO_INT8`
unfoldable pub set_int16 : List ℕ → ℤ → ℤ → Result (List ℕ)
set_int16 tab index value = do
  tab' ← store tab index (to_u16 value / 2 ^ 8)
  store tab' (index +ℤ pos 1) (to_u16 value % 2 ^ 8)

-- What becomes of a request: it is over, as by `continue`, or it is handed to `modbus_reply` with a
-- length.
pub data Handled (W : Type 0) : Type 0 where
  over : List ℕ → Env W → Handled W
  answer : ℤ → List ℕ → Env W → Handled W

module _ {W : Type 0} (lib : Modbus W) (calls : TestCalls W) (ut : UnitTest) where
  -- The loop that sends an answer byte by byte, until a byte cannot be sent.
  unfoldable pub send_bytes : ℤ → List ℕ → Env W → Env W
  send_bytes w_s [] e = e
  send_bytes w_s (b ∷ bytes) e =
      let (rc, w) = calls.send w_s b (calls.usleep 5000 e.world) in
      let e' = record e { world = w } in
      let rest = send_bytes w_s bytes e' in if eqb_ℤ rc minus_one then e' else rest

  -- `raw_req`
  abbrev pub raw_req : Transport → List ℕ
  raw_req t =
      (if is_rtu t then to_u16 ut.invalid_server_id % 2 ^ 8 else 0xFF)
      ∷ 0x03
      ∷ 0x02
      ∷ 0x00
      ∷ 0x00
      ∷ []

  -- `req`, with the second byte of the request.
  abbrev pub req : ℕ → List ℕ
  req tid = 0x00 ∷ tid ∷ 0x00 ∷ 0x00 ∷ 0x00 ∷ 0x05 ∷ 0xFF ∷ 0x03 ∷ 0x02 ∷ 0x00 ∷ 0x00 ∷ []

  -- The answer is sent a byte at a time.
  unfoldable pub byte_by_byte : Option ℕ → List ℕ → Env W → Result (Handled W)
  byte_by_byte ctx query e =
      let w_s = lib.get_socket ctx e.world in
      if eqb_ℤ w_s minus_one
      then ok (over query e)
      else do tid ← load query (pos 1); ok (over query (send_bytes w_s (req tid) e))

  -- MODBUS_FC_READ_HOLDING_REGISTERS, by the address.
  unfoldable pub read_at : Transport → Option ℕ → ℕ → ℤ → List ℕ → Env W → Result (Handled W)
  read_at t ctx address rc query e =
      if eqb_ℤ (pos address) ut.registers_address_special
      then ok (
          over query
            (outside lib (calls.reply_exception ctx query exception_slave_or_server_busy) e))
      else if eqb_ℤ (pos address) ut.registers_address_invalid_tid_or_slave
      then ok (over query (outside lib (calls.send_raw_request ctx (raw_req t) (pos 5)) e))
      else if eqb_ℤ (pos address) ut.registers_address_sleep_500_ms
      then ok (answer rc query (outside lib (calls.usleep 500000) e))
      else if eqb_ℤ (pos address) ut.registers_address_byte_sleep_5_ms
      then byte_by_byte ctx query e
      else ok (answer rc query e)

  unfoldable pub read_request :
      Transport → Option ℕ → ℤ → ℕ → ℤ → List ℕ → Env W → Result (Handled W)
  read_request t ctx header_length address rc query e = do
    nb ← get_int16 query (header_length +ℤ pos 3)
    if eqb_ℤ (pos nb) ut.registers_nb_special
        then (do
          query' ← set_int16 query (header_length +ℤ pos 3) (ut.registers_nb_special -ℤ pos 1)
          ok (answer rc query' e))
        else read_at t ctx address rc query e

  -- The length that `modbus_reply` gets for a write.
  abbrev pub write_length : ℕ → ℕ → ℤ → ℤ
  write_length function address rc =
      if function == fc_write_single_coil
      then (if eqb_ℤ (pos address) ut.bits_address_invalid_request_length then pos 34 else rc)
      else if function == fc_write_single_register
      then (if eqb_ℤ (pos address) ut.registers_address_special then pos 45 else rc)
      else rc

  -- What stands between the reception and `modbus_reply`.
  unfoldable pub handle_request : Transport → Option ℕ → ℤ → ℤ → List ℕ → Env W → Result (Handled W)
  handle_request t ctx header_length rc query e = do
    function ← load query header_length
    word ← get_int16 query (header_length +ℤ pos 1)
    let address = word % 2 ^ 16
    if function == fc_read_holding_registers
        then read_request t ctx header_length address rc query e
        else ok (answer (write_length function address rc) query e)
