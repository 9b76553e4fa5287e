-- ===== src/UnitTestServer/Running.antt =====
-- The `main` of unit-test-server.c: the start, the loop and the end.
use modbus_server.Prelude.{
  ℕ, zero, suc, ◌+◌, Bool, true, false, not, ◌&&◌, List, Option, none, some, if◌then◌else◌, ◌==◌,
}
use modbus_server.Prelude.Int.{ℤ, pos, minus_one, eqb_ℤ}
use modbus_server.Clib.Fault.{Result, ok, ◌>>=◌, deref}
use modbus_server.Clib.Text.{codes}
use modbus_server.Clib.Memory.{load, store}
use modbus_server.Foreign.Mapping.{Mapping}
use modbus_server.Foreign.Modbus.{Modbus, Errno, eagain, ewouldblock, eintr, other}
use modbus_server.Machine.{
  Env, outside, close_fd, log_created, log_opened, new_rtu, free_ctx, tcp_listen, tcp_accept,
  receive, reply, connect,
}
use modbus_server.UnitTestServer.{
  UnitTest, TestCalls, Transport, tcp, tcp_pi, rtu, is_tcp, parse_backend, ip_or_device,
}
use modbus_server.UnitTestServer.Requests.{Handled, over, answer, handle_request}

abbrev pub tcp_max_adu_length : ℕ
tcp_max_adu_length = 260

abbrev pub rtu_max_adu_length : ℕ
rtu_max_adu_length = 256

-- `EMBBADCRC`: the base of the numbers, the eleven exceptions, and one more.
abbrev pub embbadcrc : ℕ
embbadcrc = 112345678 + 0x0B + 1

abbrev pub is_bad_crc : Errno → Bool
is_bad_crc (other n) = n == embbadcrc
is_bad_crc eagain = false
is_bad_crc ewouldblock = false
is_bad_crc eintr = false

-- The variables of the loop.
pub record Session (W : Type 0) : Type 0 where
  pub query : List ℕ
  pub mapping : Option Mapping
  pub env : Env W

-- How a run ends: `main` returns, or the bound on the calls of `modbus_receive` is reached.
pub data Exit (W : Type 0) : Type 0 where
  exited : ℤ → Env W → Exit W
  still_running : Session W → Exit W

-- `tab_input_registers[i] = UT_INPUT_REGISTERS_TAB[i]`, for the `left` numbers from `i` on.
unfoldable pub copy_registers : ℕ → ℕ → List ℕ → List ℕ → Result (List ℕ)
copy_registers zero i tab dest = ok dest
copy_registers (suc left) i tab dest = do
  v ← load tab (pos i)
  dest' ← store dest (pos i) v
  copy_registers left (i + 1) tab dest'

module _ {W : Type 0} (lib : Modbus W) (calls : TestCalls W) (ut : UnitTest) where
  unfoldable pub new_ctx : Transport → List ℕ → Env W → Option ℕ × Env W
  new_ctx tcp device e =
      let (ctx, w) = calls.new_tcp_at device (pos 1502) e.world in
      (ctx, record { world = w; log = log_created lib ctx e.log })
  new_ctx tcp_pi device e =
      let (ctx, w) = calls.new_tcp_pi device (codes "1502") e.world in
      (ctx, record { world = w; log = log_created lib ctx e.log })
  new_ctx rtu device e =
      let (ctx, e1) = new_rtu lib device (pos 115200) b'N' (pos 8) (pos 1) e in
      (ctx, outside lib (lib.set_slave ctx ut.server_id) e1)

  abbrev adu_length : Transport → ℕ
  adu_length tcp = tcp_max_adu_length
  adu_length tcp_pi = tcp_max_adu_length
  adu_length rtu = rtu_max_adu_length

  -- The memory of the requests, which may be missing.
  unfoldable pub new_query : Transport → Env W → Option (List ℕ) × Env W
  new_query t e =
      let (query, w) = calls.malloc (adu_length t) e.world in (query, record e { world = w })

  unfoldable pub new_mapping : Env W → Option Mapping × Env W
  new_mapping e =
      let (mapping, w) =
        lib.mapping_new ut.bits_address ut.bits_nb ut.input_bits_address ut.input_bits_nb
          ut.registers_address ut.registers_nb_max ut.input_registers_address
          (pos ut.input_registers_nb) e.world in
      (mapping, record e { world = w })

  -- The values that only the server can write.
  unfoldable pub fill_mapping : Mapping → Result Mapping
  fill_mapping m = do
    let bits = calls.set_bits_from_bytes m.tab_input_bits (pos 0) ut.input_bits_nb ut.input_bits_tab
    registers ← copy_registers ut.input_registers_nb 0 ut.input_registers_tab m.tab_input_registers
    ok (record m { tab_input_bits = bits; tab_input_registers = registers })

  -- Waiting for the client: whether the program goes on, and the listening socket `s`.
  unfoldable pub open_backend : Transport → Option ℕ → Env W → Bool × ℤ × Env W
  open_backend tcp ctx e =
      let (s, e1) = tcp_listen lib ctx e in
      let (fd, s', e2) = tcp_accept lib ctx s e1 in (true, s', e2)
  open_backend tcp_pi ctx e =
      let (s, w1) = calls.tcp_pi_listen ctx (pos 1) e.world in
      let (fd, s', w2) = calls.tcp_pi_accept ctx s w1 in
      (true, s', record { world = w2; log = log_opened lib fd (log_opened lib s e.log) })
  open_backend rtu ctx e =
      let (rc, e1) = connect lib ctx e in (not (eqb_ℤ rc minus_one), minus_one, e1)

  -- `modbus_reply`; whether the loop is over.
  unfoldable pub reply_step : Option ℕ → Option Mapping → Handled W → Bool × Session W
  reply_step ctx mapping (over query e) =
      (false, record { query = query; mapping = mapping; env = e })
  reply_step ctx mapping (answer rc query e) =
      let (answered, mapping', e') = reply lib ctx query rc mapping e in
      (eqb_ℤ answered minus_one, record { query = query; mapping = mapping'; env = e' })

  -- A call of `modbus_receive`, and what follows it up to the next one or to the end of the loop.
  unfoldable pub turn : Transport → Option ℕ → ℤ → Session W → Result (Bool × Session W)
  turn t ctx header_length s =
      let (rc, query, errno, e) = receive lib ctx s.query s.env in
      let s' = record s { query = query; env = e } in
      if eqb_ℤ rc (pos 0)
      then ok (false, s')
      else if eqb_ℤ rc minus_one && not (is_bad_crc errno)
      then ok (true, s')
      else do
        handled ← handle_request lib calls ut t ctx header_length rc query e
        ok (reply_step ctx s.mapping handled)

  -- `for (;;)`, for so many calls of `modbus_receive`; whether the loop is over.
  unfoldable pub turns : ℕ → Transport → Option ℕ → ℤ → Session W → Result (Bool × Session W)
  turns zero t ctx header_length s = ok (false, s)
  turns (suc left) t ctx header_length s = do
    (quit, s') ← turn t ctx header_length s
    let rest = turns left t ctx header_length s'
    if quit then ok (true, s') else rest

  -- What follows the loop. Only the listening socket of the first transport is closed.
  unfoldable pub quit : Transport → Option ℕ → ℤ → Session W → Env W
  quit t ctx s session =
      let e1 =
        if is_tcp t && not (eqb_ℤ s minus_one) then close_fd lib s session.env else session.env in
      let e2 = outside lib (lib.mapping_free session.mapping) e1 in
      free_ctx lib ctx (outside lib (lib.close ctx) e2)

  -- The mapping is there, and the client is waited for.
  unfoldable pub serve :
      ℕ → Transport → Option ℕ → ℤ → Option (List ℕ) → Mapping → Env W → Result (Exit W)
  serve bound t ctx header_length memory mapping e = do
    filled ← fill_mapping mapping
    let (up, s, e1) = open_backend t ctx e
    if not up then ok (exited minus_one (free_ctx lib ctx e1)) else do
      query ← deref memory
      (ended, session) ←
          turns bound t ctx header_length
            (record { query = query; mapping = some filled; env = e1 })
      ok (if ended then exited (pos 0) (quit t ctx s session) else still_running session)

  unfoldable pub with_mapping :
      ℕ → Transport → Option ℕ → ℤ → Option (List ℕ) → Option Mapping → Env W → Result (Exit W)
  with_mapping bound t ctx header_length memory none e = ok (exited minus_one (free_ctx lib ctx e))
  with_mapping bound t ctx header_length memory (some m) e =
      serve bound t ctx header_length memory m e

  unfoldable pub start : ℕ → Transport → List ℕ → Env W → Result (Exit W)
  start bound t device e =
      let (ctx, e1) = new_ctx t device e in
      let (memory, e2) = new_query t e1 in
      let header_length = calls.get_header_length ctx e2.world in
      let (mapping, e3) = new_mapping (outside lib (lib.set_debug ctx true) e2) in
      with_mapping bound t ctx header_length memory mapping e3

  -- A usage error comes before any call.
  unfoldable pub run_as : ℕ → List (List ℕ) → Option Transport → Env W → Result (Exit W)
  run_as bound argv none e = ok (exited minus_one e)
  run_as bound argv (some t) e = start bound t (ip_or_device argv t) e

  unfoldable pub unit_test_main : ℕ → List (List ℕ) → Env W → Result (Exit W)
  unit_test_main bound argv e = run_as bound argv (parse_backend argv) e
