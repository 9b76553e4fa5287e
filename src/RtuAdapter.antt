-- ===== src/RtuAdapter.antt =====
-- src/adapters/rtu_adapter.c and rtu_adapter.h: the slave on the serial line.
pub mod Contexts
mod Tests
use modbus_server.Prelude.{ℕ, Bool, true, false, not, ◌||◌, List, Option, none, some, if◌then◌else◌}
use modbus_server.Prelude.Int.{ℤ, pos, minus_one, eqb_ℤ, ltb_ℤ}
use modbus_server.Foreign.Modbus.{Modbus, Errno, eagain, ewouldblock, eintr, other}
use modbus_server.Backend.{Backend}
use modbus_server.Config.{ModbusConfig}
use modbus_server.Machine.{Env, Machine, outside, new_rtu, free_ctx, receive, reply, connect}
use modbus_server.Platform.{platform_set_nonblocking}

-- `errno != EAGAIN && errno != EWOULDBLOCK`
abbrev pub is_failure : Errno → Bool
is_failure eagain = false
is_failure ewouldblock = false
is_failure eintr = true
is_failure (other _) = true

module _ {W : Type 0} (lib : Modbus W) where
  -- `set_nonblocking`: a failure is only logged.
  abbrev pub set_nonblocking : ℤ → Env W → Env W
  set_nonblocking fd e = (platform_set_nonblocking lib fd e).1

  -- From a new context to the connection.
  unfoldable pub configure_rtu : ModbusConfig → ℕ → Env W → Env W
  configure_rtu config p e1 =
      let e2 = outside lib (lib.set_slave (some p) config.unit_id) e1 in
      let e3 = outside lib (lib.set_debug (some p) false) e2 in
      let fd = lib.get_socket (some p) e3.world in
      if eqb_ℤ fd minus_one
      then e3
      else outside lib (lib.set_response_timeout (some p) 0 100000) (set_nonblocking fd e3)

  unfoldable pub connect_rtu : ModbusConfig → ℕ → Backend → Env W → ℤ × Machine W
  connect_rtu config p b e1 =
      let (rc, e2) = connect lib (some p) (configure_rtu config p e1) in
      if eqb_ℤ rc minus_one
      then (
        minus_one,
        record { backend = record b { ctx_rtu = none }; env = free_ctx lib (some p) e2 },
      )
      else (pos 0, record { backend = record b { ctx_rtu = some p }; env = e2 })

  unfoldable pub rtu_adapter_init : ModbusConfig → Machine W → ℤ × Machine W
  rtu_adapter_init config m =
      let (ctx, e) =
        new_rtu lib config.serial_device config.baudrate config.parity config.data_bits
          config.stop_bits m.env in
      elim ctx [
        | none ↦ (minus_one, record { backend = record m.backend { ctx_rtu = none }; env = e })
        | some p ↦ connect_rtu config p m.backend e
      ]

  -- A request has arrived.
  unfoldable pub answer_rtu : ℕ → List ℕ → ℤ → Machine W → ℤ × Machine W
  answer_rtu p query rc m =
      let (answer, mapping, e) = reply lib (some p) query rc m.backend.mapping m.env in
      (
        if eqb_ℤ answer minus_one then minus_one else pos 1,
        record { backend = record m.backend { mapping = mapping }; env = e },
      )

  -- A context that is there: the status, the query buffer and the state after the call.
  unfoldable pub handle_rtu : ℕ → List ℕ → Machine W → ℤ × List ℕ × Machine W
  handle_rtu p query m =
      let (rc, query', errno, e) = receive lib (some p) query m.env in
      let m' = record m { env = e } in
      if ltb_ℤ (pos 0) rc
      then (let (status, m'') = answer_rtu p query' rc m' in (status, query', m''))
      else if eqb_ℤ rc minus_one
      then (if is_failure errno then minus_one else pos 0, query', m')
      else (pos 0, query', m')

  -- `backend` may be the null pointer.
  unfoldable pub rtu_adapter_handle :
      Option Backend → List ℕ → Env W → ℤ × List ℕ × Option Backend × Env W
  rtu_adapter_handle none query e = (minus_one, query, none, e)
  rtu_adapter_handle (some b) query e = elim b.ctx_rtu [
    | none ↦ (minus_one, query, some b, e)
    | some p ↦
        let (status, query', m) = handle_rtu p query (record { backend = b; env = e }) in
        (status, query', some m.backend, m.env)
  ]

  -- `modbus_close`, `modbus_free` and the null pointer.
  unfoldable pub release_rtu : Machine W → Machine W
  release_rtu m = elim m.backend.ctx_rtu [
    | none ↦ m
    | some p ↦ record {
      backend = record m.backend { ctx_rtu = none };
      env = free_ctx lib (some p) (outside lib (lib.close (some p)) m.env);
    }
  ]

  unfoldable pub rtu_adapter_cleanup : Option Backend → Env W → Option Backend × Env W
  rtu_adapter_cleanup none e = (none, e)
  rtu_adapter_cleanup (some b) e =
      let m = release_rtu (record { backend = b; env = e }) in (some m.backend, m.env)

  -- The old connection is released, and a new one is made as in `rtu_adapter_init`, whose lines
  -- the source repeats.
  unfoldable pub reconnect_rtu : ModbusConfig → Machine W → ℤ × Machine W
  reconnect_rtu config m0 =
      let m = release_rtu m0 in
      let (ctx, e) =
        new_rtu lib config.serial_device config.baudrate config.parity config.data_bits
          config.stop_bits m.env in
      elim ctx [
        | none ↦ (minus_one, record { backend = record m.backend { ctx_rtu = none }; env = e })
        | some p ↦ connect_rtu config p m.backend e
      ]

  unfoldable pub rtu_adapter_reconnect :
      ModbusConfig → Option Backend → Env W → ℤ × Option Backend × Env W
  rtu_adapter_reconnect config none e = (minus_one, none, e)
  rtu_adapter_reconnect config (some b) e =
      let (status, m) = reconnect_rtu config (record { backend = b; env = e }) in
      (status, some m.backend, m.env)
