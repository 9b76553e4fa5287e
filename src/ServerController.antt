-- ===== src/ServerController.antt =====
-- src/core/server_controller.c: in spite of its name the file holds a second version of the
-- functions of rtu_adapter.c. Two of them differ: a failed read releases the context at once, and
-- a reconnection calls the cleanup and the initialisation. The functions that
-- server_controller.h declares are defined nowhere.
pub mod Versions
mod Tests
use modbus_server.Prelude.{ℕ, Bool, true, false, List, Option, none, some, if◌then◌else◌}
use modbus_server.Prelude.Int.{ℤ, pos, minus_one, eqb_ℤ, ltb_ℤ}
use modbus_server.Foreign.Modbus.{Modbus}
use modbus_server.Backend.{Backend}
use modbus_server.Config.{ModbusConfig}
use modbus_server.Machine.{Env, Machine, outside, new_rtu, free_ctx, receive, reply, connect}
use modbus_server.Platform.{platform_set_nonblocking}
use modbus_server.RtuAdapter.{is_failure}

module _ {W : Type 0} (lib : Modbus W) where
  abbrev set_nonblocking : ℤ → Env W → Env W
  set_nonblocking fd e = (platform_set_nonblocking lib fd e).1

  unfoldable pub configure_rtu : ModbusConfig → ℕ → Env W → Env W
  configure_rtu config p e1 =
      let e2 = outside lib (lib.set_slave (some p) config.unit_id) e1 in
      let e3 = outside lib (lib.set_debug (some p) false) e2 in
      let fd = lib.get_socket (some p) e3.world in
      if eqb_ℤ fd minus_one
      then e3
      else outside lib (lib.set_response_timeout (some p) 0 100000) (set_nonblocking fd e3)

  unfoldable pub connect_rtu : ModbusConfig → ℕ → Backend → Env W → ℤ × Machine W
  connect_rtu config p b e1 =
      let (rc, e2) = connect lib (some p) (configure_rtu config p e1) in
      if eqb_ℤ rc minus_one
      then (
        minus_one,
        record { backend = record b { ctx_rtu = none }; env = free_ctx lib (some p) e2 },
      )
      else (pos 0, record { backend = record b { ctx_rtu = some p }; env = e2 })

  unfoldable pub rtu_adapter_init : ModbusConfig → Machine W → ℤ × Machine W
  rtu_adapter_init config m =
      let (ctx, e) =
        new_rtu lib config.serial_device config.baudrate config.parity config.data_bits
          config.stop_bits m.env in
      elim ctx [
        | none ↦ (minus_one, record { backend = record m.backend { ctx_rtu = none }; env = e })
        | some p ↦ connect_rtu config p m.backend e
      ]

  -- `rtu_adapter_cleanup`, on the pointer that every function here gets.
  unfoldable pub rtu_adapter_cleanup : Option Backend → Env W → Option Backend × Env W
  rtu_adapter_cleanup none e = (none, e)
  rtu_adapter_cleanup (some b) e = elim b.ctx_rtu [
    | none ↦ (some b, e)
    | some p ↦ (
      some (record b { ctx_rtu = none }),
      free_ctx lib (some p) (outside lib (lib.close (some p)) e),
    )
  ]

  unfoldable pub answer_rtu : ℕ → List ℕ → ℤ → Backend → Env W → ℤ × List ℕ × Option Backend × Env W
  answer_rtu p query rc b e =
      let (answer, mapping, e') = reply lib (some p) query rc b.mapping e in
      (
        if eqb_ℤ answer minus_one then minus_one else pos 1,
        query,
        some (record b { mapping = mapping }),
        e',
      )

  -- A failed read releases the context.
  unfoldable pub handle_rtu : ℕ → List ℕ → Backend → Env W → ℤ × List ℕ × Option Backend × Env W
  handle_rtu p query b e0 =
      let (rc, query', errno, e) = receive lib (some p) query e0 in
      if ltb_ℤ (pos 0) rc
      then answer_rtu p query' rc b e
      else if eqb_ℤ rc minus_one
      then (if is_failure errno
          then (let (b', e') = rtu_adapter_cleanup (some b) e in (minus_one, query', b', e'))
          else (pos 0, query', some b, e))
      else (pos 0, query', some b, e)

  unfoldable pub rtu_adapter_handle :
      Option Backend → List ℕ → Env W → ℤ × List ℕ × Option Backend × Env W
  rtu_adapter_handle none query e = (minus_one, query, none, e)
  rtu_adapter_handle (some b) query e = elim b.ctx_rtu [
    | none ↦ (minus_one, query, some b, e)
    | some p ↦ handle_rtu p query b e
  ]

  -- The initialisation dereferences the pointer, which has been checked.
  abbrev pub init_at : ModbusConfig → Option Backend × Env W → ℤ × Option Backend × Env W
  init_at config (none, e) = (minus_one, none, e)
  init_at config (some b, e) =
      let (rc, m) = rtu_adapter_init config (record { backend = b; env = e }) in
      (rc, some m.backend, m.env)

  unfoldable pub rtu_adapter_reconnect :
      ModbusConfig → Option Backend → Env W → ℤ × Option Backend × Env W
  rtu_adapter_reconnect config none e = (minus_one, none, e)
  rtu_adapter_reconnect config (some b) e = init_at config (rtu_adapter_cleanup (some b) e)
