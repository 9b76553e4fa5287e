-- ===== src/Legacy/Transport/Starting.antt =====
-- The start of the server in the main loop of json-modbus-server.c. A step that fails leaves the
-- round at once, by `continue`.
use modbus_server.Prelude.{ℕ, Bool, true, false, [], ◌∷◌, ◌++◌, none, some, if◌then◌else◌}
use modbus_server.Prelude.Int.{ℤ, pos, minus_one, eqb_ℤ}
use modbus_server.Foreign.Modbus.{Modbus}
use modbus_server.Backend.{Backend, cleared_socks}
use modbus_server.Config.{ModbusConfig}
use modbus_server.JsonCommand.{server_ready}
use modbus_server.Machine.{Env, Machine, outside, new_tcp, new_rtu, free_ctx, tcp_listen, connect}
use modbus_server.Platform.{with_nonblock}
use modbus_server.Legacy.{Server}

module _ {W : Type 0} (lib : Modbus W) where
  -- `set_nonblocking`
  unfoldable pub set_nonblocking : ℤ → Env W → Env W
  set_nonblocking fd e =
      let (flags, w1) = lib.get_flags fd e.world in
      if eqb_ℤ flags minus_one
      then record e { world = w1 }
      else record e { world = (lib.set_flags fd (with_nonblock flags) w1).1 }

  -- Whether the round goes on, and the state.
  unfoldable pub listen_tcp : ModbusConfig → ℕ → Backend → Env W → Bool × Machine W
  listen_tcp config p b e1 =
      let e2 = outside lib (lib.set_slave (some p) config.unit_id) e1 in
      let e3 = outside lib (lib.set_debug (some p) false) e2 in
      let (listen, e4) = tcp_listen lib (some p) e3 in
      if eqb_ℤ listen minus_one
      then (
        false,
        record { backend = record b { ctx_tcp = some p; tcp_listen_sock = listen }; env = e4 },
      )
      else (
        true,
        record {
          backend = record b {
            ctx_tcp = some p;
            tcp_listen_sock = listen;
            tcp_conn_socks = cleared_socks;
            tcp_conn_count = pos 0;
          };
          env = e4;
        },
      )

  unfoldable pub start_tcp : ModbusConfig → Machine W → Bool × Machine W
  start_tcp config m =
      if config.enable_tcp
      then (let (ctx, e) = new_tcp lib config.tcp_port m.env in
          elim ctx [
            | none ↦ (false, record { backend = record m.backend { ctx_tcp = none }; env = e })
            | some p ↦ listen_tcp config p m.backend e
          ])
      else (true, m)

  -- The slave number, the debug flag, the mode of the descriptor and the time-out.
  unfoldable pub configure_rtu : ModbusConfig → ℕ → Env W → Env W
  unfolding set_nonblocking
  configure_rtu config p e1 =
      let e2 = outside lib (lib.set_slave (some p) config.unit_id) e1 in
      let e3 = outside lib (lib.set_debug (some p) false) e2 in
      let fd = lib.get_socket (some p) e3.world in
      if eqb_ℤ fd minus_one
      then e3
      else outside lib (lib.set_response_timeout (some p) 0 100000) (set_nonblocking fd e3)

  unfoldable pub connect_rtu : ModbusConfig → ℕ → Backend → Env W → Bool × Machine W
  connect_rtu config p b e1 =
      let (rc, e2) = connect lib (some p) (configure_rtu config p e1) in
      if eqb_ℤ rc minus_one
      then (false, record { backend = record b { ctx_rtu = none }; env = free_ctx lib (some p) e2 })
      else (true, record { backend = record b { ctx_rtu = some p }; env = e2 })

  -- The lines by which the serial line is opened, at the start and at a reconnection.
  unfoldable pub open_rtu : ModbusConfig → Machine W → Bool × Machine W
  open_rtu config m =
      let (ctx, e) =
        new_rtu lib config.serial_device config.baudrate config.parity config.data_bits
          config.stop_bits m.env in
      elim ctx [
        | none ↦ (false, record { backend = record m.backend { ctx_rtu = none }; env = e })
        | some p ↦ connect_rtu config p m.backend e
      ]

  unfoldable pub start_rtu : ModbusConfig → Machine W → Bool × Machine W
  start_rtu config m = if config.enable_rtu then open_rtu config m else (true, m)

  unfoldable pub start_mapping : ModbusConfig → Machine W → Bool × Machine W
  start_mapping config m =
      let (mapping, w) =
        lib.mapping_new config.coils_start config.nb_coils config.input_bits_start
          config.nb_input_bits config.holding_regs_start config.nb_holding_regs
          config.input_regs_start config.nb_input_regs m.env.world in
      (
        elim mapping [ none ↦ false | some _ ↦ true ],
        record {
          backend = record m.backend { mapping = mapping };
          env = record m.env { world = w };
        },
      )

  -- The three steps, each after the one before has succeeded.
  unfoldable pub start_machine : ModbusConfig → Machine W → Bool × Machine W
  start_machine config m =
      let (tcp_up, m1) = start_tcp config m in
      if tcp_up
      then (let (rtu_up, m2) = start_rtu config m1 in
          if rtu_up then start_mapping config m2 else (false, m2))
      else (false, m1)

  -- Whether the round goes on, and the server.
  unfoldable pub start_server : Server W → Bool × Server W
  start_server s =
      let config = s.settings.config in
      let (up, m) = start_machine config (record { backend = s.backend; env = s.env }) in
      if up
      then (
        true,
        record s {
          backend = m.backend;
          env = m.env;
          printed =
              s.printed ++ server_ready config.enable_tcp config.enable_rtu config.unit_id ∷ [];
        },
      )
      else (false, record s { backend = m.backend; env = m.env })
