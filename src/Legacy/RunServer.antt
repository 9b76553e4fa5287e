-- ===== src/Legacy/RunServer.antt =====
-- `run_server` of json-modbus-server.c, which no function of the file calls: the server without its
-- standard input, from the start to the cleanup.
pub mod Resources
pub mod Serving
pub mod Ending
mod Tests
use modbus_server.Prelude.{
  ℕ, Bool, true, false, not, ◌&&◌, List, [], ◌∷◌, ◌++◌, Option, none, some, if◌then◌else◌,
}
use modbus_server.Prelude.Int.{ℤ, pos, minus_one, eqb_ℤ, ltb_ℤ}
use modbus_server.Foreign.Modbus.{Modbus}
use modbus_server.Backend.{Backend, cleared_socks}
use modbus_server.Config.{ModbusConfig}
use modbus_server.JsonCommand.{ServerState, Reply, server_ready}
use modbus_server.Machine.{
  Env, Machine, outside, close_fd, new_tcp, new_rtu, free_ctx, tcp_listen, receive, reply, connect,
}
use modbus_server.TcpAdapter.{close_clients, free_if_set}
use modbus_server.Legacy.{Settings, Server, signal_handler}
use modbus_server.Legacy.Loop.{is_running}
use modbus_server.Legacy.Transport.Serving.{accept_step, clients_step}

-- What a round of its loop finds: the answer of `select`, the descriptors that are then set, and
-- whether a signal arrives before the state is tested again.
pub record Pulse : Type 0 where
  pub ret : ℤ
  pub is_set : ℤ → Bool
  pub signalled : Bool

-- The program exits with a failure in the middle of the start, the function returns, or the list of
-- rounds ends before the loop does.
pub data Ended (W : Type 0) : Type 0 where
  failed : Machine W → Ended W
  returned : Server W → Ended W
  goes_on : Server W → Ended W

module _ {W : Type 0} (lib : Modbus W) where
  unfoldable pub clear_clients : Machine W → Machine W
  clear_clients m = record m {
    backend = record m.backend { tcp_conn_socks = cleared_socks; tcp_conn_count = pos 0 };
  }

  -- A step of the start: whether it succeeds, and the state.
  unfoldable pub open_listener : ModbusConfig → Machine W → Bool × Machine W
  open_listener config m =
      let (ctx, e1) = new_tcp lib config.tcp_port m.env in
      elim ctx [
        | none ↦ (false, record { backend = record m.backend { ctx_tcp = none }; env = e1 })
        | some p ↦
            let e2 = outside lib (lib.set_slave (some p) config.unit_id) e1 in
            let e3 = outside lib (lib.set_debug (some p) false) e2 in
            let (listen, e4) = tcp_listen lib (some p) e3 in
            (
              not (eqb_ℤ listen minus_one),
              record {
                backend = record m.backend { ctx_tcp = some p; tcp_listen_sock = listen };
                env = e4;
              },
            )
      ]

  -- A line that cannot be connected stays in its variable: the program is about to exit.
  unfoldable pub open_line : ModbusConfig → Machine W → Bool × Machine W
  open_line config m =
      let (ctx, e1) =
        new_rtu lib config.serial_device config.baudrate config.parity config.data_bits
          config.stop_bits m.env in
      elim ctx [
        | none ↦ (false, record { backend = record m.backend { ctx_rtu = none }; env = e1 })
        | some p ↦
            let e2 = outside lib (lib.set_slave (some p) config.unit_id) e1 in
            let e3 = outside lib (lib.set_debug (some p) false) e2 in
            let (rc, e4) = connect lib (some p) e3 in
            (
              not (eqb_ℤ rc minus_one),
              record { backend = record m.backend { ctx_rtu = some p }; env = e4 },
            )
      ]

  -- `if (ctx_rtu) { modbus_close(ctx_rtu); modbus_free(ctx_rtu); }`
  abbrev pub close_if_set : Option ℕ → Env W → Env W
  close_if_set none e = e
  close_if_set (some p) e = free_ctx lib (some p) (outside lib (lib.close (some p)) e)

  -- Where no mapping can be had, the contexts are released.
  unfoldable pub open_mapping : ModbusConfig → Machine W → Bool × Machine W
  open_mapping config m =
      let (mapping, w) =
        lib.mapping_new config.coils_start config.nb_coils config.input_bits_start
          config.nb_input_bits config.holding_regs_start config.nb_holding_regs
          config.input_regs_start config.nb_input_regs m.env.world in
      let e = record m.env { world = w } in
      let b = record m.backend { mapping = mapping } in
      elim mapping [
        | none ↦ (
          false,
          record { backend = b; env = close_if_set b.ctx_rtu (free_if_set lib b.ctx_tcp e) },
        )
        | some _ ↦ (true, record { backend = b; env = e })
      ]

  -- The start: each step after the one before has succeeded.
  unfoldable pub open_all : ModbusConfig → Machine W → Bool × Machine W
  open_all config m0 =
      let (tcp_up, m1) =
        if config.enable_tcp
        then open_listener config (clear_clients m0)
        else (true, clear_clients m0) in
      if tcp_up
      then (let (rtu_up, m2) = if config.enable_rtu then open_line config m1 else (true, m1) in
          if rtu_up then open_mapping config m2 else (false, m2))
      else (false, m1)

  -- The serial line is ready. A failure is only logged.
  unfoldable pub line_ready : ℕ → List ℕ × Machine W → List ℕ × Machine W
  line_ready p (query, m) =
      let (rc, query', errno, e) = receive lib (some p) query m.env in
      if ltb_ℤ (pos 0) rc
      then (let (answer, mapping, e') = reply lib (some p) query' rc m.backend.mapping e in
          (query', record { backend = record m.backend { mapping = mapping }; env = e' }))
      else (query', record m { env = e })

  unfoldable pub line_of : (ℤ → Bool) → Option ℕ → List ℕ × Machine W → List ℕ × Machine W
  line_of is_set none st = st
  line_of is_set (some p) st =
      let fd = lib.get_socket (some p) st.1.env.world in
      if not (eqb_ℤ fd minus_one) && is_set fd then line_ready p st else st

  unfoldable pub line_step : Bool → (ℤ → Bool) → List ℕ × Machine W → List ℕ × Machine W
  line_step enable_rtu is_set st = if enable_rtu then line_of is_set st.1.backend.ctx_rtu st else st

  -- One round of the loop, without the signal.
  unfoldable pub pulse_step : ModbusConfig → Pulse → List ℕ × Machine W → List ℕ × Machine W
  pulse_step config ev (query, m) =
      if ltb_ℤ (pos 0) ev.ret
      then (let m1 = accept_step lib config.enable_tcp ev.is_set m in
          let st2 = clients_step lib config.enable_tcp ev.is_set (query, m1) in
          line_step config.enable_rtu ev.is_set st2)
      else (query, m)

  -- A round, and the signal that may come with it.
  unfoldable pub pulse : Pulse → List ℕ × Server W → List ℕ × Server W
  pulse ev (query, s) =
      let (query', m) =
        pulse_step s.settings.config ev (query, record { backend = s.backend; env = s.env }) in
      let s' = record s { backend = m.backend; env = m.env } in
      (query', if ev.signalled then signal_handler s' else s')

  -- `while (server_state == STATE_RUNNING)`, as long as the list of rounds lasts.
  unfoldable pub pulses : List Pulse → List ℕ × Server W → List ℕ × Server W
  pulses [] st = st
  pulses (ev ∷ evs) st =
      let rest = pulses evs (pulse ev st) in if is_running st.1.state then rest else st

  -- The cleanup. The variables of the contexts, of the listening socket and of the mapping keep
  -- their values.
  unfoldable pub close_all : ModbusConfig → Machine W → Machine W
  close_all config m0 =
      let m1 =
        if config.enable_tcp
        then (let (socks, e1) = close_clients lib m0.backend.tcp_conn_socks m0.env in
            let e2 =
              if eqb_ℤ m0.backend.tcp_listen_sock minus_one
              then e1
              else close_fd lib m0.backend.tcp_listen_sock e1 in
            record {
              backend = record m0.backend { tcp_conn_socks = socks; tcp_conn_count = pos 0 };
              env = free_ctx lib m0.backend.ctx_tcp e2;
            })
        else m0 in
      let e3 =
        if config.enable_rtu
        then free_ctx lib m1.backend.ctx_rtu (outside lib (lib.close m1.backend.ctx_rtu) m1.env)
        else m1.env in
      record { backend = m1.backend; env = outside lib (lib.mapping_free m1.backend.mapping) e3 }

  -- What follows a start that succeeded.
  unfoldable pub serve : List ℕ → List Pulse → Server W → Ended W
  serve query evs s =
      let (query', s2) = pulses evs (query, s) in
      let m = close_all s2.settings.config (record { backend = s2.backend; env = s2.env }) in
      if is_running s2.state
      then goes_on s2
      else returned (record s2 { backend = m.backend; env = m.env })

  unfoldable pub run_server : List ℕ → List Pulse → Server W → Ended W
  run_server query evs s =
      let config = s.settings.config in
      let (up, m) = open_all config (record { backend = s.backend; env = s.env }) in
      if up
      then serve query evs (record s {
        backend = m.backend;
        env = m.env;
        printed = s.printed ++ server_ready config.enable_tcp config.enable_rtu config.unit_id ∷ [];
      })
      else failed m
