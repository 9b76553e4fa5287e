-- ===== src/Legacy/Transport/Cleanups.antt =====
-- The start of the transports of json-modbus-server.c, and their two cleanups.
use modbus_server.Prelude.{◌≡◌, Bool, true, none, some, arith, if◌then◌else◌, if_cases}
use modbus_server.Prelude.Int.{minus_one, eqb_ℤ_iff}
use modbus_server.Foreign.Mapping.{Mapping}
use modbus_server.Foreign.Modbus.{Modbus}
use modbus_server.Backend.{max_tcp_clients, cleared_socks}
use modbus_server.Config.{ModbusConfig}
use modbus_server.Machine.{Machine, free_ctx, close_fd, new_tcp, tcp_listen}
use modbus_server.TcpAdapter.Slots.{active-replicate, in_slots-replicate, in_slots-active}
use modbus_server.TcpAdapter.Release.{close_clients_log}
use modbus_server.Legacy.Transport.Starting.{
  listen_tcp, start_tcp, start_rtu, start_mapping, start_machine,
}
use modbus_server.Legacy.Transport.Stopping.{
  stop_tcp, stop_rtu, free_mapping, exit_tcp, exit_rtu, exit_machine,
}
use modbus_server.Legacy.Transport.Soundness.{IsSound, IsReleased, IsClosed}
use modbus_server.Legacy.Loop.Contexts.{close_clients-quiet}
use modbus_server.Legacy.Transport.Lifetimes.{open_rtu-IsSound}

module _ {W : Type 0} (lib : Modbus W) (config : ModbusConfig) where
  start_tcp-IsSound :
      (m : Machine W)
      → IsClosed m
      → (start_tcp lib config m).0 ≡ true
      → IsSound config (start_tcp lib config m).1
        × ((start_tcp lib config m).1.backend.ctx_rtu ≡ none)
  unfolding start_tcp listen_tcp new_tcp tcp_listen cleared_socks
  start_tcp-IsSound m c up = (
    record {
      table = λ tcp. record {
        ten = ground arith;
        counted = ground (arith, active-replicate max_tcp_clients);
      };
      unopened = λ fd ne off. ground (arith, c.released.descriptors fd ne);
      accounted = λ fd ne tcp. ground (
        arith,
        c.released.descriptors fd ne,
        in_slots-replicate fd max_tcp_clients ne,
        eqb_ℤ_iff minus_one fd,
      );
      balanced = λ p. ground (arith, c.released.contexts p, c.server, c.line);
      no_listener = λ off. ground (arith, c.listener);
      no_server = λ off. ground (arith, c.server);
      no_line = λ off. ground (arith, c.line);
    },
    ground (arith, c.line),
  )

  start_mapping-IsSound :
      (m : Machine W) → IsSound config m → IsSound config (start_mapping lib config m).1
  unfolding start_mapping
  start_mapping-IsSound m s = record {
    table = λ tcp. record { ten = (s.table tcp).ten; counted = (s.table tcp).counted };
    accounted = s.accounted;
    unopened = s.unopened;
    balanced = s.balanced;
    no_listener = s.no_listener;
    no_server = s.no_server;
    no_line = s.no_line;
  }

  start_rtu-IsSound :
      (m : Machine W)
      → m.backend.ctx_rtu ≡ none
      → IsSound config m
      → IsSound config (start_rtu lib config m).1
  unfolding start_rtu
  start_rtu-IsSound m empty s =
      if_cases (λ (r : Bool × Machine W). IsSound config r.1) config.enable_rtu
        (λ on. open_rtu-IsSound lib config m on empty s) (λ off. s)

  -- A start that succeeds leaves sound transports, and tables.
  pub start_machine-IsSound :
      (m : Machine W)
      → IsClosed m
      → (start_machine lib config m).0 ≡ true
      → IsSound config (start_machine lib config m).1
  unfolding start_machine
  start_machine-IsSound m c =
      let Good : Bool × Machine W → Type 0 = λ r. r.0 ≡ true → IsSound config r.1 in
      let m1 = (start_tcp lib config m).1 in
      let m2 = (start_rtu lib config m1).1 in
      if_cases Good (start_tcp lib config m).0
        (λ up1.
          let (s1, empty) = start_tcp-IsSound m c up1 in
          let s2 = start_rtu-IsSound m1 empty s1 in
          if_cases Good (start_rtu lib config m1).0 (λ up2 up3. start_mapping-IsSound m2 s2)
            (λ down bad. absurd (cc)))
        (λ down bad. absurd (cc))

  -- `Cleanup when stopping`, as a step of the machine.
  abbrev pub stop_machine : Machine W → Machine W
  stop_machine m =
      let m1 = if config.enable_tcp then stop_tcp lib m else m in
      free_mapping lib (if config.enable_rtu then stop_rtu lib m1 else m1)

  pub stop_machine-IsClosed : (m : Machine W) → IsSound config m → IsClosed (stop_machine m)
  unfolding stop_tcp stop_rtu free_mapping close_fd free_ctx
  stop_machine-IsClosed m s = record {
    listener = ground (arith, s.no_listener);
    server = ground (arith, s.no_server);
    line = ground (arith, s.no_line);
    released = record {
      descriptors = λ fd ne. ground (
        arith,
        s.accounted fd ne,
        s.no_listener,
        s.unopened fd ne,
        close_clients_log lib fd m.backend.tcp_conn_socks m.env ne,
        in_slots-active fd m.backend.tcp_conn_socks ne,
        eqb_ℤ_iff m.backend.tcp_listen_sock minus_one,
        eqb_ℤ_iff m.backend.tcp_listen_sock fd,
      );
      contexts = λ p. ground (
        arith,
        s.balanced p,
        s.no_server,
        s.no_line,
        close_clients-quiet lib m.backend.tcp_conn_socks m.env p,
      );
    };
  }

  pub exit_machine-IsReleased :
      (m : Machine W) {t : Mapping}
      → m.backend.mapping ≡ some t
      → IsSound config m
      → IsReleased (exit_machine lib config.enable_tcp config.enable_rtu m)
  unfolding exit_machine exit_tcp exit_rtu free_mapping close_fd free_ctx
  exit_machine-IsReleased m here s = record {
    descriptors = λ fd ne. ground (
      arith,
      s.accounted fd ne,
      s.no_listener,
      s.unopened fd ne,
      close_clients_log lib fd m.backend.tcp_conn_socks m.env ne,
      in_slots-active fd m.backend.tcp_conn_socks ne,
      eqb_ℤ_iff m.backend.tcp_listen_sock minus_one,
      eqb_ℤ_iff m.backend.tcp_listen_sock fd,
    );
    contexts = λ p. ground (
      arith,
      s.balanced p,
      s.no_server,
      s.no_line,
      close_clients-quiet lib m.backend.tcp_conn_socks m.env p,
    );
  }
