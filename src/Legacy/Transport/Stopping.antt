-- ===== src/Legacy/Transport/Stopping.antt =====
-- The two cleanups of json-modbus-server.c: when the server is stopped, and before the exit.
use modbus_server.Prelude.{Bool, List, [], ◌∷◌, ◌++◌, none, some, if◌then◌else◌}
use modbus_server.Prelude.Int.{ℤ, pos, minus_one, eqb_ℤ}
use modbus_server.Foreign.Modbus.{Modbus}
use modbus_server.Backend.{Backend}
use modbus_server.JsonCommand.{server_stopped, exited}
use modbus_server.Machine.{Env, Machine, outside, close_fd, free_ctx}
use modbus_server.TcpAdapter.{close_clients, free_if_set}
use modbus_server.Legacy.{Server}

module _ {W : Type 0} (lib : Modbus W) where
  -- The clients and the listening socket; the loop over the slots is that of the adapter.
  abbrev close_tcp : Backend → Env W → List ℤ × Env W
  close_tcp b e =
      let (socks, e1) = close_clients lib b.tcp_conn_socks e in
      (socks, if eqb_ℤ b.tcp_listen_sock minus_one then e1 else close_fd lib b.tcp_listen_sock e1)

  unfoldable pub stop_tcp : Machine W → Machine W
  stop_tcp m =
      let (socks, e) = close_tcp m.backend m.env in
      record {
        backend = record m.backend {
          tcp_conn_socks = socks;
          tcp_conn_count = pos 0;
          tcp_listen_sock = minus_one;
          ctx_tcp = none;
        };
        env = free_ctx lib m.backend.ctx_tcp e;
      }

  unfoldable pub stop_rtu : Machine W → Machine W
  stop_rtu m = record {
    backend = record m.backend { ctx_rtu = none };
    env = free_ctx lib m.backend.ctx_rtu (outside lib (lib.close m.backend.ctx_rtu) m.env);
  }

  unfoldable pub free_mapping : Machine W → Machine W
  free_mapping m = record {
    backend = record m.backend { mapping = none };
    env = outside lib (lib.mapping_free m.backend.mapping) m.env;
  }

  -- `Cleanup when stopping`, for a server that has a mapping.
  unfoldable pub stop_server : Server W → Server W
  stop_server s =
      let config = s.settings.config in
      let m0 : Machine W = record { backend = s.backend; env = s.env } in
      let m1 = if config.enable_tcp then stop_tcp m0 else m0 in
      let m2 = if config.enable_rtu then stop_rtu m1 else m1 in
      let m3 = free_mapping m2 in
      record s { backend = m3.backend; env = m3.env; printed = s.printed ++ server_stopped ∷ [] }

  -- The context of the TCP server is freed here only if it is there.
  unfoldable pub exit_tcp : Machine W → Machine W
  exit_tcp m =
      let (socks, e) = close_tcp m.backend m.env in
      record {
        backend = record m.backend {
          tcp_conn_socks = socks;
          tcp_conn_count = pos 0;
          tcp_listen_sock = minus_one;
          ctx_tcp = none;
        };
        env = free_if_set lib m.backend.ctx_tcp e;
      }

  unfoldable pub exit_rtu : Machine W → Machine W
  exit_rtu m = elim m.backend.ctx_rtu [
    | none ↦ m
    | some p ↦ record {
      backend = record m.backend { ctx_rtu = none };
      env = free_ctx lib (some p) (outside lib (lib.close (some p)) m.env);
    }
  ]

  -- `Final cleanup before exit`
  unfoldable pub exit_machine : Bool → Bool → Machine W → Machine W
  exit_machine enable_tcp enable_rtu m = elim m.backend.mapping [
    | none ↦ m
    | some _ ↦
        let m1 = if enable_tcp then exit_tcp m else m in
        let m2 = if enable_rtu then exit_rtu m1 else m1 in free_mapping m2
  ]

  unfoldable pub exit_server : Server W → Server W
  exit_server s =
      let m =
        exit_machine s.settings.config.enable_tcp s.settings.config.enable_rtu
          (record { backend = s.backend; env = s.env }) in
      record s { backend = m.backend; env = m.env; printed = s.printed ++ exited ∷ [] }
