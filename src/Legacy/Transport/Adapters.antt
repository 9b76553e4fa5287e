-- ===== src/Legacy/Transport/Adapters.antt =====
-- The lines of the main loop of json-modbus-server.c beside the adapters of src/.
use modbus_server.Prelude.{
  ℕ, ◌+◌, ◌<◌, ◌≡◌, ◌≢◌, refl, inl, inr, true, false, List, [], ◌∷◌, Option, some, arith, get_or,
  Bool-cases, Option-cases,
}
use modbus_server.Prelude.Int.{ℤ, pos, minus_one, eqb_ℤ, eqb_ℤ_iff}
use modbus_server.Foreign.Modbus.{Modbus}
use modbus_server.Backend.{Backend, max_tcp_clients}
use modbus_server.Config.{ModbusConfig}
use modbus_server.Machine.{Env, Machine, outside, new_rtu}
use modbus_server.TcpAdapter.{
  find_free_from, find_free_tcp_client_slot, reject_client, take_client, tcp_adapter_init,
  tcp_adapter_accept_client, answer_client, drop_client, serve_client, tcp_adapter_handle_client,
  cleanup_tcp,
}
use modbus_server.TcpAdapter
use modbus_server.RtuAdapter
use modbus_server.RtuAdapter.{rtu_adapter_init}
use modbus_server.ServerController
use modbus_server.Platform.{platform_set_nonblocking}
use modbus_server.Legacy.Transport.Starting.{
  set_nonblocking, listen_tcp, start_tcp, configure_rtu, connect_rtu, open_rtu,
}
use modbus_server.Legacy.Transport.Stopping.{stop_tcp, exit_tcp, exit_rtu}
use modbus_server.Legacy.Transport.Serving.{find_free, accept_ready, client_ready, rtu_ready}

find_free_same : (i : ℕ) (socks : List ℤ) → find_free i socks ≡ find_free_from i socks
unfolding find_free find_free_from
find_free_same i [] = refl
find_free_same i (s ∷ socks) = rw (find_free_same (i + 1) socks)

module _ {W : Type 0} (lib : Modbus W) where
  -- The lines of the main loop that accept a client, or turn it away, do what
  -- tcp_adapter_accept_client does.
  pub accept_ready_same : (m : Machine W) → accept_ready lib m ≡ (tcp_adapter_accept_client lib m).1
  unfolding accept_ready tcp_adapter_accept_client find_free_tcp_client_slot reject_client
      take_client
  accept_ready_same m = rw (find_free_same 0 m.backend.tcp_conn_socks) (ground arith)

  -- The lines of the main loop that serve the client in a slot that is in use, of the ten, do what
  -- tcp_adapter_handle_client does.
  pub client_ready_same :
      (i : ℕ) (query : List ℕ) (m : Machine W)
      → i < max_tcp_clients
      → get_or m.backend.tcp_conn_socks i minus_one ≢ minus_one
      → client_ready lib i (get_or m.backend.tcp_conn_socks i minus_one) (query, m)
        ≡ (let r = tcp_adapter_handle_client lib (pos i) query m in (r.1, r.2))
  unfolding client_ready tcp_adapter_handle_client serve_client answer_client drop_client
  client_ready_same i query m small used =
      ground (arith, eqb_ℤ_iff (get_or m.backend.tcp_conn_socks i minus_one) minus_one)

  -- What a call of the adapter leaves behind.
  abbrev pub without_status : ℤ × List ℕ × Option Backend × Env W → List ℕ × Option Backend × Env W
  without_status (status, query, b, e) = (query, b, e)

  -- For a serial line that is there, the lines of the main loop that serve it do what
  -- rtu_adapter_handle of src/core/server_controller.c does, the release after a failure included.
  pub rtu_ready_same :
      (p : ℕ) (query : List ℕ) (m : Machine W)
      → m.backend.ctx_rtu ≡ some p
      → without_status (ServerController.rtu_adapter_handle lib (some m.backend) query m.env)
        ≡ (let r = rtu_ready lib p (query, m) in (r.0, some r.1.backend, r.1.env))
  unfolding rtu_ready ServerController.rtu_adapter_handle ServerController.handle_rtu
      ServerController.answer_rtu ServerController.rtu_adapter_cleanup
  rtu_ready_same p query m here = ground arith

  set_nonblocking_same :
      (fd : ℤ) (e : Env W) → set_nonblocking lib fd e ≡ (platform_set_nonblocking lib fd e).1
  unfolding set_nonblocking platform_set_nonblocking
  set_nonblocking_same fd e = ground arith

  configure_rtu_same :
      (config : ModbusConfig) (p : ℕ) (e : Env W)
      → configure_rtu lib config p e ≡ RtuAdapter.configure_rtu lib config p e
  unfolding configure_rtu RtuAdapter.configure_rtu
  configure_rtu_same config p e1 =
      let e2 = outside lib (lib.set_slave (some p) config.unit_id) e1 in
      let e3 = outside lib (lib.set_debug (some p) false) e2 in
      let fd = lib.get_socket (some p) e3.world in
      elim (Bool-cases (eqb_ℤ fd minus_one)) [
        | inl closed ↦ rw closed
        | inr there ↦ rw (there, set_nonblocking_same fd e3)
      ]

  connect_rtu_same :
      (config : ModbusConfig) (p : ℕ) (b : Backend) (e : Env W)
      → connect_rtu lib config p b e
        ≡ (let r = RtuAdapter.connect_rtu lib config p b e in (eqb_ℤ r.0 (pos 0), r.1))
  unfolding connect_rtu RtuAdapter.connect_rtu
  connect_rtu_same config p b e = rw (configure_rtu_same config p e) (ground arith)

  -- The lines of the main loop that open the serial line do what rtu_adapter_init does, and succeed
  -- exactly where it answers 0.
  pub open_rtu_same :
      (config : ModbusConfig) (m : Machine W)
      → open_rtu lib config m ≡ (let r = rtu_adapter_init lib config m in (eqb_ℤ r.0 (pos 0), r.1))
  unfolding open_rtu rtu_adapter_init
  open_rtu_same config m =
      let (ctx, e) =
        new_rtu lib config.serial_device config.baudrate config.parity config.data_bits
          config.stop_bits m.env in
      elim (Option-cases ctx) [
        | inl failed ↦ ground arith
        | inr (p, here) ↦ ground (arith, connect_rtu_same config p m.backend e)
      ]

  -- The clients and the listening socket are released as by the adapter.
  pub exit_tcp_same : (m : Machine W) → exit_tcp lib m ≡ cleanup_tcp lib m
  unfolding exit_tcp cleanup_tcp
  exit_tcp_same m = refl

  exit_rtu_same : (m : Machine W) → exit_rtu lib m ≡ RtuAdapter.release_rtu lib m
  unfolding exit_rtu RtuAdapter.release_rtu
  exit_rtu_same m = refl

  -- A stop with a context that is there releases what the adapter's cleanup does.
  pub stop_tcp_same :
      (m : Machine W) (p : ℕ) → m.backend.ctx_tcp ≡ some p → stop_tcp lib m ≡ cleanup_tcp lib m
  unfolding stop_tcp cleanup_tcp
  stop_tcp_same m p here = ground arith

  -- With TCP enabled, a start of the main loop that succeeds leaves what tcp_adapter_init leaves,
  -- which then answers 0.
  pub start_tcp_same :
      (config : ModbusConfig) (m : Machine W)
      → config.enable_tcp ≡ true
      → (start_tcp lib config m).0 ≡ true
      → ((tcp_adapter_init lib config m).0 ≡ pos 0)
        × ((start_tcp lib config m).1 ≡ (tcp_adapter_init lib config m).1)
  unfolding start_tcp listen_tcp tcp_adapter_init TcpAdapter.listen_tcp
  start_tcp_same config m on up = ground arith
