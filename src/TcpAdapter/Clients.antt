-- ===== src/TcpAdapter/Clients.antt =====
-- What the TCP adapter promises: each operation of tcp_adapter.c is the step of the bag of clients
-- that its answers determine.
use modbus_server.Prelude.{ℕ, List, [], ◌∷◌, ◌||◌, if◌then◌else◌}
use modbus_server.Prelude.Int.{ℤ, pos, minus_one, ltb_ℤ, leb_ℤ}
use modbus_server.Foreign.Modbus.{Modbus}
use modbus_server.Backend.{Backend, max_tcp_clients}
use modbus_server.Config.{ModbusConfig}
use modbus_server.Machine.{Machine, receive, tcp_accept}
use modbus_server.TcpAdapter.{tcp_adapter_init, tcp_adapter_accept_client, sock_at}
use modbus_server.TcpAdapter.Operations
use modbus_server.TcpAdapter.Operations.{Reach, here, next, started, accepted, served, released}
use modbus_server.TcpAdapter.Bag.{Call, starting, accepting, serving, releasing, Step}

module _ {W : Type 0} (lib : Modbus W) where
  -- What is seen of an accept.
  abbrev accept_seen : Machine W → ℤ → Call
  accept_seen m answer =
      let b = m.backend in
      accepting (lib.tcp_accept b.ctx_tcp b.tcp_listen_sock m.env.world).0 answer

  -- What is seen of the turn of a slot.
  abbrev serve_seen : Machine W → ℤ → List ℕ → Call
  serve_seen m index query =
      let b = m.backend in
      let fd =
        if ltb_ℤ index (pos 0) || leb_ℤ (pos max_tcp_clients) index
        then minus_one
        else sock_at b.tcp_conn_socks index in
      serving fd (lib.receive b.ctx_tcp query (lib.set_socket b.ctx_tcp fd m.env.world)).0

  -- What is seen of an operation.
  abbrev pub seen :
      (config : ModbusConfig) {m m' : Machine W} → Operations.Step lib config m m' → Call
  seen config {m} (started empty silent) = starting (tcp_adapter_init lib config m).0
  seen config {m} accepted = accept_seen m (tcp_adapter_accept_client lib m).0
  seen config {m} (served index query) = serve_seen m index query
  seen config {m} released = releasing

  -- What is seen of a history, the last operation first.
  abbrev pub history :
      (config : ModbusConfig) {m m' : Machine W} → Reach lib config m m' → List Call
  history config here = []
  history config (next r st) = seen config st ∷ history config r
