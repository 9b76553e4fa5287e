-- ===== src/TcpAdapter.antt =====
-- src/adapters/tcp_adapter.c and tcp_adapter.h: the TCP server and its table of clients.
pub mod Slots
pub mod Invariant
pub mod Accept
pub mod Serve
pub mod Release
pub mod Start
pub mod Operations
pub mod Bag
pub mod Clients
mod Tests
use modbus_server.Prelude.{
  ℕ, zero, suc, ◌+◌, Bool, true, false, not, ◌||◌, List, [], ◌∷◌, Option, none, some, ltb, leb, set,
  get_or, if◌then◌else◌,
}
use modbus_server.Prelude.Int.{ℤ, pos, negsuc, minus_one, eqb_ℤ, ltb_ℤ, leb_ℤ, ◌+ℤ◌, ◌-ℤ◌}
use modbus_server.Foreign.Modbus.{Modbus}
use modbus_server.Backend.{Backend, max_tcp_clients, cleared_socks}
use modbus_server.Config.{ModbusConfig}
use modbus_server.Machine.{
  Env, Machine, outside, close_fd, new_tcp, free_ctx, tcp_listen, tcp_accept, receive, reply,
}

-- The loop over the table, from the `i`-th slot on.
unfoldable pub find_free_from : ℕ → List ℤ → ℤ
find_free_from i [] = minus_one
find_free_from i (s ∷ socks) =
    let rest = find_free_from (i + 1) socks in if eqb_ℤ s minus_one then pos i else rest

unfoldable pub find_free_tcp_client_slot : Backend → ℤ
find_free_tcp_client_slot b = find_free_from 0 b.tcp_conn_socks

-- `tcp_conn_socks[i]` and `tcp_conn_socks[i] = fd`, for an index inside the table.
abbrev pub sock_at : List ℤ → ℤ → ℤ
sock_at socks (pos i) = get_or socks i minus_one
sock_at socks (negsuc _) = minus_one

abbrev pub set_sock : List ℤ → ℤ → ℤ → List ℤ
set_sock socks (pos i) fd = set socks i fd
set_sock socks (negsuc _) fd = socks

module _ {W : Type 0} (lib : Modbus W) where
  -- From the context on: the slave number, the debug flag and the listening socket.
  unfoldable pub listen_tcp : ModbusConfig → ℕ → Backend → Env W → ℤ × Machine W
  listen_tcp config p b e1 =
      let e2 = outside lib (lib.set_slave (some p) config.unit_id) e1 in
      let e3 = outside lib (lib.set_debug (some p) false) e2 in
      let (listen, e4) = tcp_listen lib (some p) e3 in
      if eqb_ℤ listen minus_one
      then (
        minus_one,
        record {
          backend = record b { ctx_tcp = none; tcp_listen_sock = listen };
          env = free_ctx lib (some p) e4;
        },
      )
      else (
        pos 0,
        record {
          backend = record b {
            ctx_tcp = some p;
            tcp_listen_sock = listen;
            tcp_conn_socks = cleared_socks;
            tcp_conn_count = pos 0;
          };
          env = e4;
        },
      )

  unfoldable pub tcp_adapter_init : ModbusConfig → Machine W → ℤ × Machine W
  unfolding listen_tcp
  tcp_adapter_init config m =
      let (ctx, e1) = new_tcp lib config.tcp_port m.env in
      elim ctx [
        | none ↦ (minus_one, record { backend = record m.backend { ctx_tcp = none }; env = e1 })
        | some p ↦ listen_tcp config p m.backend e1
      ]

  -- A client that finds no free slot is accepted and closed at once.
  unfoldable pub reject_client : Machine W → ℤ × Machine W
  reject_client m =
      let (temp, listen, e) = tcp_accept lib m.backend.ctx_tcp m.backend.tcp_listen_sock m.env in
      (
        minus_one,
        record {
          backend = record m.backend { tcp_listen_sock = listen };
          env = if eqb_ℤ temp minus_one then e else close_fd lib temp e;
        },
      )

  -- The slot of the new client, or -1.
  unfoldable pub take_client : ℤ → Machine W → ℤ × Machine W
  take_client slot m =
      let (fd, listen, e) = tcp_accept lib m.backend.ctx_tcp m.backend.tcp_listen_sock m.env in
      if eqb_ℤ fd minus_one
      then (minus_one, record { backend = record m.backend { tcp_listen_sock = listen }; env = e })
      else (
        slot,
        record {
          backend = record m.backend {
            tcp_listen_sock = listen;
            tcp_conn_socks = set_sock m.backend.tcp_conn_socks slot fd;
            tcp_conn_count = m.backend.tcp_conn_count +ℤ pos 1;
          };
          env = e;
        },
      )

  unfoldable pub tcp_adapter_accept_client : Machine W → ℤ × Machine W
  tcp_adapter_accept_client m =
      let slot = find_free_tcp_client_slot m.backend in
      if eqb_ℤ slot minus_one then reject_client m else take_client slot m

  -- A request has arrived.
  unfoldable pub answer_client : List ℕ → ℤ → Machine W → ℤ × Machine W
  answer_client query rc m =
      let (answer, mapping, e) = reply lib m.backend.ctx_tcp query rc m.backend.mapping m.env in
      (
        if eqb_ℤ answer minus_one then minus_one else pos 1,
        record { backend = record m.backend { mapping = mapping }; env = e },
      )

  -- The client is gone.
  unfoldable pub drop_client : ℤ → ℤ → Machine W → ℤ × Machine W
  drop_client index sock m = (
    minus_one,
    record {
      backend = record m.backend {
        tcp_conn_socks = set_sock m.backend.tcp_conn_socks index minus_one;
        tcp_conn_count = m.backend.tcp_conn_count -ℤ pos 1;
      };
      env = close_fd lib sock m.env;
    },
  )

  -- A client in a slot has its turn: the status, the query buffer and the state after the call.
  unfoldable pub serve_client : ℤ → ℤ → List ℕ → Machine W → ℤ × List ℕ × Machine W
  serve_client index sock query m =
      let e1 = outside lib (lib.set_socket m.backend.ctx_tcp sock) m.env in
      let (rc, query', errno, e2) = receive lib m.backend.ctx_tcp query e1 in
      let m' = record m { env = e2 } in
      if ltb_ℤ (pos 0) rc
      then (let (status, m'') = answer_client query' rc m' in (status, query', m''))
      else if eqb_ℤ rc minus_one
      then (let (status, m'') = drop_client index sock m' in (status, query', m''))
      else (pos 0, query', m')

  unfoldable pub tcp_adapter_handle_client : ℤ → List ℕ → Machine W → ℤ × List ℕ × Machine W
  tcp_adapter_handle_client index query m =
      let sock = sock_at m.backend.tcp_conn_socks index in
      if ltb_ℤ index (pos 0) || leb_ℤ (pos max_tcp_clients) index
      then (minus_one, query, m)
      else if eqb_ℤ sock minus_one
      then (minus_one, query, m)
      else serve_client index sock query m

  -- The loop that closes every client and clears its slot.
  unfoldable pub close_clients : List ℤ → Env W → List ℤ × Env W
  close_clients [] e = ([], e)
  close_clients (s ∷ socks) e =
      let e' = if eqb_ℤ s minus_one then e else close_fd lib s e in
      let rest = close_clients socks e' in (minus_one ∷ rest.0, rest.1)

  -- `if (ctx) modbus_free(ctx)`
  abbrev pub free_if_set : Option ℕ → Env W → Env W
  free_if_set none e = e
  free_if_set (some p) e = free_ctx lib (some p) e

  -- The clients, the listening socket and the context, each released if it is there.
  unfoldable pub cleanup_tcp : Machine W → Machine W
  cleanup_tcp m =
      let (socks, e1) = close_clients m.backend.tcp_conn_socks m.env in
      let e2 =
        if eqb_ℤ m.backend.tcp_listen_sock minus_one
        then e1
        else close_fd lib m.backend.tcp_listen_sock e1 in
      let e3 = free_if_set m.backend.ctx_tcp e2 in
      record {
        backend = record m.backend {
          tcp_conn_socks = socks;
          tcp_conn_count = pos 0;
          tcp_listen_sock = minus_one;
          ctx_tcp = none;
        };
        env = e3;
      }

  -- `backend` may be the null pointer.
  unfoldable pub tcp_adapter_cleanup : Option Backend → Env W → Option Backend × Env W
  tcp_adapter_cleanup none e = (none, e)
  tcp_adapter_cleanup (some b) e =
      let m = cleanup_tcp (record { backend = b; env = e }) in (some m.backend, m.env)
