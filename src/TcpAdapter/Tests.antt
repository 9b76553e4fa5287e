-- ===== src/TcpAdapter/Tests.antt =====
-- The TCP adapter over the counting library, and the theorems at concrete inputs.
use modbus_server.Prelude.{ℕ, ◌≡◌, refl, true, [], ◌∷◌, none, some, arith, replicate}
use modbus_server.Prelude.Int.{pos, minus_one, ◌≤ℤ◌, eqb_ℤ_iff}
use modbus_server.Backend.{Backend, modbus_backend_create, max_tcp_clients, cleared_socks}
use modbus_server.Machine.{
  Machine, opened, created, times_opened, times_closed, new_tcp, tcp_listen, tcp_accept,
}
use modbus_server.TcpAdapter.{
  find_free_from, find_free_tcp_client_slot, tcp_adapter_init, tcp_adapter_accept_client,
  take_client, tcp_adapter_handle_client, cleanup_tcp,
}
use modbus_server.TcpAdapter.Invariant.{IsTable, IsAccounted}
use modbus_server.TcpAdapter.Operations.{
  Reach, started, accepted, served, here, next, history-IsSound, history-released,
}
use modbus_server.Samples.{counting, counting_keeps, plain_config, plain_backend}

abbrev new_backend : Backend
new_backend = record {
  ctx_tcp = none;
  ctx_rtu = none;
  mapping = none;
  tcp_listen_sock = minus_one;
  tcp_conn_socks = replicate 10 minus_one;
  tcp_conn_count = pos 0;
}

abbrev at_start : Machine ℕ
at_start = record { backend = new_backend; env = record { world = 20; log = [] } }

new_backend_lem : modbus_backend_create true ≡ some new_backend
unfolding modbus_backend_create
new_backend_lem = refl

-- The server starts, takes a client and hears it out.
abbrev after_start : Machine ℕ
after_start = (tcp_adapter_init counting plain_config at_start).1

abbrev after_accept : Machine ℕ
after_accept = (tcp_adapter_accept_client counting after_start).1

abbrev after_serve : Machine ℕ
after_serve = (tcp_adapter_handle_client counting (pos 0) [] after_accept).2

used : Reach counting plain_config at_start after_serve
used = next (next (next here (started refl refl)) accepted) (served (pos 0) [])

one_client : after_accept.backend.tcp_conn_socks ≡ pos 22 ∷ replicate 9 minus_one
unfolding tcp_adapter_init tcp_adapter_accept_client find_free_tcp_client_slot find_free_from
    take_client new_tcp tcp_listen tcp_accept cleared_socks
one_client = refl

history-IsSound_example :
    IsTable after_serve.backend
    × IsAccounted after_serve
    × (pos 0 ≤ℤ after_serve.backend.tcp_conn_count)
    × (after_serve.backend.tcp_conn_count ≤ℤ pos max_tcp_clients)
history-IsSound_example =
    history-IsSound counting plain_config counting_keeps 20 new_backend_lem used

history-released_example :
    times_opened (pos 22) (cleanup_tcp counting after_serve).env.log
    ≡ times_closed (pos 22) (cleanup_tcp counting after_serve).env.log
history-released_example =
    history-released counting plain_config counting_keeps 20 (pos 22) new_backend_lem used
      (ground arith)

-- A machine with one client and a listening socket.
abbrev plain_machine : Machine ℕ
plain_machine = record {
  backend = plain_backend;
  env = record { world = 20; log = opened (pos 4) ∷ opened (pos 3) ∷ created 1 ∷ [] };
}

plain_machine-IsAccounted : IsAccounted plain_machine
plain_machine-IsAccounted fd ne = ground (arith, eqb_ℤ_iff minus_one fd)
