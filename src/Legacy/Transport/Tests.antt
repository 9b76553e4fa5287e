-- ===== src/Legacy/Transport/Tests.antt =====
-- The transports of json-modbus-server.c over the sample library.
use modbus_server.Prelude.{ℕ, ◌≡◌, refl, true, [], some}
use modbus_server.Machine.{Machine, new_tcp, tcp_listen}
use modbus_server.Legacy.Transport.Starting.{start_tcp, listen_tcp}
use modbus_server.Legacy.Transport.Serving.{serve_machine}
use modbus_server.Legacy.Transport.Composition.{served_by_adapters, serve_machine_same}
use modbus_server.Samples.{counting, plain_config, plain_backend}

abbrev served : Machine ℕ
served = record {
  backend = record plain_backend { ctx_rtu = some 2 };
  env = record { world = 20; log = [] };
}

serve_machine_same_example :
    serve_machine counting plain_config (λ _. true) ([], served)
    ≡ served_by_adapters counting plain_config (λ _. true) ([], served)
serve_machine_same_example = serve_machine_same counting plain_config (λ _. true) [] served

starts_up : (start_tcp counting plain_config served).0 ≡ true
unfolding start_tcp listen_tcp new_tcp tcp_listen
starts_up = refl
