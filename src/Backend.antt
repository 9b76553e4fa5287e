-- ===== src/Backend.antt =====
-- src/adapters/modbus_backend.c and modbus_backend.h: the state that the adapters share.
use modbus_server.Prelude.{ℕ, Bool, List, Option, none, some, replicate, if◌then◌else◌}
use modbus_server.Prelude.Int.{ℤ, pos, minus_one}
use modbus_server.Foreign.Mapping.{Mapping}

abbrev pub max_tcp_clients : ℕ
max_tcp_clients = 10

-- A context is known by the number of its object. A slot that is not in use holds -1.
pub record Backend : Type 0 where
  pub ctx_tcp : Option ℕ
  pub ctx_rtu : Option ℕ
  pub mapping : Option Mapping
  pub tcp_listen_sock : ℤ
  pub tcp_conn_socks : List ℤ
  pub tcp_conn_count : ℤ

-- `for (i...) tcp_conn_socks[i] = -1`
unfoldable pub cleared_socks : List ℤ
cleared_socks = replicate max_tcp_clients minus_one

-- `allocated` says whether `malloc` gave memory.
unfoldable pub modbus_backend_create : Bool → Option Backend
unfolding cleared_socks
modbus_backend_create allocated =
    if allocated
    then some (record {
      ctx_tcp = none;
      ctx_rtu = none;
      mapping = none;
      tcp_listen_sock = minus_one;
      tcp_conn_socks = cleared_socks;
      tcp_conn_count = pos 0;
    })
    else none
