-- ===== src/Legacy/Transport/Serving.antt =====
-- The connections in one round of the main loop of json-modbus-server.c: a new client, the clients
-- in their slots, the serial line, and its reconnection.
use modbus_server.Prelude.{
  ℕ, zero, suc, ◌+◌, Bool, not, ◌&&◌, List, [], ◌∷◌, none, some, set, get_or, if◌then◌else◌,
}
use modbus_server.Prelude.Int.{ℤ, pos, minus_one, eqb_ℤ, ltb_ℤ, ◌+ℤ◌, ◌-ℤ◌}
use modbus_server.Foreign.Modbus.{Modbus}
use modbus_server.Backend.{max_tcp_clients}
use modbus_server.Config.{ModbusConfig}
use modbus_server.Machine.{Machine, outside, close_fd, free_ctx, tcp_accept, receive, reply}
use modbus_server.TcpAdapter.{set_sock}
use modbus_server.RtuAdapter.{is_failure}
use modbus_server.Legacy.Transport.Starting.{open_rtu}

-- `find_free_tcp_client_slot`, from the `i`-th slot on.
unfoldable pub find_free : ℕ → List ℤ → ℤ
find_free i [] = minus_one
find_free i (s ∷ socks) =
    let rest = find_free (i + 1) socks in if eqb_ℤ s minus_one then pos i else rest

module _ {W : Type 0} (lib : Modbus W) where
  -- The listening socket is ready.
  unfoldable pub accept_ready : Machine W → Machine W
  accept_ready m =
      let slot = find_free 0 m.backend.tcp_conn_socks in
      let (fd, listen, e) = tcp_accept lib m.backend.ctx_tcp m.backend.tcp_listen_sock m.env in
      let heard = record m.backend { tcp_listen_sock = listen } in
      if not (eqb_ℤ slot minus_one)
      then (if not (eqb_ℤ fd minus_one)
          then record {
            backend = record heard {
              tcp_conn_socks = set_sock heard.tcp_conn_socks slot fd;
              tcp_conn_count = heard.tcp_conn_count +ℤ pos 1;
            };
            env = e;
          }
          else record { backend = heard; env = e })
      else record {
        backend = heard;
        env = if not (eqb_ℤ fd minus_one) then close_fd lib fd e else e;
      }

  abbrev pub accept_step : Bool → (ℤ → Bool) → Machine W → Machine W
  accept_step enable_tcp is_set m =
      if enable_tcp
        && (not (eqb_ℤ m.backend.tcp_listen_sock minus_one) && is_set m.backend.tcp_listen_sock)
      then accept_ready m
      else m

  -- The turn of the client in a slot. The query buffer is handed on.
  unfoldable pub client_ready : ℕ → ℤ → List ℕ × Machine W → List ℕ × Machine W
  client_ready i sock (query, m) =
      let e1 = outside lib (lib.set_socket m.backend.ctx_tcp sock) m.env in
      let (rc, query', errno, e2) = receive lib m.backend.ctx_tcp query e1 in
      if ltb_ℤ (pos 0) rc
      then (let (answer, mapping, e3) =
            reply lib m.backend.ctx_tcp query' rc m.backend.mapping e2 in
          (query', record { backend = record m.backend { mapping = mapping }; env = e3 }))
      else if eqb_ℤ rc minus_one
      then (
        query',
        record {
          backend = record m.backend {
            tcp_conn_socks = set m.backend.tcp_conn_socks i minus_one;
            tcp_conn_count = m.backend.tcp_conn_count -ℤ pos 1;
          };
          env = close_fd lib sock e2;
        },
      )
      else (query', record m { env = e2 })

  -- The loop over the slots, from the `i`-th on, with the rounds left.
  unfoldable pub clients_from : ℕ → ℕ → (ℤ → Bool) → List ℕ × Machine W → List ℕ × Machine W
  clients_from zero i is_set st = st
  clients_from (suc left) i is_set st =
      let sock = get_or st.1.backend.tcp_conn_socks i minus_one in
      clients_from left (i + 1) is_set
        (if not (eqb_ℤ sock minus_one) && is_set sock then client_ready i sock st else st)

  abbrev pub clients_step : Bool → (ℤ → Bool) → List ℕ × Machine W → List ℕ × Machine W
  clients_step enable_tcp is_set st =
      if enable_tcp then clients_from max_tcp_clients 0 is_set st else st

  -- The serial line is ready; a failure closes it.
  unfoldable pub rtu_ready : ℕ → List ℕ × Machine W → List ℕ × Machine W
  rtu_ready p (query, m) =
      let (rc, query', errno, e) = receive lib (some p) query m.env in
      if ltb_ℤ (pos 0) rc
      then (let (answer, mapping, e') = reply lib (some p) query' rc m.backend.mapping e in
          (query', record { backend = record m.backend { mapping = mapping }; env = e' }))
      else if eqb_ℤ rc minus_one && is_failure errno
      then (
        query',
        record {
          backend = record m.backend { ctx_rtu = none };
          env = free_ctx lib (some p) (outside lib (lib.close (some p)) e);
        },
      )
      else (query', record m { env = e })

  unfoldable pub rtu_step : Bool → (ℤ → Bool) → List ℕ × Machine W → List ℕ × Machine W
  rtu_step enable_rtu is_set st =
      if enable_rtu
      then elim st.1.backend.ctx_rtu [
        | none ↦ st
        | some p ↦
            let fd = lib.get_socket (some p) st.1.env.world in
            if not (eqb_ℤ fd minus_one) && is_set fd then rtu_ready p st else st
      ]
      else st

  -- The reconnection of a line that is enabled and closed.
  unfoldable pub reconnect_step : ModbusConfig → Machine W → Machine W
  reconnect_step config m =
      if config.enable_rtu
      then elim m.backend.ctx_rtu [ some _ ↦ m | none ↦ (open_rtu lib config m).1 ]
      else m

  -- `Handle connections only when running`
  unfoldable pub serve_machine : ModbusConfig → (ℤ → Bool) → List ℕ × Machine W → List ℕ × Machine W
  serve_machine config is_set (query, m) =
      let m1 = accept_step config.enable_tcp is_set m in
      let st2 = clients_step config.enable_tcp is_set (query, m1) in
      let (query3, m3) = rtu_step config.enable_rtu is_set st2 in (query3, reconnect_step config m3)
