-- ===== src/Legacy/Loop/Contexts.antt =====
-- The contexts that the steps of a round of json-modbus-server.c allocate and free.
use modbus_server.Prelude.{
  ℕ, zero, suc, ◌+◌, ◌≡◌, refl, ◌∙◌, inl, inr, Bool, true, false, List, [], ◌∷◌, none, some, arith,
  if◌then◌else◌, not, ◌&&◌, get_or, Option-cases,
}
use modbus_server.Prelude.Int.{ℤ, minus_one, eqb_ℤ}
use modbus_server.Foreign.Modbus.{Modbus}
use modbus_server.Backend.{max_tcp_clients}
use modbus_server.Config.{ModbusConfig}
use modbus_server.Machine.{
  Env, Machine, times_created, times_freed, close_fd, new_tcp, free_ctx, tcp_listen, tcp_accept,
  receive, reply,
}
use modbus_server.RtuAdapter.Contexts.{IsBalanced, rtu_init-IsBalanced}
use modbus_server.TcpAdapter.{close_clients}
use modbus_server.Legacy.Transport.Starting.{
  listen_tcp, start_tcp, open_rtu, start_rtu, start_mapping, start_machine,
}
use modbus_server.Legacy.Transport.Stopping.{stop_tcp, stop_rtu}
use modbus_server.Legacy.Transport.Serving.{
  accept_ready, accept_step, client_ready, clients_from, clients_step, rtu_ready, rtu_step,
  reconnect_step, serve_machine,
}
use modbus_server.Legacy.Transport.Adapters.{open_rtu_same}

module _ {W : Type 0} (lib : Modbus W) where
  pub start_tcp-IsBalanced :
      (config : ModbusConfig) (m : Machine W)
      → m.backend.ctx_tcp ≡ none
      → IsBalanced m
      → IsBalanced (start_tcp lib config m).1
  unfolding start_tcp listen_tcp new_tcp tcp_listen
  start_tcp-IsBalanced config m empty b q = ground (arith, b q)

  pub accept_step-IsBalanced :
      (on : Bool) (is_set : ℤ → Bool) (m : Machine W)
      → IsBalanced m
      → IsBalanced (accept_step lib on is_set m)
  unfolding accept_ready tcp_accept close_fd
  accept_step-IsBalanced on is_set m b q = ground (arith, b q)

  pub client_ready-IsBalanced :
      (i : ℕ) (sock : ℤ) (query : List ℕ) (m : Machine W)
      → IsBalanced m
      → IsBalanced (client_ready lib i sock (query, m)).1
  unfolding client_ready receive reply close_fd
  client_ready-IsBalanced i sock query m b q = ground (arith, b q)

  pub rtu_ready-IsBalanced :
      (p : ℕ) (query : List ℕ) (m : Machine W)
      → m.backend.ctx_rtu ≡ some p
      → IsBalanced m
      → IsBalanced (rtu_ready lib p (query, m)).1
  unfolding rtu_ready receive reply free_ctx
  rtu_ready-IsBalanced p query m here b q = ground (arith, b q)

  pub open_rtu-IsBalanced :
      (config : ModbusConfig) (m : Machine W)
      → m.backend.ctx_rtu ≡ none
      → IsBalanced m
      → IsBalanced (open_rtu lib config m).1
  open_rtu-IsBalanced config m empty b =
      rw (open_rtu_same lib config m) (rtu_init-IsBalanced lib config m empty b)

  pub start_rtu-IsBalanced :
      (config : ModbusConfig) (m : Machine W)
      → m.backend.ctx_rtu ≡ none
      → IsBalanced m
      → IsBalanced (start_rtu lib config m).1
  unfolding start_rtu
  start_rtu-IsBalanced config m empty b q =
      ground (arith, b q, open_rtu-IsBalanced config m empty b q)

  pub start_mapping-IsBalanced :
      (config : ModbusConfig) (m : Machine W)
      → IsBalanced m
      → IsBalanced (start_mapping lib config m).1
  unfolding start_mapping
  start_mapping-IsBalanced config m b q = b q

  start_tcp-rtu :
      (config : ModbusConfig) (m : Machine W)
      → (start_tcp lib config m).1.backend.ctx_rtu ≡ m.backend.ctx_rtu
  unfolding start_tcp listen_tcp
  start_tcp-rtu config m = ground arith

  pub start_machine-IsBalanced :
      (config : ModbusConfig) (m : Machine W)
      → m.backend.ctx_tcp ≡ none
      → m.backend.ctx_rtu ≡ none
      → IsBalanced m
      → IsBalanced (start_machine lib config m).1
  unfolding start_machine
  start_machine-IsBalanced config m no_tcp no_rtu b q =
      let m1 = (start_tcp lib config m).1 in
      let m2 = (start_rtu lib config m1).1 in
      let b1 = start_tcp-IsBalanced config m no_tcp b in
      let b2 = start_rtu-IsBalanced config m1 (start_tcp-rtu config m ∙ no_rtu) b1 in
      ground (arith, b1 q, b2 q, start_mapping-IsBalanced config m2 b2 q)

  pub clients_from-IsBalanced :
      (left i : ℕ) (is_set : ℤ → Bool) (st : List ℕ × Machine W)
      → IsBalanced st.1
      → IsBalanced (clients_from lib left i is_set st).1
  unfolding clients_from
  clients_from-IsBalanced zero i is_set st b = b
  clients_from-IsBalanced (suc left) i is_set st b =
      let sock = get_or st.1.backend.tcp_conn_socks i minus_one in
      clients_from-IsBalanced left (i + 1) is_set
        (if not (eqb_ℤ sock minus_one) && is_set sock then client_ready lib i sock st else st)
        λ q. ground (arith, b q, client_ready-IsBalanced i sock st.0 st.1 b q)

  pub rtu_step-IsBalanced :
      (on : Bool) (is_set : ℤ → Bool) (st : List ℕ × Machine W)
      → IsBalanced st.1
      → IsBalanced (rtu_step lib on is_set st).1
  unfolding rtu_step
  rtu_step-IsBalanced false is_set st b q = b q
  rtu_step-IsBalanced true is_set (query, m) b q = elim (Option-cases m.backend.ctx_rtu) [
    | inl empty ↦ ground (arith, b q)
    | inr (p, here) ↦ ground (arith, b q, rtu_ready-IsBalanced p query m here b q)
  ]

  pub reconnect_step-IsBalanced :
      (config : ModbusConfig) (m : Machine W)
      → IsBalanced m
      → IsBalanced (reconnect_step lib config m)
  unfolding reconnect_step
  reconnect_step-IsBalanced config m b q = elim (Option-cases m.backend.ctx_rtu) [
    | inl empty ↦ ground (arith, b q, open_rtu-IsBalanced config m empty b q)
    | inr (p, here) ↦ ground (arith, b q)
  ]

  pub serve_machine-IsBalanced :
      (config : ModbusConfig) (is_set : ℤ → Bool) (query : List ℕ) (m : Machine W)
      → IsBalanced m
      → IsBalanced (serve_machine lib config is_set (query, m)).1
  unfolding serve_machine
  serve_machine-IsBalanced config is_set query m b =
      let m1 = accept_step lib config.enable_tcp is_set m in
      let b1 = accept_step-IsBalanced config.enable_tcp is_set m b in
      let st2 = clients_step lib config.enable_tcp is_set (query, m1) in
      let b2 : IsBalanced st2.1 = λ q.
        ground (arith, b1 q, clients_from-IsBalanced max_tcp_clients 0 is_set (query, m1) b1 q) in
      let st3 = rtu_step lib config.enable_rtu is_set st2 in
      reconnect_step-IsBalanced config st3.1 (rtu_step-IsBalanced config.enable_rtu is_set st2 b2)

  pub close_clients-quiet :
      (socks : List ℤ) (e : Env W) (p : ℕ)
      → (times_created p (close_clients lib socks e).1.log ≡ times_created p e.log)
        × (times_freed p (close_clients lib socks e).1.log ≡ times_freed p e.log)
  unfolding close_clients close_fd
  close_clients-quiet [] e p = (refl, refl)
  close_clients-quiet (s ∷ socks) e p =
      let e' = if eqb_ℤ s minus_one then e else close_fd lib s e in
      ground (arith, close_clients-quiet socks e' p)

  pub stop_tcp-IsBalanced : (m : Machine W) → IsBalanced m → IsBalanced (stop_tcp lib m)
  unfolding stop_tcp free_ctx close_fd
  stop_tcp-IsBalanced m b q = elim (Option-cases m.backend.ctx_tcp) [
    | inl empty ↦ ground (arith, b q, close_clients-quiet m.backend.tcp_conn_socks m.env q)
    | inr (p, here) ↦ ground (arith, b q, close_clients-quiet m.backend.tcp_conn_socks m.env q)
  ]

  pub stop_rtu-IsBalanced : (m : Machine W) → IsBalanced m → IsBalanced (stop_rtu lib m)
  unfolding stop_rtu free_ctx
  stop_rtu-IsBalanced m b q = elim (Option-cases m.backend.ctx_rtu) [
    | inl empty ↦ ground (arith, b q)
    | inr (p, here) ↦ ground (arith, b q)
  ]
