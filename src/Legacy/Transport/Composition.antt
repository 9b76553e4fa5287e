-- ===== src/Legacy/Transport/Composition.antt =====
-- The service of a round of json-modbus-server.c, as calls of the adapters of src/.
use modbus_server.Prelude.{
  ℕ, zero, suc, ◌+◌, ◌≤◌, ◌≡◌, refl, ap, ◌∙◌, Bool, not, ◌&&◌, List, Option, none, some, arith,
  get_or, if◌then◌else◌, Option-cases, if_same, inl, inr,
}
use modbus_server.Prelude.Int.{ℤ, pos, minus_one, eqb_ℤ, eqb_ℤ_iff}
use modbus_server.Foreign.Modbus.{Modbus}
use modbus_server.Backend.{Backend, max_tcp_clients}
use modbus_server.Config.{ModbusConfig}
use modbus_server.Machine.{Env, Machine}
use modbus_server.TcpAdapter.{tcp_adapter_accept_client, tcp_adapter_handle_client}
use modbus_server.RtuAdapter.{rtu_adapter_init}
use modbus_server.ServerController
use modbus_server.Legacy.Transport.Serving.{
  accept_step, client_ready, clients_from, clients_step, rtu_step, reconnect_step, serve_machine,
}
use modbus_server.Legacy.Transport.Adapters.{
  accept_ready_same, client_ready_same, rtu_ready_same, open_rtu_same, without_status,
}

module _ {W : Type 0} (lib : Modbus W) where
  -- Where the listening socket is ready, the adapter accepts.
  abbrev adapter_accept : Bool → (ℤ → Bool) → Machine W → Machine W
  adapter_accept enable_tcp is_set m =
      if enable_tcp
        && (not (eqb_ℤ m.backend.tcp_listen_sock minus_one) && is_set m.backend.tcp_listen_sock)
      then (tcp_adapter_accept_client lib m).1
      else m

  -- The adapter serves the slots from the `i`-th on whose clients are ready.
  pub adapter_clients : ℕ → ℕ → (ℤ → Bool) → List ℕ × Machine W → List ℕ × Machine W
  adapter_clients zero i is_set st = st
  adapter_clients (suc left) i is_set (query, m) =
      let sock = get_or m.backend.tcp_conn_socks i minus_one in
      adapter_clients left (i + 1) is_set (
        if not (eqb_ℤ sock minus_one) && is_set sock
        then (let r = tcp_adapter_handle_client lib (pos i) query m in (r.1, r.2))
        else (query, m))

  -- A machine, put together again from what a call with a pointer leaves.
  abbrev as_machine : List ℕ × Machine W → List ℕ × Option Backend × Env W → List ℕ × Machine W
  as_machine st (query, none, e) = st
  as_machine st (query, some b, e) = (query, record { backend = b; env = e })

  -- Where the serial line is there and ready, the adapter serves it.
  abbrev adapter_line : Bool → (ℤ → Bool) → List ℕ × Machine W → List ℕ × Machine W
  adapter_line enable_rtu is_set st =
      if enable_rtu
      then elim st.1.backend.ctx_rtu [
        | none ↦ st
        | some p ↦
            let fd = lib.get_socket (some p) st.1.env.world in
            if not (eqb_ℤ fd minus_one) && is_set fd
            then as_machine st (
                without_status lib
                  (ServerController.rtu_adapter_handle lib (some st.1.backend) st.0 st.1.env))
            else st
      ]
      else st

  -- Where the line is enabled and not there, the adapter opens it.
  abbrev adapter_reconnect : ModbusConfig → Machine W → Machine W
  adapter_reconnect config m =
      if config.enable_rtu
      then elim m.backend.ctx_rtu [ some _ ↦ m | none ↦ (rtu_adapter_init lib config m).1 ]
      else m

  -- A round of service by the adapters.
  abbrev pub served_by_adapters :
      ModbusConfig → (ℤ → Bool) → List ℕ × Machine W → List ℕ × Machine W
  served_by_adapters config is_set (query, m) =
      let m1 = adapter_accept config.enable_tcp is_set m in
      let st2 =
        if config.enable_tcp
        then adapter_clients max_tcp_clients 0 is_set (query, m1)
        else (query, m1) in
      let (query3, m3) = adapter_line config.enable_rtu is_set st2 in
      (query3, adapter_reconnect config m3)

  clients_from_same :
      (left i : ℕ) (is_set : ℤ → Bool) (st : List ℕ × Machine W)
      → left + i ≤ max_tcp_clients
      → clients_from lib left i is_set st ≡ adapter_clients left i is_set st
  unfolding clients_from adapter_clients
  clients_from_same zero i is_set st h = refl
  clients_from_same (suc left) i is_set (query, m) h =
      let sock = get_or m.backend.tcp_conn_socks i minus_one in
      let r = tcp_adapter_handle_client lib (pos i) query m in
      let ready = not (eqb_ℤ sock minus_one) && is_set sock in
      let next : List ℕ × Machine W = if ready then (r.1, r.2) else (query, m) in
      let step : (if ready then client_ready lib i sock (query, m) else (query, m)) ≡ next =
        if_same ready (query, m)
          (λ go.
            client_ready_same lib i query m (omega (arith, h))
              (ground (arith, go, eqb_ℤ_iff sock minus_one))) in
      ap (clients_from lib left (i + 1) is_set) step
      ∙ clients_from_same left (i + 1) is_set next (omega (arith, h))

  line_same :
      (on : Bool) (is_set : ℤ → Bool) (st : List ℕ × Machine W)
      → rtu_step lib on is_set st ≡ adapter_line on is_set st
  unfolding rtu_step
  line_same on is_set (query, m) = elim (Option-cases m.backend.ctx_rtu) [
    | inl empty ↦ ground arith
    | inr (p, here) ↦ ground (arith, rtu_ready_same lib p query m here)
  ]

  reconnect_step_same :
      (config : ModbusConfig) (m : Machine W)
      → reconnect_step lib config m ≡ adapter_reconnect config m
  unfolding reconnect_step
  reconnect_step_same config m = ground (arith, open_rtu_same lib config m)

  -- The service in a round of json-modbus-server.c is the adapters of src/ called one after the
  -- other: accepting where the listening socket is ready, the turn of each slot whose client is
  -- ready, the serial line of server_controller.c where it is ready, and its initialisation where
  -- it is enabled and not there.
  pub serve_machine_same :
      (config : ModbusConfig) (is_set : ℤ → Bool) (query : List ℕ) (m : Machine W)
      → serve_machine lib config is_set (query, m) ≡ served_by_adapters config is_set (query, m)
  unfolding serve_machine
  serve_machine_same config is_set query m =
      let m1 = adapter_accept config.enable_tcp is_set m in
      let accepted : accept_step lib config.enable_tcp is_set m ≡ m1 =
        if_same _ m (λ go. accept_ready_same lib m) in
      let st1 : List ℕ × Machine W = (query, m1) in
      let st2 = if config.enable_tcp then adapter_clients max_tcp_clients 0 is_set st1 else st1 in
      let st3 = adapter_line config.enable_rtu is_set st2 in
      let finish : List ℕ × Machine W → List ℕ × Machine W =
        λ st. (st.0, reconnect_step lib config st.1) in
      let line : List ℕ × Machine W → List ℕ × Machine W =
        λ st. finish (rtu_step lib config.enable_rtu is_set st) in
      ap (λ x. line (clients_step lib config.enable_tcp is_set (query, x))) accepted
      ∙ ap line (
          if_same config.enable_tcp st1
            (λ on. clients_from_same max_tcp_clients 0 is_set st1 (omega arith)))
      ∙ ap finish (line_same config.enable_rtu is_set st2)
      ∙ ap (λ x. (st3.0, x)) (reconnect_step_same config st3.1)
