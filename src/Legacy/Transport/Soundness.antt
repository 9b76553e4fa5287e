-- ===== src/Legacy/Transport/Soundness.antt =====
-- What holds of the transports of json-modbus-server.c between two steps: the invariants of the two
-- adapters, and nothing open for a transport that is not enabled.
use modbus_server.Prelude.{
  ℕ, zero, suc, ◌+◌, ◌<◌, ◌≤◌, ◌≡◌, ◌≢◌, refl, ap, sym, subst, inl, inr, Bool, true, false, not,
  ◌&&◌, List, none, arith, get_or, if◌then◌else◌, Bool-cases,
}
use modbus_server.Prelude.Int.{ℤ, pos, minus_one, eqb_ℤ, eqb_ℤ_iff}
use modbus_server.Foreign.Modbus.{Modbus, KeepsListening}
use modbus_server.Backend.{max_tcp_clients}
use modbus_server.Config.{ModbusConfig}
use modbus_server.Machine.{Machine, times_opened, times_closed, times_created, times_freed}
use modbus_server.TcpAdapter.{tcp_adapter_handle_client}
use modbus_server.TcpAdapter.Invariant.{IsTable, held}
use modbus_server.TcpAdapter.Accept.{accept_client-IsTable, accept_client-IsAccounted}
use modbus_server.TcpAdapter.Serve.{handle_client-IsTable, handle_client-IsAccounted}
use modbus_server.RtuAdapter.Contexts.{IsBalanced}
use modbus_server.Legacy.Transport.Serving.{
  accept_ready, accept_step, client_ready, clients_from, clients_step,
}
use modbus_server.Legacy.Transport.Adapters.{accept_ready_same, client_ready_same}
use modbus_server.Legacy.Loop.Contexts.{accept_step-IsBalanced, client_ready-IsBalanced}

pub record IsSound {W : Type 0} (config : ModbusConfig) (m : Machine W) : Type 0 where
  pub table : config.enable_tcp ≡ true → IsTable m.backend
  pub accounted :
      (fd : ℤ)
      → fd ≢ minus_one
      → config.enable_tcp ≡ true
      → times_opened fd m.env.log ≡ times_closed fd m.env.log + held fd m.backend
  pub unopened :
      (fd : ℤ)
      → fd ≢ minus_one
      → config.enable_tcp ≡ false
      → times_opened fd m.env.log ≡ times_closed fd m.env.log
  pub balanced : IsBalanced m
  pub no_listener : config.enable_tcp ≡ false → m.backend.tcp_listen_sock ≡ minus_one
  pub no_server : config.enable_tcp ≡ false → m.backend.ctx_tcp ≡ none
  pub no_line : config.enable_rtu ≡ false → m.backend.ctx_rtu ≡ none

-- Every descriptor other than -1 has been closed as often as it was handed out, and every context
-- freed as often as it was allocated.
pub record IsReleased {W : Type 0} (m : Machine W) : Type 0 where
  pub descriptors :
      (fd : ℤ) → fd ≢ minus_one → times_opened fd m.env.log ≡ times_closed fd m.env.log
  pub contexts : (p : ℕ) → times_created p m.env.log ≡ times_freed p m.env.log

module _ {W : Type 0} (lib : Modbus W) (keeps : KeepsListening lib) (config : ModbusConfig) where
  accept_ready-IsSound :
      (m : Machine W)
      → config.enable_tcp ≡ true
      → IsBalanced (accept_ready lib m)
      → (accept_ready lib m).backend.ctx_rtu ≡ m.backend.ctx_rtu
      → IsSound config m
      → IsSound config (accept_ready lib m)
  accept_ready-IsSound m on b line s = record {
    table = λ _. rw (accept_ready_same lib m) (accept_client-IsTable lib m (s.table on));
    accounted = λ fd ne _.
        rw (accept_ready_same lib m)
          (accept_client-IsAccounted lib m keeps (λ f n. s.accounted f n on) fd ne);
    unopened = λ fd ne off. absurd (cc);
    balanced = b;
    no_listener = λ off. ground arith;
    no_server = λ off. ground arith;
    no_line = λ off. ground (arith, s.no_line);
  }

  accept_ready-line : (m : Machine W) → (accept_ready lib m).backend.ctx_rtu ≡ m.backend.ctx_rtu
  unfolding accept_ready
  accept_ready-line m = ground arith

  pub accept_step-IsSound :
      (is_set : ℤ → Bool) (m : Machine W)
      → IsSound config m
      → IsSound config (accept_step lib config.enable_tcp is_set m)
  accept_step-IsSound is_set m s =
      elim (Bool-cases (
        config.enable_tcp
        && (not (eqb_ℤ m.backend.tcp_listen_sock minus_one) && is_set m.backend.tcp_listen_sock))) [
          | inl go ↦
              let on : config.enable_tcp ≡ true = ground arith in
              let same : accept_step lib config.enable_tcp is_set m ≡ accept_ready lib m =
                rw go refl in
              subst (IsSound config) (sym same) (
                accept_ready-IsSound m on
                  (subst (λ r. IsBalanced r) same
                    (accept_step-IsBalanced lib config.enable_tcp is_set m s.balanced))
                  (accept_ready-line m) s)
          | inr stay ↦ rw stay s
        ]

  client_ready-line :
      (i : ℕ) (sock : ℤ) (query : List ℕ) (m : Machine W)
      → (client_ready lib i sock (query, m)).1.backend.ctx_rtu ≡ m.backend.ctx_rtu
  unfolding client_ready
  client_ready-line i sock query m = ground arith

  client_ready-IsSound :
      (i : ℕ) (query : List ℕ) (m : Machine W)
      → config.enable_tcp ≡ true
      → i < max_tcp_clients
      → get_or m.backend.tcp_conn_socks i minus_one ≢ minus_one
      → IsSound config m
      → IsSound config
          (client_ready lib i (get_or m.backend.tcp_conn_socks i minus_one) (query, m)).1
  client_ready-IsSound i query m on small used s =
      let sock = get_or m.backend.tcp_conn_socks i minus_one in
      let r = tcp_adapter_handle_client lib (pos i) query m in
      let same : (client_ready lib i sock (query, m)).1 ≡ r.2 =
        ap (λ st. st.1) (client_ready_same lib i query m small used) in
      record {
        table = λ _. rw same (handle_client-IsTable lib m (pos i) query (s.table on));
        accounted = λ fd ne _. rw same (
            handle_client-IsAccounted lib m (pos i) query (s.table on) (λ f n. s.accounted f n on)
              fd ne);
        unopened = λ fd ne off. absurd (cc);
        balanced = client_ready-IsBalanced lib i sock query m s.balanced;
        no_listener = λ off. ground arith;
        no_server = λ off. ground arith;
        no_line = λ off. ground (arith, s.no_line, client_ready-line i sock query m);
      }

  clients_from-IsSound :
      (left i : ℕ) (is_set : ℤ → Bool) (st : List ℕ × Machine W)
      → config.enable_tcp ≡ true
      → left + i ≤ max_tcp_clients
      → IsSound config st.1
      → IsSound config (clients_from lib left i is_set st).1
  unfolding clients_from
  clients_from-IsSound zero i is_set st on h s = s
  clients_from-IsSound (suc left) i is_set (query, m) on h s =
      let sock = get_or m.backend.tcp_conn_socks i minus_one in
      clients_from-IsSound left (i + 1) is_set
        (if not (eqb_ℤ sock minus_one) && is_set sock
          then client_ready lib i sock (query, m)
          else (query, m))
        on (omega arith)
        (elim (Bool-cases (not (eqb_ℤ sock minus_one) && is_set sock)) [
          | inl go ↦ rw go (
              client_ready-IsSound i query m on (omega arith)
                (ground (arith, eqb_ℤ_iff sock minus_one)) s)
          | inr stay ↦ rw stay s
        ])

  pub clients_step-IsSound :
      (is_set : ℤ → Bool) (st : List ℕ × Machine W)
      → IsSound config st.1
      → IsSound config (clients_step lib config.enable_tcp is_set st).1
  clients_step-IsSound is_set st s = elim (Bool-cases config.enable_tcp) [
    | inl on ↦
        let same : clients_step lib config.enable_tcp is_set st
            ≡ clients_from lib max_tcp_clients 0 is_set st =
          ground arith in
        subst (λ r. IsSound config r.1) (sym same)
          (clients_from-IsSound max_tcp_clients 0 is_set st on (omega arith) s)
    | inr off ↦
        let same : clients_step lib config.enable_tcp is_set st ≡ st = ground arith in
        subst (λ r. IsSound config r.1) (sym same) s
  ]

-- Nothing is open, and nothing was lost.
pub record IsClosed {W : Type 0} (m : Machine W) : Type 0 where
  pub listener : m.backend.tcp_listen_sock ≡ minus_one
  pub server : m.backend.ctx_tcp ≡ none
  pub line : m.backend.ctx_rtu ≡ none
  pub released : IsReleased m
