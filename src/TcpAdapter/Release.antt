-- ===== src/TcpAdapter/Release.antt =====
-- `tcp_adapter_cleanup` of tcp_adapter.c: what is given back.
use modbus_server.Prelude.{
  ℕ, ◌+◌, ◌≡◌, ◌≢◌, refl, List, [], ◌∷◌, Option, none, some, arith, length, if◌then◌else◌,
  replicate,
}
use modbus_server.Prelude.Int.{ℤ, pos, minus_one, eqb_ℤ, eqb_ℤ_iff}
use modbus_server.Foreign.Modbus.{Modbus}
use modbus_server.Backend.{cleared_socks}
use modbus_server.Machine.{Env, Machine, times_opened, times_closed, close_fd, free_ctx}
use modbus_server.TcpAdapter.{close_clients, free_if_set, cleanup_tcp}
use modbus_server.TcpAdapter.Slots.{in_slots}
use modbus_server.TcpAdapter.Invariant.{IsTable, IsAccounted}

module _ {W : Type 0} (lib : Modbus W) where
  pub close_clients_slots :
      (socks : List ℤ) (e : Env W)
      → (close_clients lib socks e).0 ≡ replicate (length socks) minus_one
  unfolding close_clients
  close_clients_slots [] e = refl
  close_clients_slots (s ∷ socks) e =
      ground (arith, close_clients_slots socks (if eqb_ℤ s minus_one then e else close_fd lib s e))

  -- Closing the clients closes each descriptor as often as it stands in the table.
  pub close_clients_log :
      (fd : ℤ) (socks : List ℤ) (e : Env W)
      → fd ≢ minus_one
      → (times_opened fd (close_clients lib socks e).1.log ≡ times_opened fd e.log)
        × (times_closed fd (close_clients lib socks e).1.log
            ≡ in_slots fd socks + times_closed fd e.log)
  unfolding close_clients close_fd
  close_clients_log fd [] e h = (refl, omega arith)
  close_clients_log fd (s ∷ socks) e h = ground (
    arith,
    close_clients_log fd socks (if eqb_ℤ s minus_one then e else close_fd lib s e) h,
    eqb_ℤ_iff s minus_one,
    eqb_ℤ_iff s fd,
  )

  free_if_set_log :
      (fd : ℤ) (ctx : Option ℕ) (e : Env W)
      → (times_opened fd (free_if_set lib ctx e).log ≡ times_opened fd e.log)
        × (times_closed fd (free_if_set lib ctx e).log ≡ times_closed fd e.log)
  unfolding free_ctx
  free_if_set_log fd none e = (refl, refl)
  free_if_set_log fd (some p) e = (refl, refl)

  -- For a well-formed table and an accounted log, after a cleanup every descriptor other than -1
  -- has been closed as often as handed out, and the backend has no context, listening socket or
  -- client left.
  pub cleanup_tcp_lem :
      (m : Machine W)
      → IsTable m.backend
      → IsAccounted m
      → ((fd : ℤ)
          → fd ≢ minus_one
          → times_opened fd (cleanup_tcp lib m).env.log
            ≡ times_closed fd (cleanup_tcp lib m).env.log)
        × ((cleanup_tcp lib m).backend ≡ record m.backend {
          ctx_tcp = none;
          tcp_listen_sock = minus_one;
          tcp_conn_socks = cleared_socks;
          tcp_conn_count = pos 0;
        })
  unfolding cleanup_tcp close_fd cleared_socks
  cleanup_tcp_lem m t a =
      let socks = m.backend.tcp_conn_socks in
      let listen = m.backend.tcp_listen_sock in
      let e1 = (close_clients lib socks m.env).1 in
      let e2 = if eqb_ℤ listen minus_one then e1 else close_fd lib listen e1 in
      (
        λ fd ne. ground (
          arith,
          free_if_set_log fd m.backend.ctx_tcp e2,
          close_clients_log fd socks m.env ne,
          a fd ne,
          eqb_ℤ_iff listen minus_one,
          eqb_ℤ_iff listen fd,
        ),
        rw (close_clients_slots socks m.env, t.ten),
      )
