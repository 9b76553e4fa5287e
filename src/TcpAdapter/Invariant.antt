-- ===== src/TcpAdapter/Invariant.antt =====
-- The invariant of the TCP adapter: the table has ten slots, the counter says how many are in use,
-- and the log accounts for every descriptor: it is in a slot, or it is the listening socket, as
-- often as it has been handed out and not been closed.
use modbus_server.Prelude.{ℕ, ◌+◌, ◌≡◌, ◌≢◌, length, if◌then◌else◌}
use modbus_server.Prelude.Int.{ℤ, pos, minus_one, eqb_ℤ}
use modbus_server.Backend.{Backend, max_tcp_clients}
use modbus_server.Machine.{Machine, times_opened, times_closed}
use modbus_server.TcpAdapter.Slots.{active, in_slots}

-- The table of clients of a backend.
pub record IsTable (b : Backend) : Type 0 where
  pub ten : length b.tcp_conn_socks ≡ max_tcp_clients
  pub counted : b.tcp_conn_count ≡ pos (active b.tcp_conn_socks)

-- How often the backend holds a descriptor.
abbrev pub held : ℤ → Backend → ℕ
held fd b = (if eqb_ℤ b.tcp_listen_sock fd then 1 else 0) + in_slots fd b.tcp_conn_socks

-- Every descriptor has been handed out as often as it was closed and is held.
abbrev pub IsAccounted : {W : Type 0} → Machine W → Type 0
IsAccounted m =
    (fd : ℤ)
    → fd ≢ minus_one
    → times_opened fd m.env.log ≡ times_closed fd m.env.log + held fd m.backend
