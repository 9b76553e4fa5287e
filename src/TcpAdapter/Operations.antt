-- ===== src/TcpAdapter/Operations.antt =====
-- The life of the TCP adapter: any sequence of its operations, from a new backend on.
use modbus_server.Prelude.{
  ℕ, ◌≡◌, ◌≢◌, refl, ap, subst, ◌⊎◌, true, List, [], ◌∷◌, some, arith, length, get_elem?, set,
}
use mathlib.Core.Option.{some-injective}
use modbus_server.Prelude.Int.{ℤ, pos, minus_one, eqb_ℤ_iff, ◌+ℤ◌, ◌≤ℤ◌}
use modbus_server.Foreign.Modbus.{Modbus, KeepsListening}
use modbus_server.Backend.{Backend, modbus_backend_create, max_tcp_clients, cleared_socks}
use modbus_server.Config.{ModbusConfig}
use modbus_server.Machine.{opened, closed, Machine, times_opened, times_closed}
use modbus_server.TcpAdapter.{
  tcp_adapter_init, tcp_adapter_accept_client, tcp_adapter_handle_client, cleanup_tcp,
}
use modbus_server.TcpAdapter.Slots.{active, active-le, in_slots-replicate}
use modbus_server.TcpAdapter.Invariant.{IsTable, held, IsAccounted}
use modbus_server.TcpAdapter.Accept.{accept_client-IsTable, accept_client-IsAccounted}
use modbus_server.TcpAdapter.Serve.{handle_client-IsTable, handle_client-IsAccounted}
use modbus_server.TcpAdapter.Release.{cleanup_tcp_lem}
use modbus_server.TcpAdapter.Start.{init-IsTable, init-IsAccounted}

module _ {W : Type 0} (lib : Modbus W) where
  -- What an accept does, by its result.
  abbrev pub Accepted : Machine W → ℤ × Machine W → Type 0
  Accepted m r =
      ((active m.backend.tcp_conn_socks ≡ length m.backend.tcp_conn_socks)
        × (r.0 ≡ minus_one)
        × (r.1.backend.tcp_conn_socks ≡ m.backend.tcp_conn_socks)
        × (r.1.backend.tcp_conn_count ≡ m.backend.tcp_conn_count)
        × ((r.1.env.log ≡ m.env.log)
            ⊎ ((fd : ℤ) × (r.1.env.log ≡ closed fd ∷ opened fd ∷ m.env.log))))
      ⊎ ((r.0 ≡ minus_one)
          × (r.1.backend.tcp_conn_socks ≡ m.backend.tcp_conn_socks)
          × (r.1.backend.tcp_conn_count ≡ m.backend.tcp_conn_count)
          × (r.1.env.log ≡ m.env.log))
      ⊎ ((k : ℕ) × (fd : ℤ) × (r.0 ≡ pos k)
          × (fd ≢ minus_one)
          × (get_elem? m.backend.tcp_conn_socks k ≡ some minus_one)
          × (r.1.backend.tcp_conn_socks ≡ set m.backend.tcp_conn_socks k fd)
          × (r.1.backend.tcp_conn_count ≡ m.backend.tcp_conn_count +ℤ pos 1)
          × (r.1.env.log ≡ opened fd ∷ m.env.log))

  -- The operations, in any order; the server is started where nothing is open.
  pub data Step (config : ModbusConfig) (m : Machine W) : Machine W → Type 0 where
    started :
        active m.backend.tcp_conn_socks ≡ 0
        → m.backend.tcp_listen_sock ≡ minus_one
        → Step config m (tcp_adapter_init lib config m).1
    accepted : Step config m (tcp_adapter_accept_client lib m).1
    served :
        (index : ℤ) (query : List ℕ) → Step config m (tcp_adapter_handle_client lib index query m).2
    released : Step config m (cleanup_tcp lib m)

  pub data Reach (config : ModbusConfig) (m : Machine W) : Machine W → Type 0 where
    here : Reach config m m
    next : {m' m'' : Machine W} → Reach config m m' → Step config m' m'' → Reach config m m''

  abbrev pub IsSound : Machine W → Type 0
  IsSound m = IsTable m.backend × IsAccounted m

  cleanup-IsSound : (m : Machine W) → IsSound m → IsSound (cleanup_tcp lib m)
  unfolding cleared_socks
  cleanup-IsSound m (t, a) =
      let (balance, e) = cleanup_tcp_lem lib m t a in
      (
        rw e (record { ten = refl; counted = refl }),
        λ fd ne. ground (
          arith,
          balance fd ne,
          ap (held fd) e,
          in_slots-replicate fd max_tcp_clients ne,
          eqb_ℤ_iff minus_one fd,
        ),
      )

  Step-IsSound :
      (config : ModbusConfig) (keeps : KeepsListening lib) {m m' : Machine W}
      → Step config m m'
      → IsSound m
      → IsSound m'
  Step-IsSound config keeps {m} (started empty silent) (t, a) =
      (init-IsTable lib config m t, init-IsAccounted lib config m t empty silent a)
  Step-IsSound config keeps {m} accepted (t, a) =
      (accept_client-IsTable lib m t, accept_client-IsAccounted lib m keeps a)
  Step-IsSound config keeps {m} (served index query) (t, a) =
      (handle_client-IsTable lib m index query t, handle_client-IsAccounted lib m index query t a)
  Step-IsSound config keeps {m} released s = cleanup-IsSound m s

  pub Reach-IsSound :
      (config : ModbusConfig) (keeps : KeepsListening lib) {m m' : Machine W}
      → IsSound m
      → Reach config m m'
      → IsSound m'
  Reach-IsSound config keeps s here = s
  Reach-IsSound config keeps s (next r st) =
      Step-IsSound config keeps st (Reach-IsSound config keeps s r)

  pub new-IsSound :
      {b : Backend} (w : W)
      → modbus_backend_create true ≡ some b
      → IsSound (record { backend = b; env = record { world = w; log = [] } })
  unfolding modbus_backend_create cleared_socks
  new-IsSound w e =
      subst (λ b. IsSound (record { backend = b; env = record { world = w; log = [] } }))
        (some-injective _ _ e)
        (
          record { ten = refl; counted = refl },
          λ fd ne. ground (arith, in_slots-replicate fd max_tcp_clients ne, eqb_ℤ_iff minus_one fd),
        )

  -- Where accepting a client leaves the number of the listening socket alone: in every state that
  -- the start (where nothing is open), accepts, turns of clients and cleanups reach in any order
  -- from a new backend, the table has ten slots, the counter says how many are in use, from 0 to
  -- 10, and each descriptor other than -1 has been handed out as often as it was closed and is
  -- held.
  pub history-IsSound :
      (config : ModbusConfig) (keeps : KeepsListening lib) {b : Backend} (w : W) {m : Machine W}
      → modbus_backend_create true ≡ some b
      → Reach config (record { backend = b; env = record { world = w; log = [] } }) m
      → IsTable m.backend
        × IsAccounted m
        × (pos 0 ≤ℤ m.backend.tcp_conn_count)
        × (m.backend.tcp_conn_count ≤ℤ pos max_tcp_clients)
  history-IsSound config keeps w {m} e r =
      let (t, a) = Reach-IsSound config keeps (new-IsSound w e) r in
      (
        t,
        a,
        rw t.counted (omega arith),
        rw t.counted (omega (arith, t.ten, active-le m.backend.tcp_conn_socks)),
      )

  -- Where accepting a client leaves the number of the listening socket alone: after any such
  -- history a cleanup has closed every descriptor other than -1 exactly as often as it was handed
  -- out.
  pub history-released :
      (config : ModbusConfig) (keeps : KeepsListening lib) {b : Backend} (w : W) {m : Machine W}
      (fd : ℤ)
      → modbus_backend_create true ≡ some b
      → Reach config (record { backend = b; env = record { world = w; log = [] } }) m
      → fd ≢ minus_one
      → times_opened fd (cleanup_tcp lib m).env.log ≡ times_closed fd (cleanup_tcp lib m).env.log
  history-released config keeps w {m} fd e r ne =
      let (t, a) = Reach-IsSound config keeps (new-IsSound w e) r in
      (cleanup_tcp_lem lib m t a).0 fd ne
