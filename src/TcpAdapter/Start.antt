-- ===== src/TcpAdapter/Start.antt =====
-- `tcp_adapter_init` of tcp_adapter.c and the invariant of a backend that holds no descriptor.
use modbus_server.Prelude.{ℕ, ◌≡◌, refl, false, ◌∷◌, Option, none, some, arith}
use modbus_server.Prelude.Int.{ℤ, pos, minus_one, eqb_ℤ_iff}
use modbus_server.Foreign.Modbus.{Modbus}
use modbus_server.Backend.{Backend, max_tcp_clients, cleared_socks}
use modbus_server.Config.{ModbusConfig}
use modbus_server.Machine.{created, Env, Machine, new_tcp, free_ctx, tcp_listen}
use modbus_server.TcpAdapter.{listen_tcp, tcp_adapter_init}
use modbus_server.TcpAdapter.Slots.{active, active-replicate, in_slots-replicate, in_slots-active}
use modbus_server.TcpAdapter.Invariant.{IsTable, IsAccounted}

module _ {W : Type 0} (lib : Modbus W) where
  -- Starting the server on a backend whose descriptors are all closed: the table is empty, and the
  -- listening socket, if there is one, is accounted for.
  listen_tcp-IsTable :
      (config : ModbusConfig) (p : ℕ) (b : Backend) (e : Env W)
      → IsTable b
      → IsTable (listen_tcp lib config p b e).1.backend
  unfolding listen_tcp cleared_socks
  listen_tcp-IsTable config p b e t = ground (arith, active-replicate max_tcp_clients)

  listen_tcp-IsAccounted :
      (config : ModbusConfig) (p : ℕ) (b : Backend) (e : Env W)
      → IsTable b
      → active b.tcp_conn_socks ≡ 0
      → b.tcp_listen_sock ≡ minus_one
      → IsAccounted (record { backend = b; env = e })
      → IsAccounted (listen_tcp lib config p b e).1
  unfolding listen_tcp tcp_listen free_ctx cleared_socks
  listen_tcp-IsAccounted config p b e t empty closed_sock a fd ne =
      let e3 = lib.set_debug (some p) false (lib.set_slave (some p) config.unit_id e.world) in
      let new = (lib.tcp_listen (some p) (pos 1) e3).0 in
      ground (
        arith,
        a fd ne,
        in_slots-active fd b.tcp_conn_socks ne empty,
        in_slots-replicate fd max_tcp_clients ne,
        eqb_ℤ_iff new minus_one,
        eqb_ℤ_iff minus_one fd,
      )

  -- The cases of an initialisation: there is a context, or there is none.
  pub init_cases :
      (P : ℤ × Machine W → Type 0) (config : ModbusConfig) (m : Machine W)
      → ((e : Env W)
          → e.log ≡ m.env.log
          → P (minus_one, record { backend = record m.backend { ctx_tcp = none }; env = e }))
      → ((p : ℕ) (e : Env W)
          → e.log ≡ created p ∷ m.env.log
          → P (listen_tcp lib config p m.backend e))
      → P (tcp_adapter_init lib config m)
  unfolding tcp_adapter_init new_tcp
  init_cases P config m failed started = go (lib.new_tcp config.tcp_port m.env.world).0 refl
    where
      go :
          (ctx : Option ℕ)
          → (lib.new_tcp config.tcp_port m.env.world).0 ≡ ctx
          → P (tcp_adapter_init lib config m)
      go none h = rw (h, tcp_adapter_init) (failed (new_tcp lib config.tcp_port m.env).1 (rw h))
      go (some p) h =
          rw (h, tcp_adapter_init) (started p (new_tcp lib config.tcp_port m.env).1 (rw h))

  -- An initialisation keeps the table well formed.
  pub init-IsTable :
      (config : ModbusConfig) (m : Machine W)
      → IsTable m.backend
      → IsTable (tcp_adapter_init lib config m).1.backend
  init-IsTable config m t =
      init_cases (λ r. IsTable r.1.backend) config m
        (λ e _. record { ten = t.ten; counted = t.counted })
        λ p e _. listen_tcp-IsTable config p m.backend e t

  -- An initialisation of a backend that holds no descriptor loses none.
  pub init-IsAccounted :
      (config : ModbusConfig) (m : Machine W)
      → IsTable m.backend
      → active m.backend.tcp_conn_socks ≡ 0
      → m.backend.tcp_listen_sock ≡ minus_one
      → IsAccounted m
      → IsAccounted (tcp_adapter_init lib config m).1
  init-IsAccounted config m t empty closed_sock a =
      init_cases (λ r. IsAccounted r.1) config m (λ e h. λ fd ne. ground (arith, h, a fd ne))
        λ p e h.
          listen_tcp-IsAccounted config p m.backend e t empty closed_sock
            (λ fd ne. ground (arith, h, a fd ne))
