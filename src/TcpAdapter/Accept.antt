-- ===== src/TcpAdapter/Accept.antt =====
-- `tcp_adapter_accept_client` of tcp_adapter.c and the invariant: a client taken, or turned away.
use modbus_server.Prelude.{
  ℕ, ◌+◌, ◌≡◌, ap, ◌∙◌, ◌⊎◌, inl, inr, some, arith, length, length-set, get_elem?,
}
use modbus_server.Prelude.Int.{ℤ, pos, minus_one, eqb_ℤ_iff, ◌+ℤ◌}
use modbus_server.Foreign.Modbus.{Modbus, KeepsListening}
use modbus_server.Backend.{Backend}
use modbus_server.Machine.{Machine, close_fd, tcp_accept}
use modbus_server.TcpAdapter.{
  find_free_tcp_client_slot, reject_client, take_client, tcp_adapter_accept_client,
}
use modbus_server.TcpAdapter.Slots.{active, find_free_from-FirstFree, active-take, in_slots-set}
use modbus_server.TcpAdapter.Invariant.{IsTable, IsAccounted}

pos_suc : (n : ℕ) → pos n +ℤ pos 1 ≡ pos (n + 1)
unfolding ◌+ℤ◌
pos_suc n = ground arith

-- What the search of the table answers, for the first slot on.
abbrev Found : Backend → ℤ → Type 0
Found b slot =
    ((slot ≡ minus_one) × (active b.tcp_conn_socks ≡ length b.tcp_conn_socks))
    ⊎ ((k : ℕ) × (slot ≡ pos k) × (get_elem? b.tcp_conn_socks k ≡ some minus_one))

find_free_tcp_client_slot-Found : (b : Backend) → Found b (find_free_tcp_client_slot b)
unfolding find_free_tcp_client_slot
find_free_tcp_client_slot-Found b = elim (find_free_from-FirstFree 0 b.tcp_conn_socks) [
  | inl full ↦ inl full
  | inr (k, e, at, before) ↦ inr (k, e ∙ ap pos (omega arith), at)
]

module _ {W : Type 0} (lib : Modbus W) where
  -- The two cases of an accept: the table is full, or there is a first free slot.
  pub accept_cases :
      (P : ℤ × Machine W → Type 0) (m : Machine W)
      → (active m.backend.tcp_conn_socks ≡ length m.backend.tcp_conn_socks
          → P (reject_client lib m))
      → ((k : ℕ)
          → get_elem? m.backend.tcp_conn_socks k ≡ some minus_one
          → P (take_client lib (pos k) m))
      → P (tcp_adapter_accept_client lib m)
  unfolding tcp_adapter_accept_client
  accept_cases P m full free = elim (find_free_tcp_client_slot-Found m.backend) [
    | inl (e, all) ↦ rw e (full all)
    | inr (k, e, at) ↦ rw e (free k at)
  ]

  reject_client-IsTable :
      (m : Machine W) → IsTable m.backend → IsTable (reject_client lib m).1.backend
  unfolding reject_client
  reject_client-IsTable m t = record { ten = t.ten; counted = t.counted }

  take_client-IsTable :
      (m : Machine W) (k : ℕ)
      → get_elem? m.backend.tcp_conn_socks k ≡ some minus_one
      → IsTable m.backend
      → IsTable (take_client lib (pos k) m).1.backend
  unfolding take_client
  take_client-IsTable m k at t =
      let fd = (tcp_accept lib m.backend.ctx_tcp m.backend.tcp_listen_sock m.env).0 in
      ground (
        arith,
        eqb_ℤ_iff fd minus_one,
        length-set m.backend.tcp_conn_socks k fd,
        active-take k m.backend.tcp_conn_socks fd at,
        pos_suc (active m.backend.tcp_conn_socks),
      )

  -- Accepting a client keeps the table well formed.
  pub accept_client-IsTable :
      (m : Machine W) → IsTable m.backend → IsTable (tcp_adapter_accept_client lib m).1.backend
  accept_client-IsTable m t =
      accept_cases (λ r. IsTable r.1.backend) m (λ _. reject_client-IsTable m t)
        λ k at. take_client-IsTable m k at t

  reject_client-IsAccounted :
      (m : Machine W) → KeepsListening lib → IsAccounted m → IsAccounted (reject_client lib m).1
  unfolding reject_client tcp_accept close_fd
  reject_client-IsAccounted m keeps t fd ne =
      let new = (lib.tcp_accept m.backend.ctx_tcp m.backend.tcp_listen_sock m.env.world).0 in
      ground (
        arith,
        t fd ne,
        keeps m.backend.ctx_tcp m.backend.tcp_listen_sock m.env.world,
        eqb_ℤ_iff new fd,
        eqb_ℤ_iff new minus_one,
      )

  take_client-IsAccounted :
      (m : Machine W) (k : ℕ)
      → KeepsListening lib
      → get_elem? m.backend.tcp_conn_socks k ≡ some minus_one
      → IsAccounted m
      → IsAccounted (take_client lib (pos k) m).1
  unfolding take_client tcp_accept
  take_client-IsAccounted m k keeps at t fd ne =
      let new = (lib.tcp_accept m.backend.ctx_tcp m.backend.tcp_listen_sock m.env.world).0 in
      ground (
        arith,
        t fd ne,
        keeps m.backend.ctx_tcp m.backend.tcp_listen_sock m.env.world,
        in_slots-set fd k m.backend.tcp_conn_socks new at,
        eqb_ℤ_iff minus_one fd,
      )

  -- Accepting a client, or turning one away, loses no descriptor.
  pub accept_client-IsAccounted :
      (m : Machine W)
      → KeepsListening lib
      → IsAccounted m
      → IsAccounted (tcp_adapter_accept_client lib m).1
  accept_client-IsAccounted m keeps t =
      accept_cases (λ r. IsAccounted r.1) m (λ _. reject_client-IsAccounted m keeps t)
        λ k at. take_client-IsAccounted m k keeps at t
