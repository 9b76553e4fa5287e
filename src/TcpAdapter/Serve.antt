-- ===== src/TcpAdapter/Serve.antt =====
-- `tcp_adapter_handle_client` of tcp_adapter.c and the invariant.
use modbus_server.Prelude.{
  ℕ, ◌+◌, ◌≡◌, ◌≢◌, refl, sym, subst, ◌∙◌, inl, inr, false, ◌||◌, List, some, arith, length,
  length-set, get_elem?, Bool-cases,
}
use modbus_server.Prelude.Int.{ℤ, pos, negsuc, minus_one, eqb_ℤ, eqb_ℤ_iff, ltb_ℤ, leb_ℤ, ◌-ℤ◌}
use modbus_server.Foreign.Modbus.{Modbus}
use modbus_server.Backend.{max_tcp_clients}
use modbus_server.Machine.{Machine, close_fd, receive, reply, outside}
use modbus_server.TcpAdapter.{
  sock_at, answer_client, drop_client, tcp_adapter_handle_client, serve_client,
}
use modbus_server.TcpAdapter.Slots.{active-drop, in_slots-set, get_elem?-get_or}
use modbus_server.TcpAdapter.Invariant.{IsTable, IsAccounted}

pos_pred : (n : ℕ) {k : ℕ} → n + 1 ≡ k → pos k -ℤ pos 1 ≡ pos n
unfolding ◌-ℤ◌
pos_pred n e = ground arith

-- An index that passes the check is that of a slot.
pub slot_of :
    (socks : List ℤ) (i : ℤ)
    → length socks ≡ max_tcp_clients
    → (ltb_ℤ i (pos 0) || leb_ℤ (pos max_tcp_clients) i) ≡ false
    → (k : ℕ) × (i ≡ pos k) × (get_elem? socks k ≡ some (sock_at socks i))
slot_of socks (negsuc n) ten h = absurd (ground arith)
slot_of socks (pos k) ten h = (k, refl, get_elem?-get_or socks k (ground arith))

module _ {W : Type 0} (lib : Modbus W) where
  -- What was received: the state with the world as the call leaves it.
  unfoldable pub after_receive : Machine W → ℤ → List ℕ → Machine W
  after_receive m sock query =
      let e1 = outside lib (lib.set_socket m.backend.ctx_tcp sock) m.env in
      record m { env = (receive lib m.backend.ctx_tcp query e1).3 }

  serve_cases :
      (P : Machine W → Type 0) (index sock : ℤ) (query : List ℕ) (m : Machine W)
      → P (after_receive m sock query)
      → ((q : List ℕ) (rc : ℤ) → P (answer_client lib q rc (after_receive m sock query)).1)
      → P (drop_client lib index sock (after_receive m sock query)).1
      → P (serve_client lib index sock query m).2
  unfolding serve_client after_receive
  serve_cases P index sock query m idle answer drop =
      let e1 = outside lib (lib.set_socket m.backend.ctx_tcp sock) m.env in
      let rc = (receive lib m.backend.ctx_tcp query e1).0 in
      elim (Bool-cases (ltb_ℤ (pos 0) rc)) [
        | inl some_data ↦ rw some_data (answer _ _)
        | inr none_yet ↦ elim (Bool-cases (eqb_ℤ rc minus_one)) [
          | inl gone ↦ rw (none_yet, gone) drop
          | inr nothing ↦ rw (none_yet, nothing) idle
        ]
      ]

  -- The cases of a client's turn, by what happens to the state.
  pub handle_cases :
      (P : Machine W → Type 0) (m : Machine W) (index : ℤ) (query : List ℕ)
      → IsTable m.backend
      → P m
      → ((s : ℤ) → P (after_receive m s query))
      → ((s : ℤ) (q : List ℕ) (rc : ℤ) → P (answer_client lib q rc (after_receive m s query)).1)
      → ((k : ℕ) (s : ℤ)
          → get_elem? m.backend.tcp_conn_socks k ≡ some s
          → s ≢ minus_one
          → P (drop_client lib (pos k) s (after_receive m s query)).1)
      → P (tcp_adapter_handle_client lib index query m).2
  unfolding tcp_adapter_handle_client
  handle_cases P m index query t same idle answer drop =
      elim (Bool-cases (ltb_ℤ index (pos 0) || leb_ℤ (pos max_tcp_clients) index)) [
        | inl out ↦ rw out same
        | inr inside ↦
            elim (Bool-cases (eqb_ℤ (sock_at m.backend.tcp_conn_socks index) minus_one)) [
              | inl free ↦ rw (inside, free) same
              | inr used ↦
                  let s = sock_at m.backend.tcp_conn_socks index in
                  let (k, is_k, at) = slot_of m.backend.tcp_conn_socks index t.ten inside in
                  rw (inside, used)
                    (serve_cases P index s query m (idle s) (answer s) (
                      subst (λ i. P (drop_client lib i s (after_receive m s query)).1) (sym is_k)
                        (drop k s at (λ e. ground (arith, eqb_ℤ_iff s minus_one)))))
            ]
      ]

  answer_client-IsTable :
      (m : Machine W) (query : List ℕ) (rc : ℤ)
      → IsTable m.backend
      → IsTable (answer_client lib query rc m).1.backend
  unfolding answer_client
  answer_client-IsTable m query rc t = record { ten = t.ten; counted = t.counted }

  drop_client-IsTable :
      (m : Machine W) (k : ℕ) (s : ℤ)
      → get_elem? m.backend.tcp_conn_socks k ≡ some s
      → s ≢ minus_one
      → IsTable m.backend
      → IsTable (drop_client lib (pos k) s m).1.backend
  unfolding drop_client
  drop_client-IsTable m k s at ne t = record {
    ten = length-set m.backend.tcp_conn_socks k minus_one ∙ t.ten;
    counted = rw t.counted (pos_pred _ (active-drop k m.backend.tcp_conn_socks at ne));
  }

  drop_client-IsAccounted :
      (m : Machine W) (k : ℕ) (s : ℤ)
      → get_elem? m.backend.tcp_conn_socks k ≡ some s
      → s ≢ minus_one
      → IsAccounted m
      → IsAccounted (drop_client lib (pos k) s m).1
  unfolding drop_client close_fd
  drop_client-IsAccounted m k s at ne t fd h = ground (
    arith,
    t fd h,
    in_slots-set fd k m.backend.tcp_conn_socks minus_one at,
    eqb_ℤ_iff minus_one fd,
  )

  answer_client-IsAccounted :
      (m : Machine W) (query : List ℕ) (rc : ℤ)
      → IsAccounted m
      → IsAccounted (answer_client lib query rc m).1
  unfolding answer_client reply
  answer_client-IsAccounted m query rc t fd h = t fd h

  -- A client's turn keeps the table well formed.
  pub handle_client-IsTable :
      (m : Machine W) (index : ℤ) (query : List ℕ)
      → IsTable m.backend
      → IsTable (tcp_adapter_handle_client lib index query m).2.backend
  unfolding after_receive
  handle_client-IsTable m index query t =
      handle_cases (λ m'. IsTable m'.backend) m index query t t (λ s. t)
        (λ s q rc. answer_client-IsTable (after_receive m s query) q rc t)
        λ k s at ne. drop_client-IsTable (after_receive m s query) k s at ne t

  -- A client's turn loses no descriptor.
  pub handle_client-IsAccounted :
      (m : Machine W) (index : ℤ) (query : List ℕ)
      → IsTable m.backend
      → IsAccounted m
      → IsAccounted (tcp_adapter_handle_client lib index query m).2
  unfolding after_receive receive
  handle_client-IsAccounted m index query t a =
      handle_cases IsAccounted m index query t a (λ s. a)
        (λ s q rc. answer_client-IsAccounted (after_receive m s query) q rc a)
        λ k s at ne. drop_client-IsAccounted (after_receive m s query) k s at ne a
