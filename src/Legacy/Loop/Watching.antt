-- ===== src/Legacy/Loop/Watching.antt =====
-- What a round of the loop of json-modbus-server.c waits for: the set of descriptors, and the bound
-- that `select` gets with it.
use modbus_server.Prelude.{
  true, false, not, List, [], ◌∷◌, ◌++◌, Option, none, some, arith, if◌then◌else◌, inl, inr,
  Bool-cases,
}
use modbus_server.Prelude.Int.{ℤ, pos, minus_one, eqb_ℤ, ltb_ℤ, ◌≤ℤ◌}
use modbus_server.Foreign.Modbus.{Modbus}
use modbus_server.Legacy.{Server}
use modbus_server.Legacy.Loop.{is_running}

-- `if (tcp_conn_socks[i] != -1) FD_SET(tcp_conn_socks[i], &fds)`, for all slots
unfoldable pub watched_clients : List ℤ → List ℤ
watched_clients [] = []
watched_clients (s ∷ socks) =
    let rest = watched_clients socks in if not (eqb_ℤ s minus_one) then s ∷ rest else rest

-- `if (fd > maxfd) maxfd = fd`
abbrev pub raise : ℤ → ℤ → ℤ
raise fd maxfd = if ltb_ℤ maxfd fd then fd else maxfd

unfoldable pub max_clients : ℤ → List ℤ → ℤ
max_clients maxfd [] = maxfd
max_clients maxfd (s ∷ socks) = max_clients (raise s maxfd) socks

abbrev watched_listen : ℤ → List ℤ
watched_listen sock = if not (eqb_ℤ sock minus_one) then sock ∷ [] else []

abbrev watched_rtu : Option ℤ → List ℤ
watched_rtu none = []
watched_rtu (some fd) = if not (eqb_ℤ fd minus_one) then fd ∷ [] else []

abbrev raise_rtu : Option ℤ → ℤ → ℤ
raise_rtu none maxfd = maxfd
raise_rtu (some fd) maxfd = raise fd maxfd

module _ {W : Type 0} (lib : Modbus W) where
  -- The descriptor of the serial line, if there is a line.
  abbrev rtu_fd : Server W → Option ℤ
  rtu_fd s =
      if s.settings.config.enable_rtu
      then elim s.backend.ctx_rtu [
        | none ↦ none
        | some p ↦ some (lib.get_socket (some p) s.env.world)
      ]
      else none

  abbrev watched_tcp : Server W → List ℤ
  watched_tcp s =
      if s.settings.config.enable_tcp
      then watched_listen s.backend.tcp_listen_sock ++ watched_clients s.backend.tcp_conn_socks
      else []

  abbrev max_tcp : Server W → ℤ
  max_tcp s =
      if s.settings.config.enable_tcp
      then max_clients (raise s.backend.tcp_listen_sock (pos 0)) s.backend.tcp_conn_socks
      else pos 0

  -- The descriptors of the two transports, and the greatest of them.
  unfoldable pub watched_transports : Server W → List ℤ
  watched_transports s = watched_tcp s ++ watched_rtu (rtu_fd s)

  unfoldable pub max_transports : Server W → ℤ
  max_transports s = raise_rtu (rtu_fd s) (max_tcp s)

  -- The set, with the standard input first.
  unfoldable pub watched : Server W → List ℤ
  watched s = pos 0 ∷ (if is_running s.state then watched_transports s else [])

  -- The greatest descriptor of the set.
  unfoldable pub max_fd : Server W → ℤ
  max_fd s = if is_running s.state then max_transports s else pos 0

-- No descriptor of the list is above the bound.
abbrev pub AllBelow : ℤ → List ℤ → Type 0
AllBelow m [] = Unit
AllBelow m (fd ∷ fds) = (fd ≤ℤ m) × AllBelow m fds

below_more : (m n : ℤ) (fds : List ℤ) → m ≤ℤ n → AllBelow m fds → AllBelow n fds
below_more m n [] h a = a
below_more m n (fd ∷ fds) h (b, a) = (omega arith, below_more m n fds h a)

below_both :
    (m : ℤ) (fds fds' : List ℤ) → AllBelow m fds → AllBelow m fds' → AllBelow m (fds ++ fds')
below_both m [] fds' a a' = a'
below_both m (fd ∷ fds) fds' (b, a) a' = (b, below_both m fds fds' a a')

max_clients-le : (m : ℤ) (socks : List ℤ) → m ≤ℤ max_clients m socks
unfolding max_clients
max_clients-le m [] = omega arith
max_clients-le m (s ∷ socks) = ground (arith, max_clients-le (raise s m) socks)

max_clients-below :
    (m : ℤ) (socks : List ℤ) → AllBelow (max_clients m socks) (watched_clients socks)
unfolding max_clients watched_clients
max_clients-below m [] = tt
max_clients-below m (s ∷ socks) =
    ground (arith, max_clients-below (raise s m) socks, max_clients-le (raise s m) socks)

listen-below :
    (sock : ℤ) → (pos 0 ≤ℤ raise sock (pos 0)) × AllBelow (raise sock (pos 0)) (watched_listen sock)
listen-below sock = ground arith

rtu-below :
    (fd : Option ℤ) (m : ℤ) → (m ≤ℤ raise_rtu fd m) × AllBelow (raise_rtu fd m) (watched_rtu fd)
rtu-below none m = (omega arith, tt)
rtu-below (some fd) m = ground arith

module _ {W : Type 0} (lib : Modbus W) where
  tcp-below :
      (s : Server W) → (pos 0 ≤ℤ max_tcp lib s) × AllBelow (max_tcp lib s) (watched_tcp lib s)
  tcp-below s = elim (Bool-cases s.settings.config.enable_tcp) [
    | inl on ↦
        let sock = s.backend.tcp_listen_sock in
        let socks = s.backend.tcp_conn_socks in
        let m = raise sock (pos 0) in
        let up = max_clients-le m socks in
        let (zero_le, listen) = listen-below sock in
        rw on (
          omega (arith, up, zero_le),
          below_both (max_clients m socks) (watched_listen sock) (watched_clients socks)
              (below_more m (max_clients m socks) (watched_listen sock) up listen)
              (max_clients-below m socks),
        )
    | inr off ↦ rw off (omega arith, tt)
  ]

  -- No descriptor of a transport is above the greatest, which is not negative.
  pub transports-AllBelow :
      (s : Server W)
      → (pos 0 ≤ℤ max_transports lib s) × AllBelow (max_transports lib s) (watched_transports lib s)
  unfolding watched_transports max_transports
  transports-AllBelow s =
      let fd = rtu_fd lib s in
      let m = max_tcp lib s in
      let (zero_le, tcp) = tcp-below s in
      let (up, rtu) = rtu-below fd m in
      (
        omega (arith, up, zero_le),
        below_both (raise_rtu fd m) (watched_tcp lib s) (watched_rtu fd)
            (below_more m (raise_rtu fd m) (watched_tcp lib s) up tcp) rtu,
      )

  -- No descriptor in the set that a round of the main loop waits for is above the bound computed
  -- for select.
  pub watched-AllBelow : (s : Server W) → AllBelow (max_fd lib s) (watched lib s)
  unfolding watched max_fd
  watched-AllBelow s =
      let m = max_transports lib s in
      let fds = watched_transports lib s in
      elim (is_running s.state)
        as (λ up. AllBelow (if up then m else pos 0) (pos 0 ∷ (if up then fds else []))) [
          | true ↦ transports-AllBelow s
          | false ↦ (omega arith, tt)
        ]
