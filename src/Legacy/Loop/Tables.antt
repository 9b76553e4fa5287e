-- ===== src/Legacy/Loop/Tables.antt =====
-- The tables of json-modbus-server.c, once they are there, through the service of a round.
use modbus_server.Prelude.{
  ℕ, zero, suc, ◌+◌, ◌≡◌, ◌≢◌, sym, Bool, true, not, ◌&&◌, List, Option, none, some, arith, get_or,
  if_cases, subst, false, if◌then◌else◌,
}
use modbus_server.Prelude.Int.{ℤ, pos, ltb_ℤ, minus_one, eqb_ℤ}
use modbus_server.Foreign.Mapping.{Mapping}
use modbus_server.Foreign.Modbus.{Modbus}
use modbus_server.Backend.{max_tcp_clients}
use modbus_server.Config.{ModbusConfig}
use modbus_server.Machine.{Machine, receive, reply}
use modbus_server.RtuAdapter.{is_failure}
use modbus_server.Legacy.Transport.Starting.{
  connect_rtu, open_rtu, start_tcp, start_rtu, start_mapping, start_machine,
}
use modbus_server.Legacy.Transport.Serving.{
  accept_ready, accept_step, client_ready, clients_from, clients_step, rtu_ready, rtu_step,
  reconnect_step, serve_machine,
}

-- Answering a request keeps a property of the tables.
abbrev pub ReplyKeeps : {W : Type 0} → (Option Mapping → Type 0) → Modbus W → Type 0
ReplyKeeps {W} P lib =
    (ctx : Option ℕ) (query : List ℕ) (rc : ℤ) (tables : Option Mapping) (w : W)
    → P tables
    → P (lib.reply ctx query rc tables w).1

-- Answering a request does not take the tables away.
abbrev pub KeepsTables : {W : Type 0} → Modbus W → Type 0
KeepsTables lib = ReplyKeeps (λ tables. tables ≢ none) lib

abbrev pub HasTables : {W : Type 0} → Machine W → Type 0
HasTables m = m.backend.mapping ≢ none

module _ {W : Type 0} (lib : Modbus W) (config : ModbusConfig) where
  start_mapping-HasTables :
      (m : Machine W)
      → (start_mapping lib config m).0 ≡ true
      → HasTables (start_mapping lib config m).1
  unfolding start_mapping
  start_mapping-HasTables m up gone = ground arith

  -- A start that succeeds leaves tables.
  pub start_machine-HasTables :
      (m : Machine W)
      → (start_machine lib config m).0 ≡ true
      → HasTables (start_machine lib config m).1
  unfolding start_machine
  start_machine-HasTables m =
      let Good : Bool × Machine W → Type 0 = λ r. r.0 ≡ true → HasTables r.1 in
      let m1 = (start_tcp lib config m).1 in
      let m2 = (start_rtu lib config m1).1 in
      if_cases Good (start_tcp lib config m).0
        (λ up1.
          if_cases Good (start_rtu lib config m1).0 (λ up2. start_mapping-HasTables m2)
            (λ down bad. absurd (cc)))
        (λ down bad. absurd (cc))

  pub open_rtu-mapping :
      (m : Machine W) → (open_rtu lib config m).1.backend.mapping ≡ m.backend.mapping
  unfolding open_rtu connect_rtu
  open_rtu-mapping m = ground arith

  reconnect_step-mapping :
      (m : Machine W) → (reconnect_step lib config m).backend.mapping ≡ m.backend.mapping
  unfolding reconnect_step
  reconnect_step-mapping m = ground (arith, open_rtu-mapping m)

module _ {W : Type 0} (lib : Modbus W) where
  accept_step-mapping :
      (on : Bool) (is_set : ℤ → Bool) (m : Machine W)
      → (accept_step lib on is_set m).backend.mapping ≡ m.backend.mapping
  unfolding accept_ready
  accept_step-mapping on is_set m = ground arith

module _ {W : Type 0} (lib : Modbus W) (P : Option Mapping → Type 0)
    (keeps : ReplyKeeps P lib) where
  abbrev pub Holding : Machine W → Type 0
  Holding m = P m.backend.mapping

  abbrev Serving : List ℕ × Machine W → Type 0
  Serving st = Holding st.1

  client_ready-keeps :
      (i : ℕ) (sock : ℤ) (query : List ℕ) (m : Machine W)
      → Holding m
      → Holding (client_ready lib i sock (query, m)).1
  unfolding client_ready receive reply
  client_ready-keeps i sock query m has =
      let ctx = m.backend.ctx_tcp in
      let (rc, query', errno, w) = lib.receive ctx query (lib.set_socket ctx sock m.env.world) in
      if_cases Serving (ltb_ℤ (pos 0) rc) (λ go. keeps ctx query' rc m.backend.mapping w has)
        (λ no. if_cases Serving (eqb_ℤ rc minus_one) (λ closed. has) (λ idle. has))

  clients_from-keeps :
      (left i : ℕ) (is_set : ℤ → Bool) (st : List ℕ × Machine W)
      → Serving st
      → Serving (clients_from lib left i is_set st)
  unfolding clients_from
  clients_from-keeps zero i is_set st has = has
  clients_from-keeps (suc left) i is_set (query, m) has =
      let sock = get_or m.backend.tcp_conn_socks i minus_one in
      clients_from-keeps left (i + 1) is_set _ (
        if_cases Serving (not (eqb_ℤ sock minus_one) && is_set sock)
          (λ go. client_ready-keeps i sock query m has) (λ stay. has))

  rtu_ready-keeps :
      (p : ℕ) (query : List ℕ) (m : Machine W) → Holding m → Holding (rtu_ready lib p (query, m)).1
  unfolding rtu_ready receive reply
  rtu_ready-keeps p query m has =
      let (rc, query', errno, w) = lib.receive (some p) query m.env.world in
      if_cases Serving (ltb_ℤ (pos 0) rc) (λ go. keeps (some p) query' rc m.backend.mapping w has)
        (λ no.
          if_cases Serving (eqb_ℤ rc minus_one && is_failure errno) (λ closed. has) (λ idle. has))

  rtu_step-keeps :
      (on : Bool) (is_set : ℤ → Bool) (st : List ℕ × Machine W)
      → Serving st
      → Serving (rtu_step lib on is_set st)
  unfolding rtu_step
  rtu_step-keeps false is_set st has = has
  rtu_step-keeps true is_set (query, m) has = by_line m.backend.ctx_rtu
    where
      by_line :
          (ctx : Option ℕ)
          → Serving (elim ctx [
            | none ↦ (query, m)
            | some p ↦
                let fd = lib.get_socket (some p) m.env.world in
                if not (eqb_ℤ fd minus_one) && is_set fd
                then rtu_ready lib p (query, m)
                else (query, m)
          ])
      by_line none = has
      by_line (some p) =
          let fd = lib.get_socket (some p) m.env.world in
          if_cases Serving (not (eqb_ℤ fd minus_one) && is_set fd)
            (λ go. rtu_ready-keeps p query m has) (λ stay. has)

  -- The service of a round keeps what each answer keeps.
  pub serve_machine-keeps :
      (config : ModbusConfig) (is_set : ℤ → Bool) (query : List ℕ) (m : Machine W)
      → Holding m
      → Holding (serve_machine lib config is_set (query, m)).1
  unfolding serve_machine
  serve_machine-keeps config is_set query m has =
      let m1 = accept_step lib config.enable_tcp is_set m in
      let has1 : Holding m1 =
        subst P (sym (accept_step-mapping lib config.enable_tcp is_set m)) has in
      let st1 : List ℕ × Machine W = (query, m1) in
      let st2 = clients_step lib config.enable_tcp is_set st1 in
      let has2 : Serving st2 =
        if_cases Serving config.enable_tcp
          (λ on. clients_from-keeps max_tcp_clients 0 is_set st1 has1) (λ off. has1) in
      let st3 = rtu_step lib config.enable_rtu is_set st2 in
      let has3 = rtu_step-keeps config.enable_rtu is_set st2 has2 in
      subst P (sym (reconnect_step-mapping lib config st3.1)) has3

module _ {W : Type 0} (lib : Modbus W) (keeps : KeepsTables lib) where
  -- The service of a round does not take the tables away.
  pub serve_machine-HasTables :
      (config : ModbusConfig) (is_set : ℤ → Bool) (query : List ℕ) (m : Machine W)
      → HasTables m
      → HasTables (serve_machine lib config is_set (query, m)).1
  serve_machine-HasTables = serve_machine-keeps lib (λ tables. tables ≢ none) keeps
