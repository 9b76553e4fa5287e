-- ===== src/Legacy/RunServer/Resources.antt =====
-- The descriptors and contexts of a run of `run_server` of json-modbus-server.c.
use modbus_server.Prelude.{
  ℕ, ◌≡◌, refl, ◌∙◌, Bool, true, not, ◌&&◌, List, Option, none, some, arith, if◌then◌else◌,
  if_cases,
}
use modbus_server.Prelude.Int.{ℤ, minus_one, eqb_ℤ, eqb_ℤ_iff}
use modbus_server.Foreign.Modbus.{Modbus}
use modbus_server.Backend.{cleared_socks, max_tcp_clients}
use modbus_server.Config.{ModbusConfig}
use modbus_server.Machine.{Machine, new_tcp, new_rtu, tcp_listen, connect, receive, reply}
use modbus_server.TcpAdapter.Slots.{in_slots-replicate}
use modbus_server.Legacy.Transport.Soundness.{IsSound, IsClosed}
use modbus_server.Legacy.RunServer.{
  clear_clients, open_listener, open_line, open_mapping, open_all, line_ready, line_of, line_step,
}

module _ {W : Type 0} (lib : Modbus W) (config : ModbusConfig) where
  clear_clients-IsSound : (m : Machine W) → IsClosed m → IsSound config (clear_clients lib m)
  unfolding clear_clients cleared_socks
  clear_clients-IsSound m c = record {
    table = λ tcp. record { ten = refl; counted = refl };
    unopened = λ fd ne off. ground (arith, c.released.descriptors fd ne);
    accounted = λ fd ne tcp. ground (
      arith,
      c.released.descriptors fd ne,
      in_slots-replicate fd max_tcp_clients ne,
      eqb_ℤ_iff minus_one fd,
    );
    balanced = λ p. ground (arith, c.released.contexts p);
    no_listener = λ off. c.listener;
    no_server = λ off. c.server;
    no_line = λ off. c.line;
  }

  open_listener-IsSound :
      (m : Machine W)
      → config.enable_tcp ≡ true
      → m.backend.tcp_listen_sock ≡ minus_one
      → m.backend.ctx_tcp ≡ none
      → IsSound config m
      → (open_listener lib config m).0 ≡ true
      → IsSound config (open_listener lib config m).1
  unfolding open_listener new_tcp tcp_listen
  open_listener-IsSound m on listener server s up = record {
    table = λ tcp. record {
      ten = ground (arith, (s.table tcp).ten);
      counted = ground (arith, (s.table tcp).counted);
    };
    unopened = λ fd ne off. ground (arith, s.unopened fd ne off);
    accounted = λ fd ne tcp. ground (arith, s.accounted fd ne tcp, eqb_ℤ_iff minus_one fd);
    balanced = λ p. ground (arith, s.balanced p);
    no_listener = λ off. ground arith;
    no_server = λ off. ground arith;
    no_line = λ off. ground (arith, s.no_line);
  }

  open_line-IsSound :
      (m : Machine W)
      → config.enable_rtu ≡ true
      → m.backend.ctx_rtu ≡ none
      → IsSound config m
      → (open_line lib config m).0 ≡ true
      → IsSound config (open_line lib config m).1
  unfolding open_line new_rtu connect
  open_line-IsSound m on line s up = record {
    table = λ tcp. record {
      ten = ground (arith, (s.table tcp).ten);
      counted = ground (arith, (s.table tcp).counted);
    };
    unopened = λ fd ne off. ground (arith, s.unopened fd ne off);
    accounted = λ fd ne tcp. ground (arith, s.accounted fd ne tcp);
    balanced = λ p. ground (arith, s.balanced p);
    no_listener = λ off. ground (arith, s.no_listener off);
    no_server = λ off. ground (arith, s.no_server off);
    no_line = λ off. ground arith;
  }

  open_mapping-IsSound :
      (m : Machine W)
      → IsSound config m
      → (open_mapping lib config m).0 ≡ true
      → IsSound config (open_mapping lib config m).1
  unfolding open_mapping
  open_mapping-IsSound m s up = record {
    table = λ tcp. record {
      ten = ground (arith, (s.table tcp).ten);
      counted = ground (arith, (s.table tcp).counted);
    };
    unopened = λ fd ne off. ground (arith, s.unopened fd ne off);
    accounted = λ fd ne tcp. ground (arith, s.accounted fd ne tcp);
    balanced = λ p. ground (arith, s.balanced p);
    no_listener = λ off. ground (arith, s.no_listener off);
    no_server = λ off. ground (arith, s.no_server off);
    no_line = λ off. ground (arith, s.no_line off);
  }

  line_ready-IsSound :
      (p : ℕ) (query : List ℕ) (m : Machine W)
      → IsSound config m
      → IsSound config (line_ready lib p (query, m)).1
  unfolding line_ready receive reply
  line_ready-IsSound p query m s = record {
    table = λ tcp. record {
      ten = ground (arith, (s.table tcp).ten);
      counted = ground (arith, (s.table tcp).counted);
    };
    unopened = λ fd ne off. ground (arith, s.unopened fd ne off);
    accounted = λ fd ne tcp. ground (arith, s.accounted fd ne tcp);
    balanced = λ q. ground (arith, s.balanced q);
    no_listener = λ off. ground (arith, s.no_listener off);
    no_server = λ off. ground (arith, s.no_server off);
    no_line = λ off. ground (arith, s.no_line off);
  }

  line_of-IsSound :
      (is_set : ℤ → Bool) (ctx : Option ℕ) (st : List ℕ × Machine W)
      → IsSound config st.1
      → IsSound config (line_of lib is_set ctx st).1
  unfolding line_of
  line_of-IsSound is_set none st s = s
  line_of-IsSound is_set (some p) (query, m) s =
      let fd = lib.get_socket (some p) m.env.world in
      if_cases (λ (r : List ℕ × Machine W). IsSound config r.1)
        (not (eqb_ℤ fd minus_one) && is_set fd) (λ go. line_ready-IsSound p query m s) (λ stay. s)

  pub line_step-IsSound :
      (is_set : ℤ → Bool) (st : List ℕ × Machine W)
      → IsSound config st.1
      → IsSound config (line_step lib config.enable_rtu is_set st).1
  unfolding line_step
  line_step-IsSound is_set st s =
      if_cases (λ (r : List ℕ × Machine W). IsSound config r.1) config.enable_rtu
        (λ on. line_of-IsSound is_set st.1.backend.ctx_rtu st s) (λ off. s)

  -- What a step of the start that succeeds leaves: a sound machine without a line.
  abbrev IsUp : Bool × Machine W → Type 0
  IsUp r = r.0 ≡ true → IsSound config r.1 × (r.1.backend.ctx_rtu ≡ none)

  open_listener-line :
      (m : Machine W) → (open_listener lib config m).1.backend.ctx_rtu ≡ m.backend.ctx_rtu
  unfolding open_listener
  open_listener-line m = ground arith

  listener_step-IsUp :
      (m : Machine W)
      → IsClosed m
      → IsUp (
          if config.enable_tcp
          then open_listener lib config (clear_clients lib m)
          else (true, clear_clients lib m))
  unfolding clear_clients
  listener_step-IsUp m c =
      let m0 = clear_clients lib m in
      let s0 = clear_clients-IsSound m c in
      if_cases IsUp config.enable_tcp
        (λ on up.
          (open_listener-IsSound m0 on c.listener c.server s0 up, open_listener-line m0 ∙ c.line))
        (λ off up. (s0, c.line))

  line_up-IsSound :
      (m : Machine W)
      → IsSound config m × (m.backend.ctx_rtu ≡ none)
      → (if config.enable_rtu then open_line lib config m else (true, m)).0 ≡ true
      → IsSound config (if config.enable_rtu then open_line lib config m else (true, m)).1
  line_up-IsSound m (s, line) =
      if_cases (λ (r : Bool × Machine W). r.0 ≡ true → IsSound config r.1) config.enable_rtu
        (λ on up. open_line-IsSound m on line s up) (λ off up. s)

  pub open_all-IsSound :
      (m : Machine W)
      → IsClosed m
      → (open_all lib config m).0 ≡ true
      → IsSound config (open_all lib config m).1
  unfolding open_all
  open_all-IsSound m c =
      let m0 = clear_clients lib m in
      let r1 = if config.enable_tcp then open_listener lib config m0 else (true, m0) in
      let r2 = if config.enable_rtu then open_line lib config r1.1 else (true, r1.1) in
      let Good : Bool × Machine W → Type 0 = λ r. r.0 ≡ true → IsSound config r.1 in
      if_cases Good r1.0
        (λ up1.
          if_cases Good r2.0
            (λ up2.
              open_mapping-IsSound r2.1 (line_up-IsSound r1.1 (listener_step-IsUp m c up1) up2))
            (λ down bad. absurd (cc)))
        (λ down bad. absurd (cc))
