-- ===== src/Legacy/Transport/Lifetimes.antt =====
-- From the start of the transports of json-modbus-server.c to their cleanup.
use modbus_server.Prelude.{
  ℕ, ◌≡◌, refl, sym, subst, inl, inr, Bool, true, false, not, ◌&&◌, List, Option, none, some, arith,
  if◌then◌else◌, Bool-cases, Option-cases, if_cases,
}
use modbus_server.Prelude.Int.{ℤ, minus_one, eqb_ℤ}
use modbus_server.Foreign.Modbus.{Modbus, KeepsListening}
use modbus_server.Config.{ModbusConfig}
use modbus_server.Machine.{Machine, times_opened, times_closed, receive, reply, free_ctx}
use modbus_server.RtuAdapter.{rtu_adapter_init}
use modbus_server.RtuAdapter.Contexts.{
  IsBalanced, Connected, rtu_init-Connected, rtu_init-IsBalanced,
}
use modbus_server.Legacy.Transport.Starting.{open_rtu}
use modbus_server.Legacy.Transport.Serving.{
  accept_step, clients_step, rtu_ready, rtu_step, reconnect_step, serve_machine,
}
use modbus_server.Legacy.Transport.Adapters.{open_rtu_same}
use modbus_server.Legacy.Transport.Soundness.{IsSound, accept_step-IsSound, clients_step-IsSound}
use modbus_server.Legacy.Loop.Contexts.{rtu_ready-IsBalanced}

module _ {W : Type 0} (lib : Modbus W) (config : ModbusConfig) where
  -- A change of the serial line that hands out and closes no descriptor.
  line-IsSound :
      (m m' : Machine W) {ctx : Option ℕ}
      → config.enable_rtu ≡ true
      → m'.backend ≡ record m.backend { ctx_rtu = ctx }
      → ((fd : ℤ)
          → (times_opened fd m'.env.log ≡ times_opened fd m.env.log)
            × (times_closed fd m'.env.log ≡ times_closed fd m.env.log))
      → IsBalanced m'
      → IsSound config m
      → IsSound config m'
  line-IsSound m m' on eb quiet b s = record {
    table = λ tcp. rw eb (record { ten = (s.table tcp).ten; counted = (s.table tcp).counted });
    accounted = λ fd ne tcp. rw eb (omega (arith, quiet fd, s.accounted fd ne tcp));
    unopened = λ fd ne off. omega (arith, quiet fd, s.unopened fd ne off);
    balanced = b;
    no_listener = λ off. rw eb (s.no_listener off);
    no_server = λ off. rw eb (s.no_server off);
    no_line = λ off. ground arith;
  }

  Connected-IsSound :
      (m : Machine W) (r : ℤ × Machine W)
      → config.enable_rtu ≡ true
      → Connected lib m r
      → IsBalanced r.1
      → IsSound config m
      → IsSound config r.1
  Connected-IsSound m r on (inl (p, status, eb, el)) b s =
      line-IsSound m r.1 on eb (λ fd. rw el (refl, refl)) b s
  Connected-IsSound m r on (inr (status, eb, inl el)) b s =
      line-IsSound m r.1 on eb (λ fd. rw el (refl, refl)) b s
  Connected-IsSound m r on (inr (status, eb, inr (p, el))) b s =
      line-IsSound m r.1 on eb (λ fd. rw el (refl, refl)) b s

  pub open_rtu-IsSound :
      (m : Machine W)
      → config.enable_rtu ≡ true
      → m.backend.ctx_rtu ≡ none
      → IsSound config m
      → IsSound config (open_rtu lib config m).1
  open_rtu-IsSound m on empty s =
      subst (λ r. IsSound config r.1) (sym (open_rtu_same lib config m))
        (Connected-IsSound m (rtu_adapter_init lib config m) on (rtu_init-Connected lib config m)
          (rtu_init-IsBalanced lib config m empty s.balanced) s)

  rtu_ready-IsSound :
      (p : ℕ) (query : List ℕ) (m : Machine W)
      → m.backend.ctx_rtu ≡ some p
      → IsSound config m
      → IsSound config (rtu_ready lib p (query, m)).1
  unfolding rtu_ready receive reply free_ctx
  rtu_ready-IsSound p query m here s = record {
    table = λ tcp. record {
      ten = ground (arith, (s.table tcp).ten);
      counted = ground (arith, (s.table tcp).counted);
    };
    accounted = λ fd ne tcp. ground (arith, s.accounted fd ne tcp);
    unopened = λ fd ne off. ground (arith, s.unopened fd ne off);
    balanced = rtu_ready-IsBalanced lib p query m here s.balanced;
    no_listener = λ off. ground (arith, s.no_listener off);
    no_server = λ off. ground (arith, s.no_server off);
    no_line = λ off. ground (arith, s.no_line off);
  }

  rtu_step-IsSound :
      (on : Bool) (is_set : ℤ → Bool) (st : List ℕ × Machine W)
      → IsSound config st.1
      → IsSound config (rtu_step lib on is_set st).1
  unfolding rtu_step
  rtu_step-IsSound false is_set st s = s
  rtu_step-IsSound true is_set (query, m) s = elim (Option-cases m.backend.ctx_rtu) [
    | inl empty ↦
        let same : rtu_step lib true is_set (query, m) ≡ (query, m) = ground arith in
        subst (λ r. IsSound config r.1) (sym same) s
    | inr (p, here) ↦
        let fd = lib.get_socket (some p) m.env.world in
        let ready = not (eqb_ℤ fd minus_one) && is_set fd in
        let served : List ℕ × Machine W =
          if ready then rtu_ready lib p (query, m) else (query, m) in
        let same : rtu_step lib true is_set (query, m) ≡ served = ground arith in
        subst (λ r. IsSound config r.1) (sym same)
          (if_cases (λ (r : List ℕ × Machine W). IsSound config r.1) ready
            (λ go. rtu_ready-IsSound p query m here s) (λ stay. s))
  ]

  reconnect_step-IsSound :
      (m : Machine W) → IsSound config m → IsSound config (reconnect_step lib config m)
  unfolding reconnect_step
  reconnect_step-IsSound m s = elim (Bool-cases config.enable_rtu) [
    | inr off ↦
        let same : reconnect_step lib config m ≡ m = ground arith in
        subst (IsSound config) (sym same) s
    | inl on ↦ elim (Option-cases m.backend.ctx_rtu) [
      | inl empty ↦
          let same : reconnect_step lib config m ≡ (open_rtu lib config m).1 = ground arith in
          subst (IsSound config) (sym same) (open_rtu-IsSound m on empty s)
      | inr (p, here) ↦
          let same : reconnect_step lib config m ≡ m = ground arith in
          subst (IsSound config) (sym same) s
    ]
  ]

  pub serve_machine-IsSound :
      (keeps : KeepsListening lib) (is_set : ℤ → Bool) (query : List ℕ) (m : Machine W)
      → IsSound config m
      → IsSound config (serve_machine lib config is_set (query, m)).1
  unfolding serve_machine
  serve_machine-IsSound keeps is_set query m s =
      let m1 = accept_step lib config.enable_tcp is_set m in
      let s1 = accept_step-IsSound lib keeps config is_set m s in
      let st2 = clients_step lib config.enable_tcp is_set (query, m1) in
      let s2 = clients_step-IsSound lib keeps config is_set (query, m1) s1 in
      let st3 = rtu_step lib config.enable_rtu is_set st2 in
      reconnect_step-IsSound st3.1 (rtu_step-IsSound config.enable_rtu is_set st2 s2)
