-- ===== src/Legacy/Loop/Rounds.antt =====
-- The rounds of json-modbus-server.c keep what its steps keep of the tables.
use modbus_server.Prelude.{
  ℕ, ◌≡◌, subst, inl, inr, Bool, true, not, ◌&&◌, List, Bool-cases, if_cases,
}
use modbus_server.Prelude.Int.{pos, ltb_ℤ}
use modbus_server.Clib.Fault.{ok, bind-ok, Holds}
use modbus_server.Foreign.Cjson.{Cjson}
use modbus_server.Foreign.Modbus.{Modbus}
use modbus_server.Legacy.{Server}
use modbus_server.Legacy.Transport.Starting.{start_machine, start_server}
use modbus_server.Legacy.Transport.Stopping.{stop_server, free_mapping}
use modbus_server.Legacy.Loop.{
  Events, before_input, before_start, before_stop, before_service, before_test, interrupted,
  is_running, is_some, stdin_step, start_step, stop_step, serve_step, rest_of_round, round,
}
use modbus_server.Legacy.Loop.Leaks.{machine}
use modbus_server.Legacy.Loop.Tables.{serve_machine-keeps}
use modbus_server.Legacy.Loop.Kept.{
  Kept, IsKept, interrupted-IsKept, skip_service-IsKept, skip_round-IsKept, stdin_step-IsKept,
  start_machine-Keeping,
}

module _ {W : Type 0} {lib : Modbus W} (k : Kept lib) where
  abbrev Good : Server W → Type 0
  Good s = IsKept k s

  start_step-Good : (s : Server W) → Good s → Good (start_step lib s).1
  unfolding start_step start_server
  start_step-Good s t =
      let Started : Bool × Server W → Type 0 = λ r. Good r.1 in
      let kept = start_machine-Keeping k s.settings.config (machine s) t in
      if_cases Started (is_running s.state && not (is_some s.backend.mapping))
        (λ go.
          if_cases Started (start_machine lib s.settings.config (machine s)).0 (λ up. kept)
            (λ down. kept))
        (λ stay. t)

  stop_step-Good : (s : Server W) → Good s → Good (stop_step lib s)
  unfolding stop_step stop_server free_mapping
  stop_step-Good s t =
      if_cases Good (not (is_running s.state) && is_some s.backend.mapping)
        (λ go. k.absent s.settings.config) (λ stay. t)

  serve_step-Good :
      (ev : Events) (query : List ℕ) (s : Server W) → Good s → Good (serve_step lib ev (query, s)).1
  unfolding serve_step
  serve_step-Good ev query s t =
      let config = s.settings.config in
      if_cases (λ (r : List ℕ × Server W). Good r.1) (is_running s.state && ltb_ℤ (pos 0) ev.ret)
        (λ go.
          serve_machine-keeps lib (k.P config) (k.answer config) config ev.is_set query (machine s)
            t)
        (λ stay. t)

  pub rest_of_round-Good :
      (ev : Events) (query : List ℕ) (s : Server W)
      → Good s
      → Good (rest_of_round lib ev (query, s)).1
  unfolding rest_of_round
  rest_of_round-Good ev query s t =
      let s1 = (start_step lib s).1 in
      let t1 = start_step-Good s t in
      let s2 = interrupted before_stop ev s1 in
      let s3 = stop_step lib s2 in
      let t3 = stop_step-Good s2 (interrupted-IsKept k before_stop ev s1 t1) in
      if_cases (λ (r : List ℕ × Server W). Good r.1) (start_step lib s).0
        (λ go.
          serve_step-Good ev query (interrupted before_service ev s3)
            (interrupted-IsKept k before_service ev s3 t3))
        (λ skip. skip_service-IsKept k ev s1 t1)

module _ {Item Double W : Type 0} (c : Cjson Item Double) {lib : Modbus W} (k : Kept lib) where
  pub round-IsKept :
      (ev : Events) (query : List ℕ) (s : Server W) (r : Bool × List ℕ × Server W)
      → round c lib ev (query, s) ≡ ok r
      → s.running ≡ true
      → IsKept k s
      → IsKept k r.2
  unfolding round
  round-IsKept ev query s0 r ran up t0 =
      let s = interrupted before_input ev s0 in
      let t = interrupted-IsKept k before_input ev s0 t0 in
      elim (Bool-cases (ltb_ℤ ev.ret (pos 0))) [
        | inl failed ↦
            subst (Holds (λ x. IsKept k x.2)) (rw failed at ran) (skip_round-IsKept k ev s t)
        | inr waited ↦
            let (s', run, e) = bind-ok (stdin_step c ev s) _ (rw waited at ran) in
            let s1 = interrupted before_start ev s' in
            let t1 = interrupted-IsKept k before_start ev s' (stdin_step-IsKept k c ev s run t) in
            let s2 = (rest_of_round lib ev (query, s1)).1 in
            let t2 = rest_of_round-Good k ev query s1 t1 in
            subst (Holds (λ x. IsKept k x.2)) e (interrupted-IsKept k before_test ev s2 t2)
      ]
