-- ===== src/Legacy/Loop/Lifecycle.antt =====
-- The life of the server in the loop of json-modbus-server.c: when it holds its tables, and when the
-- loop ends.
use modbus_server.Prelude.{
  subst, sym, ℕ, ◌≡◌, refl, ◌∙◌, inl, inr, Bool, true, false, not, List, ◌∷◌, Option, none, arith,
  Bool-cases, All,
}
use modbus_server.Prelude.Int.{pos, ltb_ℤ, eqb_ℤ}
use modbus_server.Clib.Fault.{Result, ok, fault, bind-ok, Holds, ◌>>=◌}
use modbus_server.Foreign.Cjson.{Cjson}
use modbus_server.Foreign.Modbus.{Modbus}
use modbus_server.JsonCommand.{state_stopped}
use modbus_server.Legacy.{Server, initial_settings, signal_handler}
use modbus_server.Legacy.Loading.{load_config}
use modbus_server.Legacy.Transport.Stopping.{free_mapping, exit_machine, exit_server, stop_server}
use modbus_server.Legacy.Loop.{
  Events, Moment, before_input, before_start, before_stop, before_service, before_test, is_eintr,
  interrupted, skip_service, skip_round, stdin_step, start_step, stop_step, serve_step,
  rest_of_round, round, loop, main_server, exited,
}
use modbus_server.Legacy.Loop.Steps.{
  InStep, start_server-state, stop_server-none, stdin_step-InStep, loop-keeps_where, loop_done,
  loop_next,
}

-- No signal comes in the round.
abbrev pub IsQuiet : Events → Type 0
IsQuiet ev = (now : Moment) → ev.signals now ≡ false

module _ {W : Type 0} where
  pub quiet :
      (ev : Events) (now : Moment) (s : Server W)
      → ev.signals now ≡ false
      → interrupted now ev s ≡ s
  unfolding interrupted
  quiet ev now s q = ground arith

  -- A signal changes nothing more in a server that is stopped and is to end.
  interrupted_down :
      (now : Moment) (ev : Events) (s : Server W)
      → s.state ≡ state_stopped
      → s.running ≡ false
      → ((interrupted now ev s).state ≡ state_stopped)
        × ((interrupted now ev s).running ≡ false)
        × ((interrupted now ev s).backend.mapping ≡ s.backend.mapping)
  unfolding interrupted signal_handler
  interrupted_down now ev s stopped down = ground arith

module _ {W : Type 0} (lib : Modbus W) where
  pub rest_of_round-state :
      (ev : Events) (query : List ℕ) (s : Server W)
      → IsQuiet ev
      → ((rest_of_round lib ev (query, s)).1.state ≡ s.state)
        × ((rest_of_round lib ev (query, s)).1.running ≡ s.running)
  unfolding rest_of_round start_step stop_step serve_step stop_server interrupted skip_service
  rest_of_round-state ev query s q =
      ground (arith, start_server-state lib s, q before_stop, q before_service)

  -- A server that is stopped at the end of what follows the input in a round has no tables.
  pub rest_of_round-released :
      (ev : Events) (query : List ℕ) (s : Server W)
      → IsQuiet ev
      → (rest_of_round lib ev (query, s)).1.state ≡ state_stopped
      → (rest_of_round lib ev (query, s)).1.backend.mapping ≡ none
  unfolding rest_of_round start_step stop_step serve_step interrupted skip_service
  rest_of_round-released ev query s q stopped = ground (
    arith,
    rest_of_round-state ev query s q,
    stop_server-none lib s,
    q before_stop,
    q before_service,
  )

  -- What follows the input in a round with a server that is stopped and is to end.
  rest_of_round_down :
      (ev : Events) (query : List ℕ) (s : Server W)
      → s.state ≡ state_stopped
      → s.running ≡ false
      → ((rest_of_round lib ev (query, s)).1.state ≡ state_stopped)
        × ((rest_of_round lib ev (query, s)).1.running ≡ false)
        × ((rest_of_round lib ev (query, s)).1.backend.mapping ≡ none)
  unfolding rest_of_round start_step stop_step serve_step interrupted signal_handler stop_server
      free_mapping
  rest_of_round_down ev query s stopped down = ground arith

module _ {Item Double W : Type 0} (c : Cjson Item Double) (lib : Modbus W) where
  -- What follows the input, without a signal.
  abbrev calm_end : Events → List ℕ → Server W → Result (Bool × List ℕ × Server W)
  calm_end ev query s = let (query', s') = rest_of_round lib ev (query, s) in ok (false, query', s')

  abbrev signalled_end : Events → List ℕ → Server W → Result (Bool × List ℕ × Server W)
  signalled_end ev query s =
      let (query', s') = rest_of_round lib ev (query, interrupted before_start ev s) in
      ok (false, query', interrupted before_test ev s')

  -- A round without a signal.
  round_quiet :
      (ev : Events) (query : List ℕ) (s : Server W)
      → IsQuiet ev
      → ltb_ℤ ev.ret (pos 0) ≡ false
      → round c lib ev (query, s) ≡ (stdin_step c ev s >>= calm_end ev query)
  unfolding round
  round_quiet ev query s q waited =
      rw (quiet ev before_input s (q before_input), waited) (go (stdin_step c ev s))
    where
      go : (m : Result (Server W)) → (m >>= signalled_end ev query) ≡ (m >>= calm_end ev query)
      go (fault f) = refl
      go (ok s') = rw (
        quiet ev before_start s' (q before_start),
        quiet ev before_test (rest_of_round lib ev (query, s')).1 (q before_test),
      )

  -- A round that does not wait, for a failure of `select`, leaves the server as it is.
  round_failed :
      (ev : Events) (query : List ℕ) (s : Server W)
      → IsQuiet ev
      → ltb_ℤ ev.ret (pos 0) ≡ true
      → round c lib ev (query, s) ≡ ok (not (is_eintr ev.errno), query, s)
  unfolding round skip_round interrupted
  round_failed ev query s q failed = rw failed (
      ground
        (arith, q before_input, q before_start, q before_stop, q before_service, q before_test))

  -- A round without a signal keeps the flag of the loop and the state of the server in step.
  round-InStep :
      (ev : Events) (query : List ℕ) (s : Server W) {r : Bool × List ℕ × Server W}
      → IsQuiet ev
      → round c lib ev (query, s) ≡ ok r
      → InStep s
      → s.running ≡ true
      → InStep r.2
  round-InStep ev query s q e i up = elim (Bool-cases (ltb_ℤ ev.ret (pos 0))) [
    | inl failed ↦ subst (Holds (λ x. InStep x.2)) (sym (round_failed ev query s q failed) ∙ e) i
    | inr waited ↦
        let (s', run, e') =
          bind-ok (stdin_step c ev s) _ (sym (round_quiet ev query s q waited) ∙ e) in
        ground (arith, stdin_step-InStep c ev s run i up, rest_of_round-state lib ev query s' q)
  ]

  -- A server that is stopped holds no tables.
  abbrev pub IsSettled : Server W → Type 0
  IsSettled s = s.state ≡ state_stopped → s.backend.mapping ≡ none

  round-IsSettled :
      (ev : Events) (query : List ℕ) (s : Server W) {r : Bool × List ℕ × Server W}
      → IsQuiet ev
      → round c lib ev (query, s) ≡ ok r
      → IsSettled s
      → IsSettled r.2
  round-IsSettled ev query s q e settled = elim (Bool-cases (ltb_ℤ ev.ret (pos 0))) [
    | inl failed ↦
        subst (Holds (λ x. IsSettled x.2)) (sym (round_failed ev query s q failed) ∙ e) settled
    | inr waited ↦
        let (s', run, e') =
          bind-ok (stdin_step c ev s) _ (sym (round_quiet ev query s q waited) ∙ e) in
        subst (Holds (λ x. IsSettled x.2)) e' (rest_of_round-released lib ev query s' q)
  ]

  -- Where no signal comes, the flag of the loop and the state agree, and a stopped server has no
  -- tables: both still hold wherever the loop stops, if it stops without a fault.
  pub loop-IsSettled :
      (evs : List Events) (query : List ℕ) (s : Server W) {r : Bool × List ℕ × Server W}
      → loop c lib evs (query, s) ≡ ok r
      → All IsQuiet evs
      → InStep s
      → IsSettled s
      → InStep r.2 × IsSettled r.2
  loop-IsSettled evs query s e quiet_all i settled =
      loop-keeps_where c lib (λ s'. InStep s' × IsSettled s') IsQuiet
        (λ ev q s' r calm ran up (i', st).
          (round-InStep ev q s' calm ran i' up, round-IsSettled ev q s' calm ran st))
        evs query s quiet_all e (i, settled)

  -- Where the flag of the loop and the state of the server agree and the loop runs: a round that
  -- waits without failing, in which no signal comes before the input is read, and whose input step
  -- ends with the flag false, ends the loop whatever events would follow; the server is then
  -- stopped and has no tables.
  pub loop_stops :
      (ev : Events) (evs : List Events) (query : List ℕ) (s : Server W) {s1 : Server W}
      → InStep s
      → s.running ≡ true
      → ltb_ℤ ev.ret (pos 0) ≡ false
      → ev.signals before_input ≡ false
      → stdin_step c ev s ≡ ok s1
      → s1.running ≡ false
      → (query' : List ℕ) × (s' : Server W) × (loop c lib (ev ∷ evs) (query, s)
          ≡ ok (true, query', s'))
        × (s'.running ≡ false)
        × (s'.state ≡ state_stopped)
        × (s'.backend.mapping ≡ none)
  unfolding round
  loop_stops ev evs query s {s1} i up waited calm run down =
      let stopped : s1.state ≡ state_stopped = ground (arith, stdin_step-InStep c ev s run i up) in
      let s2 = interrupted before_start ev s1 in
      let d2 = interrupted_down before_start ev s1 stopped down in
      let r = rest_of_round lib ev (query, s2) in
      let (state3, down3, none3) = rest_of_round_down lib ev query s2 d2.0 d2.1 in
      let s' = interrupted before_test ev r.1 in
      let d' = interrupted_down before_test ev r.1 state3 down3 in
      (
        r.0,
        s',
        loop_next c lib ev evs query s up (rw (quiet ev before_input s calm, waited, run) refl)
            ∙ loop_done c lib evs r.0 s' d'.1,
        d'.1,
        d'.0,
        d'.2 ∙ none3,
      )

  exit_server-none : (s : Server W) → (exit_server lib s).backend.mapping ≡ none
  unfolding exit_server exit_machine free_mapping
  exit_server-none s = ground arith

  -- A run of main that returns a server, for any settings file and events, has released its tables.
  pub main_server-released :
      (file : Option (List ℕ)) (query : List ℕ) (evs : List Events) (w : W) {s : Server W}
      → main_server c lib file query evs w ≡ ok (exited s)
      → s.backend.mapping ≡ none
  unfolding main_server
  main_server-released file query evs w e =
      let (loaded, _, e') = bind-ok (load_config c file initial_settings) _ e in
      elim (Bool-cases (eqb_ℤ loaded.0 (pos 0))) [
        | inl good ↦
            let (st, _, e'') = bind-ok (loop c lib evs _) _ (rw good at e') in
            ground (arith, exit_server-none st.2)
        | inr bad ↦ absurd (ground arith)
      ]
