-- ===== src/Legacy/Loop/Signals.antt =====
-- A signal to the main loop of json-modbus-server.c: at whatever moment of a round it comes, the loop
-- ends with that round, and `main` returns.
use modbus_server.Prelude.{
  ℕ, ◌≡◌, refl, ap, subst, ◌∙◌, inl, inr, Bool, true, false, not, List, [], ◌∷◌, ◌++◌, Option, none,
  Bool-cases, All,
}
use modbus_server.Prelude.Int.{pos, ltb_ℤ}
use modbus_server.Clib.Fault.{ok, bind-ok, Holds}
use modbus_server.Foreign.Cjson.{Cjson}
use modbus_server.Foreign.Modbus.{Modbus, KeepsListening}
use modbus_server.JsonCommand.{ready, state_running}
use modbus_server.Legacy.{Settings, Server, initial_settings, initial_backend}
use modbus_server.Legacy.Loading.{load_config}
use modbus_server.Legacy.Transport.Stopping.{exit_server}
use modbus_server.Legacy.Transport.Soundness.{IsReleased}
use modbus_server.Legacy.Loop.{
  Events, before_input, before_start, before_stop, before_service, before_test, interrupted,
  skip_round, is_eintr, stdin_step, rest_of_round, round, loop, main_server, exited,
}
use modbus_server.Legacy.Loop.Steps.{loop_done, loop_next, loop_break}
use modbus_server.Legacy.Loop.Leaks.{machine}
use modbus_server.Legacy.Loop.Tables.{KeepsTables}
use modbus_server.Legacy.Loop.Held.{StartsWell}
use modbus_server.Legacy.Loop.Release.{main_server-IsReleased}
use modbus_server.Legacy.Loop.Lifecycle.{main_server-released}
use modbus_server.Legacy.Loop.Last.{
  IsSignalled, IsLast, comes, stays, skip_round-IsLast, rest_of_round-IsLast, rest_of_round-stop,
  rest_of_round-service, IsHandled, stdin_step-IsLast,
}

module _ {Item Double W : Type 0} (c : Cjson Item Double) (lib : Modbus W) where
  -- The end of a round whose input has been handled.
  pub round_waited :
      (ev : Events) (query : List ℕ) (s : Server W) {s1 : Server W}
      → ltb_ℤ ev.ret (pos 0) ≡ false
      → stdin_step c ev (interrupted before_input ev s) ≡ ok s1
      → let s2 = interrupted before_start ev s1 in
        let r = rest_of_round lib ev (query, s2) in
        round c lib ev (query, s) ≡ ok (false, r.0, interrupted before_test ev r.1)
  unfolding round
  round_waited ev query s waited run = rw (waited, run) refl

  waited-IsLast :
      (ev : Events) (query : List ℕ) (s : Server W) {s1 : Server W}
      → stdin_step c ev (interrupted before_input ev s) ≡ ok s1
      → IsSignalled ev
      → let s2 = interrupted before_start ev s1 in
        IsLast (interrupted before_test ev (rest_of_round lib ev (query, s2)).1)
  waited-IsLast ev query s {s1} run (before_test, h) = comes before_test ev _ h
  waited-IsLast ev query s {s1} run (before_service, h) =
      stays before_test ev _ (rest_of_round-service lib ev query _ h)
  waited-IsLast ev query s {s1} run (before_stop, h) =
      stays before_test ev _ (rest_of_round-stop lib ev query _ h)
  waited-IsLast ev query s {s1} run (before_start, h) =
      stays before_test ev _ (rest_of_round-IsLast lib ev query _ (comes before_start ev s1 h))
  waited-IsLast ev query s {s1} run (before_input, h) =
      let last = stdin_step-IsLast c ev _ run (comes before_input ev s h) in
      stays before_test ev _ (rest_of_round-IsLast lib ev query _ (stays before_start ev s1 last))

  -- A round whose input can be handled comes to its end.
  pub round_runs :
      (ev : Events) (query : List ℕ) (s : Server W)
      → (s1 : Server W) × (stdin_step c ev (interrupted before_input ev s) ≡ ok s1)
      → (r : Bool × List ℕ × Server W) × (round c lib ev (query, s) ≡ ok r)
  unfolding round
  round_runs ev query s (s1, run) = elim (Bool-cases (ltb_ℤ ev.ret (pos 0))) [
    | inl failed ↦ (
      (not (is_eintr ev.errno), query, skip_round ev (interrupted before_input ev s)),
      rw failed refl,
    )
    | inr waited ↦ (_, round_waited ev query s waited run)
  ]

  -- A round in which a signal comes is the last one.
  round-IsLast :
      (ev : Events) (query : List ℕ) (s : Server W) {r : Bool × List ℕ × Server W}
      → round c lib ev (query, s) ≡ ok r
      → IsSignalled ev
      → IsLast r.2
  unfolding round
  round-IsLast ev query s ran signal = elim (Bool-cases (ltb_ℤ ev.ret (pos 0))) [
    | inl failed ↦
        subst (Holds (λ x. IsLast x.2)) (rw failed at ran) (skip_round-IsLast ev s signal)
    | inr waited ↦
        let (s1, run, e) =
          bind-ok (stdin_step c ev (interrupted before_input ev s)) _ (rw waited at ran) in
        subst (Holds (λ x. IsLast x.2)) e (waited-IsLast ev query s run signal)
  ]

  -- What a loop leaves that is over.
  abbrev IsEnded : List Events → List ℕ × Server W → Type 0
  IsEnded evs st = (query' : List ℕ) × (s' : Server W) × (loop c lib evs st ≡ ok (true, query', s'))

  -- A round that is the last one.
  loop_last :
      (ev : Events) (evs : List Events) (query : List ℕ) (s : Server W)
      {r : Bool × List ℕ × Server W}
      → s.running ≡ true
      → round c lib ev (query, s) ≡ ok r
      → (r.0 ≡ false → IsEnded evs (r.1, r.2))
      → IsEnded (ev ∷ evs) (query, s)
  loop_last ev evs query s {r} up ran more = elim (Bool-cases r.0) [
    | inl stop ↦
        (r.1, r.2, loop_break c lib ev evs query s up (ran ∙ ap (λ b. ok (b, r.1, r.2)) stop))
    | inr go ↦
        let (query', s', e) = more go in
        (query', s', loop_next c lib ev evs query s up (ran ∙ ap (λ b. ok (b, r.1, r.2)) go) ∙ e)
  ]

  -- Where the input of each round can be handled up to the one with the signal, the loop ends.
  loop-IsEnded :
      (before after : List Events) (ev : Events) (query : List ℕ) (s : Server W)
      → All (IsHandled W c) before
      → IsHandled W c ev
      → IsSignalled ev
      → IsEnded (before ++ ev ∷ after) (query, s)
  loop-IsEnded [] after ev query s none_before handled signal = elim (Bool-cases s.running) [
    | inl up ↦
        let (r, ran) = round_runs ev query s (handled (interrupted before_input ev s)) in
        let last = round-IsLast ev query s ran signal in
        loop_last ev after query s up ran (λ go. (r.1, r.2, loop_done c lib after r.1 r.2 last))
    | inr down ↦ (query, s, loop_done c lib (ev ∷ after) query s down)
  ]
  loop-IsEnded (e ∷ before) after ev query s (this, those) handled signal =
      elim (Bool-cases s.running) [
        | inl up ↦
            let (r, ran) = round_runs e query s (this (interrupted before_input e s)) in
            loop_last e (before ++ ev ∷ after) query s up ran
              (λ go. loop-IsEnded before after ev r.1 r.2 those handled signal)
        | inr down ↦ (query, s, loop_done c lib (e ∷ before ++ ev ∷ after) query s down)
      ]

  -- Where accepting a client leaves the number of the listening socket alone, answering a request
  -- does not take the tables away, the settings can be loaded and every start from closed
  -- transports succeeds: if a signal comes at any of the five moments of a round, and what the
  -- standard input gives up to that round can be handled in any state, then the main of
  -- json-modbus-server.c returns, whatever would follow, without tables, with every descriptor
  -- other than -1 closed as often as it was handed out and every context freed as often as it was
  -- allocated.
  pub main_server_interrupted :
      (file : Option (List ℕ)) (query : List ℕ) (before after : List Events) (ev : Events) (w : W)
      {settings : Settings}
      → KeepsListening lib
      → KeepsTables lib
      → load_config c file initial_settings ≡ ok (pos 0, settings)
      → StartsWell lib settings.config
      → All (IsHandled W c) before
      → IsHandled W c ev
      → IsSignalled ev
      → (s : Server W) × (main_server c lib file query (before ++ ev ∷ after) w ≡ ok (exited s))
        × (s.backend.mapping ≡ none)
        × IsReleased (machine s)
  unfolding main_server
  main_server_interrupted file query before after ev w {settings} listening tables loads well
        handled_before handled signal =
      let evs = before ++ ev ∷ after in
      let first : Server W = record {
        settings = settings;
        state = state_running;
        running = true;
        backend = initial_backend;
        env = record { world = w; log = [] };
        printed = ready ∷ [];
      } in
      let (query', s', over) =
        loop-IsEnded before after ev query first handled_before handled signal in
      let returns : main_server c lib file query evs w ≡ ok (exited (exit_server lib s')) =
        rw (loads, over) refl in
      (
        exit_server lib s',
        returns,
        main_server-released c lib file query evs w returns,
        main_server-IsReleased c lib listening tables file query evs w loads well returns,
      )
