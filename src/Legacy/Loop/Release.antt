-- ===== src/Legacy/Loop/Release.antt =====
-- What json-modbus-server.c holds when its `main` returns, where its starts succeed.
use modbus_server.Prelude.{
  ℕ, ◌≡◌, refl, sym, subst, inl, inr, Bool, true, ◌&&◌, List, [], ◌∷◌, Option, arith, Bool-cases,
  Option-cases, if_cases,
}
use modbus_server.Prelude.Int.{pos, ltb_ℤ}
use modbus_server.Clib.Fault.{ok, bind-ok, Holds}
use modbus_server.Foreign.Cjson.{Cjson}
use modbus_server.Foreign.Modbus.{Modbus, KeepsListening}
use modbus_server.JsonCommand.{ready, state_running}
use modbus_server.Legacy.{Settings, Server, initial_settings, initial_backend}
use modbus_server.Legacy.Loading.{load_config}
use modbus_server.Legacy.Transport.Stopping.{exit_machine, exit_server}
use modbus_server.Legacy.Transport.Soundness.{IsReleased}
use modbus_server.Legacy.Transport.Lifetimes.{serve_machine-IsSound}
use modbus_server.Legacy.Transport.Cleanups.{exit_machine-IsReleased}
use modbus_server.Legacy.Loop.{
  Events, before_input, before_start, before_stop, before_service, before_test, interrupted,
  is_running, stdin_step, start_step, stop_step, serve_step, rest_of_round, round, loop,
  main_server, Finish, exited, unloaded, goes_on,
}
use modbus_server.Legacy.Loop.Leaks.{machine}
use modbus_server.Legacy.Loop.Steps.{loop-keeps}
use modbus_server.Legacy.Loop.Tables.{KeepsTables, serve_machine-HasTables}
use modbus_server.Legacy.Loop.Input.{stdin_step-Untouched}
use modbus_server.Legacy.Loop.Held.{
  StartsWell, IsHeld, Untouched-IsHeld, start_step-IsStarted, stop_step-IsHeld, IsRunningWell,
  stop_step-IsRunningWell, interrupted-IsHeld, interrupted-IsRunningWell, skip_round-IsHeld,
}

module _ {W : Type 0} (lib : Modbus W) (listening : KeepsListening lib)
    (tables : KeepsTables lib) where
  serve_step-IsHeld :
      (ev : Events) (query : List ℕ) (s : Server W)
      → IsRunningWell lib s
      → IsHeld lib s
      → IsHeld lib (serve_step lib ev (query, s)).1
  unfolding serve_step
  serve_step-IsHeld ev query s well h =
      let config = s.settings.config in
      if_cases (λ (r : List ℕ × Server W). IsHeld lib r.1)
        (is_running s.state && ltb_ℤ (pos 0) ev.ret)
        (λ go.
          let there = well (ground arith) in
          record {
            well = h.well;
            closed = λ gone.
                absurd (
                  serve_machine-HasTables lib tables config ev.is_set query (machine s) there gone);
            sound = λ still.
                serve_machine-IsSound lib config listening ev.is_set query (machine s)
                  (h.sound there);
          })
        (λ stay. h)

  rest_of_round-IsHeld :
      (ev : Events) (query : List ℕ) (s : Server W)
      → IsHeld lib s
      → IsHeld lib (rest_of_round lib ev (query, s)).1
  unfolding rest_of_round
  rest_of_round-IsHeld ev query s h =
      let (go_on, s1) = start_step lib s in
      let (up, h1, well1) = start_step-IsStarted lib s h in
      let s2 = interrupted before_stop ev s1 in
      let well2 = interrupted-IsRunningWell lib before_stop ev s1 well1 in
      let s3 = stop_step lib s2 in
      let h3 = stop_step-IsHeld lib s2 (interrupted-IsHeld lib before_stop ev s1 h1) in
      let well3 = stop_step-IsRunningWell lib s2 well2 in
      rw up (
        serve_step-IsHeld ev query (interrupted before_service ev s3)
          (interrupted-IsRunningWell lib before_service ev s3 well3)
          (interrupted-IsHeld lib before_service ev s3 h3))

module _ {W : Type 0} (lib : Modbus W) where
  -- Before the first round.
  pub first-IsHeld :
      (settings : Settings) (w : W)
      → StartsWell lib settings.config
      → IsHeld lib (record {
        settings = settings;
        state = state_running;
        running = true;
        backend = initial_backend;
        env = record { world = w; log = [] };
        printed = ready ∷ [];
      })
  unfolding initial_backend
  first-IsHeld settings w well = record {
    well = well;
    closed = λ gone. record {
      listener = refl;
      server = refl;
      line = refl;
      released = record { descriptors = λ fd ne. refl; contexts = λ p. refl };
    };
    sound = λ there. absurd (there refl);
  }

module _ {Item Double W : Type 0} (c : Cjson Item Double) (lib : Modbus W)
    (listening : KeepsListening lib) (tables : KeepsTables lib) where
  pub round-IsHeld :
      (ev : Events) (query : List ℕ) (s : Server W) (r : Bool × List ℕ × Server W)
      → round c lib ev (query, s) ≡ ok r
      → s.running ≡ true
      → IsHeld lib s
      → IsHeld lib r.2
  unfolding round
  round-IsHeld ev query s0 r ran up h0 =
      let s = interrupted before_input ev s0 in
      let h = interrupted-IsHeld lib before_input ev s0 h0 in
      elim (Bool-cases (ltb_ℤ ev.ret (pos 0))) [
        | inl failed ↦
            subst (Holds (λ x. IsHeld lib x.2)) (rw failed at ran) (skip_round-IsHeld lib ev s h)
        | inr waited ↦
            let (s', run, e) = bind-ok (stdin_step c ev s) _ (rw waited at ran) in
            let s1 = interrupted before_start ev s' in
            let h1 =
              interrupted-IsHeld lib before_start ev s'
                (Untouched-IsHeld lib (stdin_step-Untouched c ev s run) h) in
            let s2 = (rest_of_round lib ev (query, s1)).1 in
            let h2 = rest_of_round-IsHeld lib listening tables ev query s1 h1 in
            subst (Holds (λ x. IsHeld lib x.2)) e (interrupted-IsHeld lib before_test ev s2 h2)
      ]

  -- What is left where `main` has returned.
  abbrev IsOver : Finish W → Type 0
  IsOver unloaded = Unit
  IsOver (exited s) = IsReleased (machine s)
  IsOver (goes_on s) = Unit

  exit_server-IsReleased : (s : Server W) → IsHeld lib s → IsReleased (machine (exit_server lib s))
  unfolding exit_server exit_machine
  exit_server-IsReleased s h = elim (Option-cases s.backend.mapping) [
    | inl empty ↦
        let config = s.settings.config in
        let same : exit_machine lib config.enable_tcp config.enable_rtu (machine s) ≡ machine s =
          ground arith in
        subst IsReleased (sym same) (h.closed empty).released
    | inr (t, here) ↦
        exit_machine-IsReleased lib s.settings.config (machine s) here
          (h.sound (λ gone. absurd (cc)))
  ]

  -- Where accepting a client leaves the number of the listening socket alone and answering a
  -- request does not take the tables away: a run of the main of json-modbus-server.c that loads
  -- settings of which every start from closed transports succeeds, and that returns, whatever its
  -- input, its clients and signals did, has closed every descriptor other than -1 as often as it
  -- was handed out and freed every context as often as it was allocated.
  pub main_server-IsReleased :
      (file : Option (List ℕ)) (query : List ℕ) (evs : List Events) (w : W) {settings : Settings}
      {s : Server W}
      → load_config c file initial_settings ≡ ok (pos 0, settings)
      → StartsWell lib settings.config
      → main_server c lib file query evs w ≡ ok (exited s)
      → IsReleased (machine s)
  unfolding main_server
  main_server-IsReleased file query evs w {settings} {s} loads well e =
      let first : Server W = record {
        settings = settings;
        state = state_running;
        running = true;
        backend = initial_backend;
        env = record { world = w; log = [] };
        printed = ready ∷ [];
      } in
      let (st, ran, e') = bind-ok (loop c lib evs (query, first)) _ (rw loads at e) in
      let held =
        loop-keeps c lib (IsHeld lib) round-IsHeld evs query first ran
          (first-IsHeld lib settings w well) in
      subst (Holds IsOver) e'
        (if_cases IsOver st.0 (λ over. exit_server-IsReleased st.2 held) (λ more. tt))
