-- ===== src/Legacy/Loop/Serving.antt =====
-- The main of json-modbus-server.c runs without a fault, and returns on a signal.
use modbus_server.Prelude.{
  ℕ, ◌+◌, ◌^◌, ◌<◌, ◌≡◌, ◌≢◌, refl, sym, ap, subst, ◌∙◌, inl, inr, Bool, true, false, List, [], ◌∷◌,
  Option, none, arith, length, Bool-cases, Option-cases, All,
}
use modbus_server.Prelude.Int.{pos, ltb_ℤ}
use modbus_server.Clib.Fault.{ok}
use modbus_server.Foreign.Cjson.{Cjson, HasTexts}
use modbus_server.Foreign.Modbus.{Modbus}
use modbus_server.JsonCommand.{ready, state_running, state_stopped}
use modbus_server.Legacy.{Settings, Server, initial_settings, initial_backend, signal_handler}
use modbus_server.Legacy.Loading.{load_config}
use modbus_server.Legacy.Command.Faults.{IsServing, process_json-Outlives}
use modbus_server.JsonCommand.Faults.{IsOverrun}
use modbus_server.Legacy.Command.{process_json}
use modbus_server.Legacy.Loop.{
  Events, before_input, interrupted, stdin_step, round, loop, main_server, Finish, finish,
}
use modbus_server.Legacy.Loop.Last.{IsHandled}
use modbus_server.Legacy.Loop.Steps.{loop_done, loop_next, loop_break}
use modbus_server.Legacy.Loop.Held.{StartsWell, IsRunningWell}
use modbus_server.Legacy.Loop.Release.{first-IsHeld}
use modbus_server.Legacy.Loop.Signals.{round_runs}
use modbus_server.Legacy.Loop.Faultless.{
  IsFitted, IsDocumented, IsPrepared, IsFit, round-IsPrepared, round-IsRunningWell,
}

-- The holding registers of the settings: their first address, and how many they are.
pub record IsAddressed (settings : Settings) (first count : ℕ) : Type 0 where
  pub starts : settings.config.holding_regs_start ≡ pos first
  pub counts : settings.config.nb_holding_regs ≡ pos count
  pub fits_int : first + count < 2 ^ 31

module _ {Item Double W : Type 0} (c : Cjson Item Double) {lib : Modbus W} (d : IsDocumented lib)
    (settings : Settings) {first count : ℕ} (a : IsAddressed settings first count)
    (texts : HasTexts c) where
  -- A fit line is handled by a server with tables.
  process_json_total :
      (text : List ℕ) (s : Server W)
      → s.settings ≡ settings
      → IsFitted s.settings.config.nb_holding_regs s.backend.mapping
      → s.backend.mapping ≢ none
      → ¬ (IsOverrun c text (first + count))
      → (s' : Server W) × (process_json c text s ≡ ok s')
  process_json_total text s same fitted there fit = elim (Option-cases s.backend.mapping) [
    | inl gone ↦ absurd (there gone)
    | inr (m, here) ↦
        let (sized, nb) = subst (IsFitted s.settings.config.nb_holding_regs) here fitted in
        let config_same = ap (λ x. x.config) same in
        let n : count ≡ length m.tab_registers =
          ground (arith, a.counts, nb, ap (λ x. x.nb_holding_regs) config_same) in
        let serving : IsServing s m = record {
          first = first;
          here = here;
          starts = ap (λ x. x.holding_regs_start) config_same ∙ a.starts;
          counts = nb;
          sized = sized;
          fits_int = omega (arith, a.fits_int, n);
        } in
        elim (process_json-Outlives c m text s texts serving) [
          | inl runs ↦ runs
          | inr overrun ↦ absurd (fit (subst (λ k. IsOverrun c text (first + k)) (sym n) overrun))
        ]
  ]

  stdin_step_total :
      (ev : Events) (s : Server W)
      → s.settings ≡ settings
      → IsFitted s.settings.config.nb_holding_regs s.backend.mapping
      → s.backend.mapping ≢ none
      → IsFit c (first + count) ev
      → (s' : Server W) × (stdin_step c ev s ≡ ok s')
  unfolding stdin_step
  stdin_step_total ev s same fitted there fit = elim (Bool-cases (ev.is_set (pos 0))) [
    | inl go ↦ elim (Option-cases ev.line) [
      | inl eof ↦
          (record s { running = false; state = state_stopped }, rw (stdin_step, go, eof) refl)
      | inr (text, line) ↦
          let (s', run) = process_json_total text s same fitted there (fit text line) in
          (s', rw (stdin_step, go, line) run)
    ]
    | inr quiet ↦ (s, rw (stdin_step, quiet) refl)
  ]

  interrupted_same :
      (ev : Events) (s : Server W)
      → ((interrupted before_input ev s).settings ≡ s.settings)
        × ((interrupted before_input ev s).backend ≡ s.backend)
  unfolding interrupted signal_handler
  interrupted_same ev s = ground arith

  -- A fit round comes to its end in a server with tables.
  fit_round_total :
      (ev : Events) (query : List ℕ) (s : Server W)
      → s.running ≡ true
      → IsPrepared d settings s
      → IsRunningWell lib s
      → IsFit c (first + count) ev
      → (r : Bool × List ℕ × Server W) × (round c lib ev (query, s) ≡ ok r)
  fit_round_total ev query s on p well fit =
      let s' = interrupted before_input ev s in
      let (settings_same, backend_same) = interrupted_same ev s in
      let there : s.backend.mapping ≢ none = well (rw (p.up on) refl) in
      let fitted : IsFitted s'.settings.config.nb_holding_regs s'.backend.mapping =
        rw (settings_same, backend_same) p.fitted in
      round_runs c lib ev query s (
        stdin_step_total ev s' (settings_same ∙ p.same) fitted
          (λ gone. there (sym (ap (λ b. b.mapping) backend_same) ∙ gone)) fit)

  -- A loop that ends or comes to the end of the list.
  abbrev Runs : List Events → List ℕ × Server W → Type 0
  Runs evs st = (r : Bool × List ℕ × Server W) × (loop c lib evs st ≡ ok r)

  loop_cons :
      (ev : Events) (evs : List Events) (query : List ℕ) (s : Server W)
      {r : Bool × List ℕ × Server W}
      → s.running ≡ true
      → round c lib ev (query, s) ≡ ok r
      → Runs evs (r.1, r.2)
      → Runs (ev ∷ evs) (query, s)
  loop_cons ev evs query s {r} up ran (r', e) = elim (Bool-cases r.0) [
    | inl stop ↦ (
      (true, r.1, r.2),
      loop_break c lib ev evs query s up (ran ∙ ap (λ b. ok (b, r.1, r.2)) stop),
    )
    | inr go ↦ (r', loop_next c lib ev evs query s up (ran ∙ ap (λ b. ok (b, r.1, r.2)) go) ∙ e)
  ]

  fit_loop_total :
      (evs : List Events) (query : List ℕ) (s : Server W)
      → IsPrepared d settings s
      → IsRunningWell lib s
      → All (IsFit c (first + count)) evs
      → Runs evs (query, s)
  unfolding loop
  fit_loop_total [] query s p well fit = (_, refl)
  fit_loop_total (ev ∷ evs) query s p well (this, those) = elim (Bool-cases s.running) [
    | inl on ↦
        let (r, ran) = fit_round_total ev query s on p well this in
        let p' = round-IsPrepared c d settings ev query s r ran on p in
        let well' = round-IsRunningWell c d settings ev query s r ran p (λ failed. well) in
        loop_cons ev evs query s on ran (fit_loop_total evs r.1 r.2 p' well' those)
    | inr down ↦ (_, loop_done c lib (ev ∷ evs) query s down)
  ]

  -- The state before the first round.
  first_server : W → Server W
  first_server w = record {
    settings = settings;
    state = state_running;
    running = true;
    backend = initial_backend;
    env = record { world = w; log = [] };
    printed = ready ∷ [];
  }

  first-IsPrepared :
      (w : W) → StartsWell lib settings.config → IsPrepared d settings (first_server w)
  unfolding first_server initial_backend
  first-IsPrepared w well = record {
    same = refl;
    held = first-IsHeld lib settings w well;
    fitted = tt;
    up = λ on. refl;
  }

  -- Where libmodbus makes tables of the size asked for, keeps their size and presence when it
  -- answers, and leaves the number of the listening socket alone; where cJSON gives every string
  -- item a text; where the settings can be loaded, their holding registers have numbers within int,
  -- and every start from closed transports succeeds: a run of the main of json-modbus-server.c of
  -- any length whose first round waits without failing, with an input that any state can handle,
  -- and in whose later rounds no line is an update with a number of two words for the last
  -- register, has no fault: no access outside the tables, no null pointer, no overflow.
  pub main_server-IsFaultless :
      (file : Option (List ℕ)) (query : List ℕ) (ev : Events) (evs : List Events) (w : W)
      → load_config c file initial_settings ≡ ok (pos 0, settings)
      → StartsWell lib settings.config
      → ltb_ℤ ev.ret (pos 0) ≡ false
      → IsHandled W c ev
      → All (IsFit c (first + count)) evs
      → (r : Finish W) × (main_server c lib file query (ev ∷ evs) w ≡ ok r)
  unfolding main_server first_server
  main_server-IsFaultless file query ev evs w loads well waited handled fit =
      let s = first_server w in
      let p = first-IsPrepared w well in
      let (r, ran) = round_runs c lib ev query s (handled (interrupted before_input ev s)) in
      let p' = round-IsPrepared c d settings ev query s r ran refl p in
      let well' =
        round-IsRunningWell c d settings ev query s r ran p (λ failed. absurd (ground arith)) in
      let (st, e) = loop_cons ev evs query s refl ran (fit_loop_total evs r.1 r.2 p' well' fit) in
      (finish c lib st, rw (loads, e) refl)
