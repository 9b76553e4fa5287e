-- ===== src/Legacy/Loop/Ready.antt =====
-- A round of json-modbus-server.c leaves a server ready for the next line: the settings are the same,
-- the flag of the loop is false or the state is running, and what runs has tables, of the size that
-- the settings ask for.
use modbus_server.Prelude.{
  ℕ, ◌≡◌, inl, inr, true, ◌&&◌, List, arith, Bool-cases, Option-cases, if_cases,
}
use modbus_server.Prelude.Int.{pos, ltb_ℤ}
use modbus_server.Clib.Fault.{ok}
use modbus_server.Foreign.Cjson.{Cjson}
use modbus_server.Foreign.Modbus.{Modbus}
use modbus_server.JsonCommand.{state_running}
use modbus_server.Legacy.{Server, signal_handler}
use modbus_server.Legacy.Command.Changes.{Change, ignored, refused, written}
use modbus_server.Legacy.Command.Outcomes.{
  Outcome, stops, starts, starts_again, reports, ignores, updates, process_json-Outcome,
}
use modbus_server.Legacy.Transport.Starting.{start_server}
use modbus_server.Legacy.Transport.Stopping.{stop_server}
use modbus_server.Legacy.Loop.{
  Events, Moment, before_start, before_stop, before_service, before_test, interrupted, skip_service,
  skip_round, is_running, stdin_step, start_step, stop_step, serve_step, rest_of_round,
}
use modbus_server.Legacy.Loop.Leaks.{machine}
use modbus_server.Legacy.Loop.Steps.{start_server-state}
use modbus_server.Legacy.Loop.Tables.{KeepsTables, serve_machine-HasTables}
use modbus_server.Legacy.Loop.Held.{
  IsHeld, start_step-IsStarted, IsRunningWell, stop_step-IsRunningWell, interrupted-IsRunningWell,
}

-- While the loop is to go on, the server runs.
abbrev pub IsUp : {W : Type 0} → Server W → Type 0
IsUp s = s.running ≡ true → s.state ≡ state_running

Change-IsUp :
    {Item Double W : Type 0} {c : Cjson Item Double} {root : Item} {s s' : Server W}
    → Change c root s s'
    → IsUp s
    → IsUp s'
Change-IsUp (ignored nothing e) u run = ground arith
Change-IsUp (refused line why e) u run = ground arith
Change-IsUp (written m r a t here e) u run = ground arith

Outcome-IsUp :
    {Item Double W : Type 0} {c : Cjson Item Double} {json : List ℕ} {s s' : Server W}
    → Outcome c json s s'
    → IsUp s
    → IsUp s'
Outcome-IsUp (stops n e) u run = ground arith
Outcome-IsUp (starts n was e) u run = ground arith
Outcome-IsUp (starts_again n was e) u run = ground arith
Outcome-IsUp (reports n e) u run = ground arith
Outcome-IsUp (ignores bad e) u run = ground arith
Outcome-IsUp (updates root good plain d) u run = Change-IsUp d u run

module _ {W : Type 0} where
  pub interrupted-IsUp :
      (now : Moment) (ev : Events) (s : Server W) → IsUp s → IsUp (interrupted now ev s)
  unfolding interrupted signal_handler
  interrupted-IsUp now ev s u run = ground arith

  pub skip_round-IsUp : (ev : Events) (s : Server W) → IsUp s → IsUp (skip_round ev s)
  unfolding skip_round skip_service
  skip_round-IsUp ev s u =
      let s1 = interrupted before_start ev s in
      let s2 = interrupted before_stop ev s1 in
      interrupted-IsUp before_test ev (interrupted before_service ev s2) (
        interrupted-IsUp before_service ev s2
          (interrupted-IsUp before_stop ev s1 (interrupted-IsUp before_start ev s u)))

  pub skip_round-settings : (ev : Events) (s : Server W) → (skip_round ev s).settings ≡ s.settings
  unfolding skip_round skip_service interrupted signal_handler
  skip_round-settings ev s = ground arith

module _ {Item Double W : Type 0} (c : Cjson Item Double) where
  pub stdin_step-IsUp :
      (ev : Events) (s : Server W) {s' : Server W} → stdin_step c ev s ≡ ok s' → IsUp s → IsUp s'
  unfolding stdin_step
  stdin_step-IsUp ev s e u = elim (Bool-cases (ev.is_set (pos 0))) [
    | inl go ↦ elim (Option-cases ev.line) [
      | inl eof ↦ λ run. ground arith
      | inr (text, line) ↦
          Outcome-IsUp (process_json-Outcome c text s (rw (go, stdin_step, line) at e)) u
    ]
    | inr quiet ↦ λ run. ground arith
  ]

module _ {W : Type 0} (lib : Modbus W) where
  start_server-settings : (s : Server W) → (start_server lib s).1.settings ≡ s.settings
  unfolding start_server
  start_server-settings s = ground arith

  pub rest_of_round-IsUp :
      (ev : Events) (query : List ℕ) (s : Server W)
      → IsUp s
      → IsUp (rest_of_round lib ev (query, s)).1
  unfolding rest_of_round start_step stop_step serve_step stop_server skip_service interrupted
      signal_handler
  rest_of_round-IsUp ev query s u run = ground (arith, start_server-state lib s)

  pub rest_of_round-settings :
      (ev : Events) (query : List ℕ) (s : Server W)
      → (rest_of_round lib ev (query, s)).1.settings ≡ s.settings
  unfolding rest_of_round start_step stop_step serve_step stop_server skip_service interrupted
      signal_handler
  rest_of_round-settings ev query s = ground (arith, start_server-settings s)

module _ {W : Type 0} (lib : Modbus W) (tables : KeepsTables lib) where
  serve_step-IsRunningWell :
      (ev : Events) (query : List ℕ) (s : Server W)
      → IsRunningWell lib s
      → IsRunningWell lib (serve_step lib ev (query, s)).1
  unfolding serve_step
  serve_step-IsRunningWell ev query s well =
      if_cases (λ (r : List ℕ × Server W). IsRunningWell lib r.1)
        (is_running s.state && ltb_ℤ (pos 0) ev.ret)
        (λ go runs.
          serve_machine-HasTables lib tables s.settings.config ev.is_set query (machine s)
            (well runs))
        (λ stay. well)

  -- Whatever still runs at the end of a round has tables.
  pub rest_of_round-IsRunningWell :
      (ev : Events) (query : List ℕ) (s : Server W)
      → IsHeld lib s
      → IsRunningWell lib (rest_of_round lib ev (query, s)).1
  unfolding rest_of_round
  rest_of_round-IsRunningWell ev query s h =
      let (go_on, s1) = start_step lib s in
      let (up, h1, well1) = start_step-IsStarted lib s h in
      let s2 = interrupted before_stop ev s1 in
      let s3 = stop_step lib s2 in
      let well3 =
        stop_step-IsRunningWell lib s2 (interrupted-IsRunningWell lib before_stop ev s1 well1) in
      rw up (
        serve_step-IsRunningWell ev query (interrupted before_service ev s3)
          (interrupted-IsRunningWell lib before_service ev s3 well3))
