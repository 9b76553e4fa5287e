-- ===== src/Legacy/Loop.antt =====
-- `main` of json-modbus-server.c: the rounds of its loop, what they wait for, and the exit.
pub mod Watching
pub mod Steps
pub mod Lifecycle
pub mod Contexts
pub mod Leaks
pub mod Tables
pub mod Input
pub mod Held
pub mod Release
pub mod Last
pub mod Signals
pub mod Kept
pub mod Rounds
pub mod Ready
pub mod Faultless
pub mod Serving
mod Tests
mod ServingTests
use modbus_server.Prelude.{
  ℕ, zero, suc, ◌+◌, Bool, true, false, not, ◌&&◌, List, [], ◌∷◌, ◌++◌, Option, none, some, ltb,
  if◌then◌else◌,
}
use modbus_server.Prelude.Int.{ℤ, pos, minus_one, eqb_ℤ, ltb_ℤ}
use modbus_server.Clib.Fault.{Result, ok, fault, ◌>>=◌}
use modbus_server.Foreign.Cjson.{Cjson}
use modbus_server.Foreign.Mapping.{Mapping}
use modbus_server.Foreign.Modbus.{Modbus, Errno, eagain, ewouldblock, eintr, other}
use modbus_server.Backend.{Backend}
use modbus_server.JsonCommand.{ServerState, state_stopped, state_running, Reply, ready}
use modbus_server.Machine.{Env, Machine}
use modbus_server.Legacy.{Settings, Server, initial_settings, initial_backend, signal_handler}
use modbus_server.Legacy.Loading.{load_config}
use modbus_server.Legacy.Command.{process_json}
use modbus_server.Legacy.Transport.Starting.{start_server}
use modbus_server.Legacy.Transport.Stopping.{stop_server, exit_server}
use modbus_server.Legacy.Transport.Serving.{serve_machine}

-- The moments of a round at which a signal is seen: before the step that is named first tests the
-- state that the signal changes.
pub data Moment : Type 0 where
  before_input : Moment
  before_start : Moment
  before_stop : Moment
  before_service : Moment
  before_test : Moment

-- What a round finds: the answer of `select` with `errno`, the descriptors that are then set, the
-- line that `fgets` gives, if it gives one, and the moments at which a signal has come.
pub record Events : Type 0 where
  pub ret : ℤ
  pub errno : Errno
  pub is_set : ℤ → Bool
  pub line : Option (List ℕ)
  pub signals : Moment → Bool

-- The settings cannot be loaded and the program exits with a failure, `main` returns, or the list of
-- events ends before the loop does.
pub data Finish (W : Type 0) : Type 0 where
  unloaded : Finish W
  exited : Server W → Finish W
  goes_on : Server W → Finish W

-- The `errno` on which the loop goes on.
abbrev pub is_eintr : Errno → Bool
is_eintr eintr = true
is_eintr eagain = false
is_eintr ewouldblock = false
is_eintr (other _) = false

abbrev pub is_running : ServerState → Bool
is_running state_running = true
is_running state_stopped = false

abbrev pub is_some {ℓ} : {A : Type ℓ} → Option A → Bool
is_some none = false
is_some (some _) = true

module _ {W : Type 0} where
  unfoldable pub interrupted : Moment → Events → Server W → Server W
  interrupted now ev s = if ev.signals now then signal_handler s else s

  -- A signal for a step that the round leaves out comes at its end.
  unfoldable pub skip_service : Events → Server W → Server W
  unfolding interrupted
  skip_service ev s = interrupted before_service ev (interrupted before_stop ev s)

  unfoldable pub skip_round : Events → Server W → Server W
  unfolding interrupted skip_service
  skip_round ev s = interrupted before_test ev (skip_service ev (interrupted before_start ev s))

module _ {Item Double W : Type 0} (c : Cjson Item Double) where
  -- The standard input. Its end stops the server and the program.
  unfoldable pub stdin_step : Events → Server W → Result (Server W)
  stdin_step ev s =
      if ev.is_set (pos 0)
      then elim ev.line [
        | some text ↦ process_json c text s
        | none ↦ ok (record s { running = false; state = state_stopped })
      ]
      else ok s

module _ {W : Type 0} (lib : Modbus W) where
  -- The start of a server that runs and has no mapping; the answer says whether the round goes on.
  unfoldable pub start_step : Server W → Bool × Server W
  start_step s =
      if is_running s.state && not (is_some s.backend.mapping)
      then start_server lib s
      else (true, s)

  -- The cleanup of a server that is stopped and has a mapping.
  unfoldable pub stop_step : Server W → Server W
  stop_step s =
      if not (is_running s.state) && is_some s.backend.mapping then stop_server lib s else s

  unfoldable pub serve_step : Events → List ℕ × Server W → List ℕ × Server W
  serve_step ev (query, s) =
      if is_running s.state && ltb_ℤ (pos 0) ev.ret
      then (let (query', m) =
            serve_machine lib s.settings.config ev.is_set
              (query, record { backend = s.backend; env = s.env }) in
          (query', record s { backend = m.backend; env = m.env }))
      else (query, s)

  -- What follows the standard input in a round.
  unfoldable pub rest_of_round : Events → List ℕ × Server W → List ℕ × Server W
  rest_of_round ev (query, s) =
      let (go_on, s') = start_step s in
      if go_on
      then serve_step ev
          (query, interrupted before_service ev (stop_step (interrupted before_stop ev s')))
      else (query, skip_service ev s')

module _ {Item Double W : Type 0} (c : Cjson Item Double) (lib : Modbus W) where
  -- A round of the loop: whether it ends in `break`, the query buffer, and the server.
  unfoldable pub round : Events → List ℕ × Server W → Result (Bool × List ℕ × Server W)
  round ev (query, s0) =
      let s = interrupted before_input ev s0 in
      if ltb_ℤ ev.ret (pos 0) then ok (not (is_eintr ev.errno), query, skip_round ev s) else do
        s' ← stdin_step c ev s
        let (query', s'') = rest_of_round lib ev (query, interrupted before_start ev s')
        ok (false, query', interrupted before_test ev s'')

  -- `while (running)`, as long as the list of events lasts; whether the loop is over.
  unfoldable pub loop : List Events → List ℕ × Server W → Result (Bool × List ℕ × Server W)
  loop [] (query, s) = ok (not s.running, query, s)
  loop (ev ∷ evs) (query, s) = elim s.running [
    | false ↦ ok (true, query, s)
    | true ↦ elim (round ev (query, s)) [
      | fault f ↦ fault f
      | ok (stop, query', s') ↦ elim stop [
        | true ↦ ok (true, query', s')
        | false ↦ loop evs (query', s')
      ]
    ]
  ]

  -- The end of a loop that is over.
  abbrev pub finish : Bool × List ℕ × Server W → Finish W
  finish (over, query, s) = if over then exited (exit_server lib s) else goes_on s

  -- `main`, from the file of the settings and the bytes that the query buffer holds.
  unfoldable pub main_server : Option (List ℕ) → List ℕ → List Events → W → Result (Finish W)
  main_server file query evs w = do
    loaded ← load_config c file initial_settings
    if eqb_ℤ loaded.0 (pos 0)
        then (do
          st ← loop evs (
            query,
            record {
              settings = loaded.1;
              state = state_running;
              running = true;
              backend = initial_backend;
              env = record { world = w; log = [] };
              printed = ready ∷ [];
            },
          )
          ok (finish st))
        else ok unloaded
