-- ===== src/Legacy/Loop/Last.antt =====
-- The rounds of json-modbus-server.c in which a signal comes: whatever the moment, the flag of the
-- loop is false at the end.
use modbus_server.Prelude.{ℕ, ◌≡◌, inl, inr, true, false, List, arith, Bool-cases, Option-cases}
use modbus_server.Prelude.Int.{pos}
use modbus_server.Clib.Fault.{ok}
use modbus_server.Foreign.Cjson.{Cjson}
use modbus_server.Foreign.Modbus.{Modbus}
use modbus_server.Legacy.{Server, signal_handler}
use modbus_server.Legacy.Command.Changes.{Change, ignored, refused, written}
use modbus_server.Legacy.Command.Outcomes.{
  Outcome, stops, starts, starts_again, reports, ignores, updates, process_json-Outcome,
}
use modbus_server.Legacy.Transport.Stopping.{stop_server}
use modbus_server.Legacy.Loop.{
  Events, Moment, before_input, before_start, before_stop, before_service, before_test, interrupted,
  skip_service, skip_round, stdin_step, start_step, stop_step, serve_step, rest_of_round,
}
use modbus_server.Legacy.Loop.Steps.{start_server-state}

-- A signal comes at some moment of the round.
abbrev pub IsSignalled : Events → Type 0
IsSignalled ev = (now : Moment) × (ev.signals now ≡ true)

module _ {W : Type 0} where
  -- The round is the last one.
  abbrev pub IsLast : Server W → Type 0
  IsLast s = s.running ≡ false

  pub comes :
      (now : Moment) (ev : Events) (s : Server W)
      → ev.signals now ≡ true
      → IsLast (interrupted now ev s)
  unfolding interrupted signal_handler
  comes now ev s h = ground arith

  pub stays : (now : Moment) (ev : Events) (s : Server W) → IsLast s → IsLast (interrupted now ev s)
  unfolding interrupted signal_handler
  stays now ev s h = ground arith

  skip_round-stays : (ev : Events) (s : Server W) → IsLast s → IsLast (skip_round ev s)
  unfolding skip_round skip_service interrupted signal_handler
  skip_round-stays ev s h = ground arith

  -- Whatever is left out of a round, its signals are seen.
  pub skip_round-IsLast :
      (ev : Events) (s : Server W)
      → IsSignalled ev
      → IsLast (skip_round ev (interrupted before_input ev s))
  unfolding skip_round skip_service interrupted signal_handler
  skip_round-IsLast ev s (before_input, h) =
      skip_round-stays ev (interrupted before_input ev s) (comes before_input ev s h)
  skip_round-IsLast ev s (before_start, h) = ground arith
  skip_round-IsLast ev s (before_stop, h) = ground arith
  skip_round-IsLast ev s (before_service, h) = ground arith
  skip_round-IsLast ev s (before_test, h) = ground arith

Change-IsLast :
    {Item Double W : Type 0} {c : Cjson Item Double} {root : Item} {s s' : Server W}
    → Change c root s s'
    → IsLast s
    → IsLast s'
Change-IsLast (ignored nothing e) h = ground arith
Change-IsLast (refused line why e) h = ground arith
Change-IsLast (written m r a t here e) h = ground arith

Outcome-IsLast :
    {Item Double W : Type 0} {c : Cjson Item Double} {json : List ℕ} {s s' : Server W}
    → Outcome c json s s'
    → IsLast s
    → IsLast s'
Outcome-IsLast (stops n e) h = ground arith
Outcome-IsLast (starts n was e) h = ground arith
Outcome-IsLast (starts_again n was e) h = ground arith
Outcome-IsLast (reports n e) h = ground arith
Outcome-IsLast (ignores bad e) h = ground arith
Outcome-IsLast (updates root good plain u) h = Change-IsLast u h

module _ {W : Type 0} (lib : Modbus W) where
  pub rest_of_round-IsLast :
      (ev : Events) (query : List ℕ) (s : Server W)
      → IsLast s
      → IsLast (rest_of_round lib ev (query, s)).1
  unfolding rest_of_round start_step stop_step serve_step stop_server skip_service interrupted
      signal_handler
  rest_of_round-IsLast ev query s h = ground (arith, start_server-state lib s)

  pub rest_of_round-stop :
      (ev : Events) (query : List ℕ) (s : Server W)
      → ev.signals before_stop ≡ true
      → IsLast (rest_of_round lib ev (query, s)).1
  unfolding rest_of_round start_step stop_step serve_step stop_server skip_service interrupted
      signal_handler
  rest_of_round-stop ev query s h = ground (arith, start_server-state lib s)

  pub rest_of_round-service :
      (ev : Events) (query : List ℕ) (s : Server W)
      → ev.signals before_service ≡ true
      → IsLast (rest_of_round lib ev (query, s)).1
  unfolding rest_of_round serve_step skip_service interrupted signal_handler
  rest_of_round-service ev query s h = ground arith

-- What a round finds on the standard input can be handled in any state: a command, a text that does
-- not parse, the end of the input or nothing.
abbrev pub IsHandled : {Item Double : Type 0} (W : Type 0) → Cjson Item Double → Events → Type 0
IsHandled W c ev = (s : Server W) → (s' : Server W) × (stdin_step c ev s ≡ ok s')

module _ {Item Double W : Type 0} (c : Cjson Item Double) where
  pub stdin_step-IsLast :
      (ev : Events) (s : Server W) {s' : Server W}
      → stdin_step c ev s ≡ ok s'
      → IsLast s
      → IsLast s'
  unfolding stdin_step
  stdin_step-IsLast ev s e h = elim (Bool-cases (ev.is_set (pos 0))) [
    | inl go ↦ elim (Option-cases ev.line) [
      | inl eof ↦ ground arith
      | inr (text, line) ↦
          Outcome-IsLast (process_json-Outcome c text s (rw (go, stdin_step, line) at e)) h
    ]
    | inr quiet ↦ ground arith
  ]
