-- ===== src/Legacy/Loop/Leaks.antt =====
-- The contexts that json-modbus-server.c allocates and frees in a round of its loop.
use modbus_server.Prelude.{ℕ, ◌≡◌, inl, inr, true, List, none, some, arith, Option-cases}
use modbus_server.Foreign.Modbus.{Modbus}
use modbus_server.Config.{ModbusConfig}
use modbus_server.Machine.{Machine, new_tcp, tcp_listen}
use modbus_server.RtuAdapter.Contexts.{IsBalanced}
use modbus_server.Legacy.{Server, signal_handler}
use modbus_server.Legacy.Transport.Starting.{listen_tcp, start_tcp, start_server}
use modbus_server.Legacy.Transport.Stopping.{stop_tcp, free_mapping, stop_server}
use modbus_server.Legacy.Loop.{
  Events, Moment, before_stop, before_service, interrupted, skip_service, start_step, stop_step,
  serve_step, rest_of_round,
}
use modbus_server.Legacy.Loop.Contexts.{
  start_machine-IsBalanced, serve_machine-IsBalanced, stop_tcp-IsBalanced, stop_rtu-IsBalanced,
}

-- The server as the adapters see it.
abbrev pub machine : {W : Type 0} → Server W → Machine W
machine s = record { backend = s.backend; env = s.env }

module _ {W : Type 0} (lib : Modbus W) where
  -- With TCP enabled, a start beside a TCP context that is still there, in a balanced state, leaves
  -- the contexts unbalanced if a new context is allocated.
  pub start_tcp_leaks :
      (config : ModbusConfig) (m : Machine W) {p q : ℕ}
      → IsBalanced m
      → config.enable_tcp ≡ true
      → m.backend.ctx_tcp ≡ some p
      → (lib.new_tcp config.tcp_port m.env.world).0 ≡ some q
      → ¬ (IsBalanced (start_tcp lib config m).1)
  unfolding start_tcp listen_tcp new_tcp tcp_listen
  start_tcp_leaks config m {p} {q} b on here made after = ground (arith, b p, after p)

  stop_server-IsBalanced :
      (s : Server W) → IsBalanced (machine s) → IsBalanced (machine (stop_server lib s))
  unfolding stop_server free_mapping
  stop_server-IsBalanced s b q =
      let m1 = stop_tcp lib (machine s) in
      let b1 = stop_tcp-IsBalanced lib (machine s) b in
      ground
        (arith, b q, b1 q, stop_rtu-IsBalanced lib m1 b1 q, stop_rtu-IsBalanced lib (machine s) b q)

  interrupted-IsBalanced :
      (now : Moment) (ev : Events) (s : Server W)
      → IsBalanced (machine s)
      → IsBalanced (machine (interrupted now ev s))
  unfolding interrupted signal_handler
  interrupted-IsBalanced now ev s b q = ground (arith, b q)

  start_step-IsBalanced :
      (s : Server W)
      → (s.backend.mapping ≡ none → (s.backend.ctx_tcp ≡ none) × (s.backend.ctx_rtu ≡ none))
      → IsBalanced (machine s)
      → IsBalanced (machine (start_step lib s).1)
  unfolding start_step start_server
  start_step-IsBalanced s fresh b q = elim (Option-cases s.backend.mapping) [
    | inl missing ↦
        let (no_tcp, no_rtu) = fresh missing in
        ground
          (arith, b q, start_machine-IsBalanced lib s.settings.config (machine s) no_tcp no_rtu b q)
    | inr (m, here) ↦ ground (arith, b q)
  ]

  -- Where a server without tables has no context and the contexts are balanced: what follows the
  -- input in a round (start, stop, service, reconnection, with signals at any moment) keeps each
  -- context allocated as often as it is freed and held.
  pub rest_of_round-IsBalanced :
      (ev : Events) (query : List ℕ) (s : Server W)
      → (s.backend.mapping ≡ none → (s.backend.ctx_tcp ≡ none) × (s.backend.ctx_rtu ≡ none))
      → IsBalanced (machine s)
      → IsBalanced (machine (rest_of_round lib ev (query, s)).1)
  unfolding rest_of_round stop_step serve_step skip_service
  rest_of_round-IsBalanced ev query s fresh b q =
      let s1 = (start_step lib s).1 in
      let b1 = start_step-IsBalanced s fresh b in
      let s2 = interrupted before_stop ev s1 in
      let b2 = interrupted-IsBalanced before_stop ev s1 b1 in
      let s3 = stop_step lib s2 in
      let b3 : IsBalanced (machine s3) =
        λ p. ground (arith, b2 p, stop_server-IsBalanced s2 b2 p) in
      let s4 = interrupted before_service ev s3 in
      let b4 = interrupted-IsBalanced before_service ev s3 b3 in
      let b5 = interrupted-IsBalanced before_service ev s2 b2 in
      ground (
        arith,
        b4 q,
        b5 q,
        serve_machine-IsBalanced lib s4.settings.config ev.is_set query (machine s4) b4 q,
      )
