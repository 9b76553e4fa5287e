-- ===== src/Legacy/Loop/Held.antt =====
-- What json-modbus-server.c holds between the steps of a round, where its starts
-- succeed.
use modbus_server.Prelude.{
  ◌≡◌, ◌≢◌, refl, sym, subst, Bool, true, not, ◌&&◌, Option, none, arith, Option-cases, if_cases,
}
use modbus_server.Foreign.Mapping.{Mapping}
use modbus_server.Foreign.Modbus.{Modbus}
use modbus_server.Config.{ModbusConfig}
use modbus_server.Machine.{Machine}
use modbus_server.Legacy.{Server, signal_handler}
use modbus_server.Legacy.Transport.Starting.{start_machine, start_server}
use modbus_server.Legacy.Transport.Stopping.{stop_server}
use modbus_server.Legacy.Transport.Soundness.{IsSound, IsClosed}
use modbus_server.Legacy.Transport.Cleanups.{start_machine-IsSound, stop_machine-IsClosed}
use modbus_server.Legacy.Loop.{
  Events, Moment, before_test, before_start, before_stop, before_service, interrupted, skip_round,
  is_running, is_some, start_step, stop_step,
}
use modbus_server.Legacy.Loop.Leaks.{machine}
use modbus_server.Legacy.Loop.Steps.{stop_server-none}
use modbus_server.Legacy.Loop.Tables.{start_machine-HasTables}
use modbus_server.Legacy.Loop.Input.{Untouched, interrupted-Untouched}

-- The tables are no part of what the transports hold.
pub retabled-IsSound :
    {W : Type 0} {config : ModbusConfig} (m : Machine W) (tables : Option Mapping)
    → IsSound config m
    → IsSound config (record m { backend = record m.backend { mapping = tables } })
retabled-IsSound m tables s = record {
  table = λ tcp. record { ten = (s.table tcp).ten; counted = (s.table tcp).counted };
  accounted = s.accounted;
  unopened = s.unopened;
  balanced = s.balanced;
  no_listener = s.no_listener;
  no_server = s.no_server;
  no_line = s.no_line;
}

retabled-IsClosed :
    {W : Type 0} (m : Machine W) (tables : Option Mapping)
    → IsClosed m
    → IsClosed (record m { backend = record m.backend { mapping = tables } })
retabled-IsClosed m tables c = record {
  listener = c.listener;
  server = c.server;
  line = c.line;
  released = record { descriptors = c.released.descriptors; contexts = c.released.contexts };
}

module _ {W : Type 0} (lib : Modbus W) where
  -- A start of transports of which nothing is open succeeds.
  abbrev pub StartsWell : ModbusConfig → Type 0
  StartsWell config = (m : Machine W) → IsClosed m → (start_machine lib config m).0 ≡ true

  -- Nothing is open while the server has no tables, and its transports are sound while it has.
  pub record IsHeld (s : Server W) : Type 0 where
    pub well : StartsWell s.settings.config
    pub closed : s.backend.mapping ≡ none → IsClosed (machine s)
    pub sound : s.backend.mapping ≢ none → IsSound s.settings.config (machine s)

  pub Untouched-IsHeld : {s s' : Server W} → Untouched s s' → IsHeld s → IsHeld s'
  Untouched-IsHeld {s} {s'} u h =
      let tables = s'.backend.mapping in
      let moved : machine s'
          ≡ record { backend = record s.backend { mapping = tables }; env = s.env } =
        cc in
      record {
        well = subst (λ x. StartsWell x.config) (sym u.settings) h.well;
        closed = λ gone.
            subst IsClosed (sym moved)
              (retabled-IsClosed (machine s) tables (h.closed (u.tables.0 gone)));
        sound = λ there.
            subst (λ x. IsSound x.config (machine s')) (sym u.settings)
              (subst (IsSound s.settings.config) (sym moved)
                (retabled-IsSound (machine s) tables (h.sound (λ gone. there (u.tables.1 gone)))));
      }

  pub interrupted-IsHeld :
      (now : Moment) (ev : Events) (s : Server W) → IsHeld s → IsHeld (interrupted now ev s)
  interrupted-IsHeld now ev s = Untouched-IsHeld (interrupted-Untouched now ev s)

  pub skip_round-IsHeld : (ev : Events) (s : Server W) → IsHeld s → IsHeld (skip_round ev s)
  unfolding skip_round
  skip_round-IsHeld ev s h =
      let s1 = interrupted before_start ev s in
      let s2 = interrupted before_stop ev s1 in
      interrupted-IsHeld before_test ev (interrupted before_service ev s2) (
        interrupted-IsHeld before_service ev s2
          (interrupted-IsHeld before_stop ev s1 (interrupted-IsHeld before_start ev s h)))

  -- What the start leaves in a round that goes on.
  abbrev pub IsStarted : Bool × Server W → Type 0
  IsStarted r =
      (r.0 ≡ true) × IsHeld r.1 × (is_running r.1.state ≡ true → r.1.backend.mapping ≢ none)

  start_server-IsStarted :
      (s : Server W)
      → StartsWell s.settings.config
      → IsClosed (machine s)
      → IsStarted (start_server lib s)
  unfolding start_server
  start_server-IsStarted s well c =
      let config = s.settings.config in
      let up = well (machine s) c in
      let has = start_machine-HasTables lib config (machine s) up in
      rw up (
        refl,
        record {
          well = well;
          closed = λ gone. absurd (has gone);
          sound = λ there. start_machine-IsSound lib config (machine s) c up;
        },
        λ runs. has,
      )

  pub start_step-IsStarted : (s : Server W) → IsHeld s → IsStarted (start_step lib s)
  unfolding start_step
  start_step-IsStarted s h =
      if_cases IsStarted (is_running s.state && not (is_some s.backend.mapping))
        (λ go.
          start_server-IsStarted s h.well
            (h.closed (ground (arith, Option-cases s.backend.mapping))))
        (λ stay. (refl, h, λ runs gone. ground arith))

  stop_server-IsHeld :
      (s : Server W) → s.backend.mapping ≢ none → IsHeld s → IsHeld (stop_server lib s)
  unfolding stop_server
  stop_server-IsHeld s there h =
      let config = s.settings.config in
      let c = stop_machine-IsClosed lib config (machine s) (h.sound there) in
      record {
        well = h.well;
        closed = λ gone. c;
        sound = λ still. absurd (still (stop_server-none lib s));
      }

  pub stop_step-IsHeld : (s : Server W) → IsHeld s → IsHeld (stop_step lib s)
  unfolding stop_step
  stop_step-IsHeld s h =
      if_cases IsHeld (not (is_running s.state) && is_some s.backend.mapping)
        (λ go. stop_server-IsHeld s (λ gone. ground arith) h) (λ stay. h)

  -- Whatever runs has tables.
  abbrev pub IsRunningWell : Server W → Type 0
  IsRunningWell s = is_running s.state ≡ true → s.backend.mapping ≢ none

  pub stop_step-IsRunningWell : (s : Server W) → IsRunningWell s → IsRunningWell (stop_step lib s)
  unfolding stop_step stop_server
  stop_step-IsRunningWell s well =
      if_cases IsRunningWell (not (is_running s.state) && is_some s.backend.mapping)
        (λ go runs. ground arith) (λ stay. well)

  pub interrupted-IsRunningWell :
      (now : Moment) (ev : Events) (s : Server W)
      → IsRunningWell s
      → IsRunningWell (interrupted now ev s)
  unfolding interrupted signal_handler
  interrupted-IsRunningWell now ev s well =
      if_cases IsRunningWell (ev.signals now) (λ come runs. absurd (cc)) (λ calm. well)
