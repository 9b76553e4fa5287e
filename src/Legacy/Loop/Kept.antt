-- ===== src/Legacy/Loop/Kept.antt =====
-- What json-modbus-server.c keeps of its tables, whatever the input writes: a property that holds of
-- no tables and of new ones, and that updates and answers to requests keep.
use modbus_server.Prelude.{
  ℕ, ◌≡◌, sym, subst, inl, inr, Bool, false, List, Option, none, some, arith, length, Bool-cases,
  Option-cases, if_cases,
}
use modbus_server.Prelude.Int.{pos}
use modbus_server.Clib.Fault.{ok, Holds}
use modbus_server.Foreign.Cjson.{Cjson}
use modbus_server.Foreign.Mapping.{Mapping}
use modbus_server.Foreign.Modbus.{Modbus}
use modbus_server.Config.{ModbusConfig}
use modbus_server.Machine.{Machine}
use modbus_server.JsonCommand.{state_stopped}
use modbus_server.Legacy.{Server, signal_handler}
use modbus_server.Legacy.Command.Changes.{Change, ignored, refused, written}
use modbus_server.Legacy.Command.Outcomes.{
  Outcome, stops, starts, starts_again, reports, ignores, updates, process_json-Outcome,
}
use modbus_server.Legacy.Transport.Starting.{
  listen_tcp, start_tcp, start_rtu, start_mapping, start_machine,
}
use modbus_server.Legacy.Loop.{
  Events, Moment, before_start, before_stop, before_service, before_test, interrupted, skip_service,
  skip_round, stdin_step,
}
use modbus_server.Legacy.Loop.Tables.{ReplyKeeps, open_rtu-mapping}

-- Such a property, which may depend on the settings.
pub record Kept {W : Type 0} (lib : Modbus W) : Type 1 where
  pub P : ModbusConfig → Option Mapping → Type 0
  pub absent : (config : ModbusConfig) → P config none
  pub update :
      (config : ModbusConfig) (m : Mapping) (r : List ℕ)
      → length r ≡ length m.tab_registers
      → P config (some m)
      → P config (some (record m { tab_registers = r }))
  pub make :
      (config : ModbusConfig) (w : W)
      → let made =
          lib.mapping_new config.coils_start config.nb_coils config.input_bits_start
            config.nb_input_bits config.holding_regs_start config.nb_holding_regs
            config.input_regs_start config.nb_input_regs w in
        P config made.0
  pub answer : (config : ModbusConfig) → ReplyKeeps (P config) lib

module _ {W : Type 0} {lib : Modbus W} (k : Kept lib) where
  -- The property holds of the tables of a server.
  abbrev pub IsKept : Server W → Type 0
  IsKept s = k.P s.settings.config s.backend.mapping

  Change-IsKept :
      {Item Double : Type 0} {c : Cjson Item Double} {root : Item} {s s' : Server W}
      → Change c root s s'
      → IsKept s
      → IsKept s'
  Change-IsKept (ignored nothing e) t = subst IsKept (sym e) t
  Change-IsKept (refused line why e) t = subst IsKept (sym e) t
  Change-IsKept {s} (written m r a text why e) t =
      let config = s.settings.config in
      subst IsKept (sym e) (k.update config m r why.same_length (subst (k.P config) why.here t))

  pub Outcome-IsKept :
      {Item Double : Type 0} {c : Cjson Item Double} {json : List ℕ} {s s' : Server W}
      → Outcome c json s s'
      → IsKept s
      → IsKept s'
  Outcome-IsKept (stops n e) t = subst IsKept (sym e) t
  Outcome-IsKept (starts n was e) t = subst IsKept (sym e) t
  Outcome-IsKept (starts_again n was e) t = subst IsKept (sym e) t
  Outcome-IsKept (reports n e) t = subst IsKept (sym e) t
  Outcome-IsKept (ignores bad e) t = subst IsKept (sym e) t
  Outcome-IsKept (updates root good plain u) t = Change-IsKept u t

  pub interrupted-IsKept :
      (now : Moment) (ev : Events) (s : Server W) → IsKept s → IsKept (interrupted now ev s)
  unfolding interrupted signal_handler
  interrupted-IsKept now ev s t = if_cases IsKept (ev.signals now) (λ come. t) (λ calm. t)

  pub skip_service-IsKept : (ev : Events) (s : Server W) → IsKept s → IsKept (skip_service ev s)
  unfolding skip_service
  skip_service-IsKept ev s t =
      let s1 = interrupted before_stop ev s in
      interrupted-IsKept before_service ev s1 (interrupted-IsKept before_stop ev s t)

  pub skip_round-IsKept : (ev : Events) (s : Server W) → IsKept s → IsKept (skip_round ev s)
  unfolding skip_round
  skip_round-IsKept ev s t =
      let s1 = interrupted before_start ev s in
      interrupted-IsKept before_test ev (skip_service ev s1)
        (skip_service-IsKept ev s1 (interrupted-IsKept before_start ev s t))

  -- The input keeps the property.
  pub stdin_step-IsKept :
      {Item Double : Type 0} (c : Cjson Item Double) (ev : Events) (s : Server W) {s' : Server W}
      → stdin_step c ev s ≡ ok s'
      → IsKept s
      → IsKept s'
  unfolding stdin_step
  stdin_step-IsKept c ev s {s'} e t = elim (Bool-cases (ev.is_set (pos 0))) [
    | inl go ↦ elim (Option-cases ev.line) [
      | inl eof ↦
          let same : s' ≡ record s { running = false; state = state_stopped } = ground arith in
          subst IsKept (sym same) t
      | inr (text, line) ↦
          Outcome-IsKept (process_json-Outcome c text s (rw (go, stdin_step, line) at e)) t
    ]
    | inr quiet ↦ subst (Holds IsKept) (rw (quiet, stdin_step) at e) t
  ]

module _ {W : Type 0} {lib : Modbus W} (k : Kept lib) (config : ModbusConfig) where
  abbrev Keeping : Bool × Machine W → Type 0
  Keeping r = k.P config r.1.backend.mapping

  start_tcp-mapping :
      (m : Machine W) → (start_tcp lib config m).1.backend.mapping ≡ m.backend.mapping
  unfolding start_tcp listen_tcp
  start_tcp-mapping m = ground arith

  start_rtu-mapping :
      (m : Machine W) → (start_rtu lib config m).1.backend.mapping ≡ m.backend.mapping
  unfolding start_rtu
  start_rtu-mapping m = ground (arith, open_rtu-mapping lib config m)

  start_mapping-Keeping : (m : Machine W) → Keeping (start_mapping lib config m)
  unfolding start_mapping
  start_mapping-Keeping m = k.make config m.env.world

  -- The start keeps the property, at whichever step it fails.
  pub start_machine-Keeping :
      (m : Machine W) → k.P config m.backend.mapping → Keeping (start_machine lib config m)
  unfolding start_machine
  start_machine-Keeping m t =
      let m1 = (start_tcp lib config m).1 in
      let t1 = subst (k.P config) (sym (start_tcp-mapping m)) t in
      let m2 = (start_rtu lib config m1).1 in
      let t2 = subst (k.P config) (sym (start_rtu-mapping m1)) t1 in
      if_cases Keeping (start_tcp lib config m).0
        (λ up.
          if_cases Keeping (start_rtu lib config m1).0 (λ up2. start_mapping-Keeping m2)
            (λ down. t2))
        (λ down. t1)
