-- ===== src/Legacy/RunServer/Serving.antt =====
-- The descriptors and contexts over the rounds of `run_server` of json-modbus-server.c.
use modbus_server.Prelude.{ℕ, inl, inr, List, [], ◌∷◌, Bool-cases, if_cases}
use modbus_server.Prelude.Int.{pos, ltb_ℤ}
use modbus_server.Foreign.Modbus.{Modbus, KeepsListening}
use modbus_server.Config.{ModbusConfig}
use modbus_server.Machine.{Machine}
use modbus_server.Legacy.{Server, signal_handler}
use modbus_server.Legacy.Loop.{is_running}
use modbus_server.Legacy.Loop.Leaks.{machine}
use modbus_server.Legacy.Transport.Soundness.{IsSound, accept_step-IsSound, clients_step-IsSound}
use modbus_server.Legacy.Transport.Serving.{accept_step, clients_step}
use modbus_server.Legacy.RunServer.{Pulse, pulse_step, pulse, pulses}
use modbus_server.Legacy.RunServer.Resources.{line_step-IsSound}

module _ {W : Type 0} (lib : Modbus W) where
  -- A server whose transports are sound, for its own settings.
  abbrev pub IsServing : Server W → Type 0
  IsServing s = IsSound s.settings.config (machine s)

module _ {W : Type 0} (lib : Modbus W) (keeps : KeepsListening lib) (config : ModbusConfig) where
  pulse_step-IsSound :
      (ev : Pulse) (st : List ℕ × Machine W)
      → IsSound config st.1
      → IsSound config (pulse_step lib config ev st).1
  unfolding pulse_step
  pulse_step-IsSound ev (query, m) s = elim (Bool-cases (ltb_ℤ (pos 0) ev.ret)) [
    | inr quiet ↦ rw quiet s
    | inl some_ready ↦
        let m1 = accept_step lib config.enable_tcp ev.is_set m in
        let s1 = accept_step-IsSound lib keeps config ev.is_set m s in
        rw some_ready (
          line_step-IsSound lib config ev.is_set
            (clients_step lib config.enable_tcp ev.is_set (query, m1))
            (clients_step-IsSound lib keeps config ev.is_set (query, m1) s1))
  ]

module _ {W : Type 0} (lib : Modbus W) (keeps : KeepsListening lib) where
  pub pulse-IsServing :
      (ev : Pulse) (st : List ℕ × Server W) → IsServing lib st.1 → IsServing lib (pulse lib ev st).1
  unfolding pulse signal_handler
  pulse-IsServing ev (query, s) sound =
      let r = pulse_step lib s.settings.config ev (query, machine s) in
      let sound' : IsSound s.settings.config r.1 =
        pulse_step-IsSound lib keeps s.settings.config ev (query, machine s) sound in
      let s' : Server W = record s { backend = r.1.backend; env = r.1.env } in
      if_cases (IsServing lib) ev.signalled (λ now. sound') (λ later. sound')

  pub pulses-IsServing :
      (evs : List Pulse) (st : List ℕ × Server W)
      → IsServing lib st.1
      → IsServing lib (pulses lib evs st).1
  unfolding pulses
  pulses-IsServing [] st sound = sound
  pulses-IsServing (ev ∷ evs) st sound =
      if_cases (λ (r : List ℕ × Server W). IsServing lib r.1) (is_running st.1.state)
        (λ up. pulses-IsServing evs (pulse lib ev st) (pulse-IsServing ev st sound)) (λ down. sound)
