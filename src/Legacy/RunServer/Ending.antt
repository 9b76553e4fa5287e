-- ===== src/Legacy/RunServer/Ending.antt =====
-- How a run of `run_server` of json-modbus-server.c ends: the signal, and the cleanup.
use modbus_server.Prelude.{ℕ, ◌≡◌, refl, true, List, [], ◌∷◌, ◌++◌, arith, if_cases}
use modbus_server.Prelude.Int.{minus_one, eqb_ℤ_iff}
use modbus_server.Foreign.Modbus.{Modbus, KeepsListening}
use modbus_server.Config.{ModbusConfig}
use modbus_server.JsonCommand.{state_stopped, server_ready}
use modbus_server.Machine.{Machine, free_ctx, close_fd}
use modbus_server.TcpAdapter.Slots.{in_slots-active}
use modbus_server.TcpAdapter.Release.{close_clients_log}
use modbus_server.Legacy.{Server, signal_handler}
use modbus_server.Legacy.Loop.{is_running}
use modbus_server.Legacy.Loop.Leaks.{machine}
use modbus_server.Legacy.Loop.Contexts.{close_clients-quiet}
use modbus_server.Legacy.Transport.Soundness.{IsSound, IsReleased, IsClosed}
use modbus_server.Legacy.RunServer.{
  Pulse, Ended, returned, open_all, pulse, pulses, close_all, serve, run_server,
}
use modbus_server.Legacy.RunServer.Resources.{open_all-IsSound}
use modbus_server.Legacy.RunServer.Serving.{IsServing, pulses-IsServing}

module _ {W : Type 0} (lib : Modbus W) where
  -- The cleanup of sound transports gives back whatever they hold.
  close_all-IsReleased :
      (config : ModbusConfig) (m : Machine W)
      → IsSound config m
      → IsReleased (close_all lib config m)
  unfolding close_all close_fd free_ctx
  close_all-IsReleased config m s = record {
    descriptors = λ fd ne. ground (
      arith,
      s.accounted fd ne,
      s.no_listener,
      s.unopened fd ne,
      close_clients_log lib fd m.backend.tcp_conn_socks m.env ne,
      in_slots-active fd m.backend.tcp_conn_socks ne,
      eqb_ℤ_iff m.backend.tcp_listen_sock minus_one,
      eqb_ℤ_iff m.backend.tcp_listen_sock fd,
    );
    contexts = λ p. ground (
      arith,
      s.balanced p,
      s.no_server,
      s.no_line,
      close_clients-quiet lib m.backend.tcp_conn_socks m.env p,
    );
  }

  pulse-stops :
      (ev : Pulse) (st : List ℕ × Server W)
      → ev.signalled ≡ true
      → (pulse lib ev st).1.state ≡ state_stopped
  unfolding pulse signal_handler
  pulse-stops ev st now = ground arith

  pulses-stopped :
      (evs : List Pulse) (st : List ℕ × Server W)
      → st.1.state ≡ state_stopped
      → (pulses lib evs st).1.state ≡ state_stopped
  unfolding pulses
  pulses-stopped [] st down = down
  pulses-stopped (ev ∷ evs) st down = ground arith

  -- A signal in one of the rounds ends the loop.
  pulses-stop :
      (before after : List Pulse) (ev : Pulse) (st : List ℕ × Server W)
      → ev.signalled ≡ true
      → (pulses lib (before ++ ev ∷ after) st).1.state ≡ state_stopped
  unfolding pulses
  pulses-stop [] after ev st now =
      if_cases (λ (r : List ℕ × Server W). r.1.state ≡ state_stopped) (is_running st.1.state)
        (λ up. pulses-stopped after (pulse lib ev st) (pulse-stops ev st now))
        (λ down. ground arith)
  pulses-stop (e ∷ before) after ev st now =
      if_cases (λ (r : List ℕ × Server W). r.1.state ≡ state_stopped) (is_running st.1.state)
        (λ up. pulses-stop before after ev (pulse lib e st) now) (λ down. ground arith)

  -- What a run leaves that returns.
  abbrev pub IsOver : Ended W → Type 0
  IsOver r =
      (s' : Server W) × (r ≡ returned s') × (s'.state ≡ state_stopped) × IsReleased (machine s')

  serve-IsOver :
      (query : List ℕ) (before after : List Pulse) (ev : Pulse) (s : Server W)
      → KeepsListening lib
      → IsServing lib s
      → ev.signalled ≡ true
      → IsOver (serve lib query (before ++ ev ∷ after) s)
  unfolding serve
  serve-IsOver query before after ev s keeps sound now =
      let s2 = (pulses lib (before ++ ev ∷ after) (query, s)).1 in
      let m = close_all lib s2.settings.config (machine s2) in
      let down = pulses-stop before after ev (query, s) now in
      let sound2 = pulses-IsServing lib keeps (before ++ ev ∷ after) (query, s) sound in
      (
        record s2 { backend = m.backend; env = m.env },
        rw down refl,
        down,
        close_all-IsReleased s2.settings.config (machine s2) sound2,
      )

  -- Where accepting a client leaves the number of the listening socket alone, nothing is open and
  -- nothing was lost, the start succeeds, and a signal comes with one of the rounds: run_server of
  -- json-modbus-server.c returns, stopped, and every descriptor other than -1 has been closed as
  -- often as it was handed out and every context freed as often as it was allocated.
  pub run_server-IsOver :
      (query : List ℕ) (before after : List Pulse) (ev : Pulse) (s : Server W)
      → KeepsListening lib
      → IsClosed (machine s)
      → (open_all lib s.settings.config (machine s)).0 ≡ true
      → ev.signalled ≡ true
      → IsOver (run_server lib query (before ++ ev ∷ after) s)
  unfolding run_server
  run_server-IsOver query before after ev s keeps c up now =
      let config = s.settings.config in
      let m = (open_all lib config (machine s)).1 in
      let sound = open_all-IsSound lib config (machine s) c up in
      rw up (
        serve-IsOver query before after ev
          (record s {
            backend = m.backend;
            env = m.env;
            printed =
                s.printed ++ server_ready config.enable_tcp config.enable_rtu config.unit_id ∷ [];
          })
          keeps sound now)
