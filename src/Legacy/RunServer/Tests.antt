-- ===== src/Legacy/RunServer/Tests.antt =====
-- `run_server` over the sample library: a client comes, and a signal ends the run.
use modbus_server.Prelude.{ℕ, ◌≡◌, refl, true, false, [], ◌∷◌}
use modbus_server.Prelude.Int.{pos}
use modbus_server.Machine.{new_tcp, new_rtu, tcp_listen, connect}
use modbus_server.JsonCommand.{state_running}
use modbus_server.Legacy.{Server, initial_backend}
use modbus_server.Legacy.Loop.Leaks.{machine}
use modbus_server.Legacy.Transport.Soundness.{IsClosed}
use modbus_server.Legacy.RunServer.{
  Pulse, open_all, open_listener, open_line, open_mapping, run_server,
}
use modbus_server.Legacy.RunServer.Ending.{IsOver, run_server-IsOver}
use modbus_server.Samples.{counting, counting_keeps, plain_config}

abbrev started : Server ℕ
unfolding initial_backend
started = record {
  settings = record { config = plain_config; mode = [] };
  state = state_running;
  running = true;
  backend = initial_backend;
  env = record { world = 20; log = [] };
  printed = [];
}

-- A round in which everything is ready, one in which nothing is, and one with a signal.
abbrev busy : Pulse
busy = record { ret = pos 1; is_set = λ _. true; signalled = false }

abbrev quiet : Pulse
quiet = record { ret = pos 0; is_set = λ _. false; signalled = false }

abbrev terminated : Pulse
terminated = record { ret = pos 1; is_set = λ _. true; signalled = true }

started-IsClosed : IsClosed (machine started)
unfolding initial_backend
started-IsClosed = record {
  listener = refl;
  server = refl;
  line = refl;
  released = record { descriptors = λ fd ne. refl; contexts = λ p. refl };
}

starts : (open_all counting started.settings.config (machine started)).0 ≡ true
unfolding open_all started open_listener new_tcp tcp_listen open_line new_rtu connect open_mapping
starts = refl

run_server-IsOver_example :
    IsOver counting (run_server counting [] (busy ∷ quiet ∷ terminated ∷ busy ∷ []) started)
run_server-IsOver_example =
    run_server-IsOver counting [] (busy ∷ quiet ∷ []) (busy ∷ []) terminated started counting_keeps
      started-IsClosed starts refl
