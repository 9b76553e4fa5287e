-- ===== src/Legacy/Loop/Tests.antt =====
-- The loop of json-modbus-server.c over the sample library.
use modbus_server.Prelude.{ℕ, ◌≡◌, refl, true, false, [], ◌∷◌, none, some, arith, List, ◌++◌}
use modbus_server.Prelude.Int.{pos, minus_one}
use modbus_server.Clib.Fault.{ok}
use modbus_server.Clib.Text.{codes, until_nul, contains_str, str_copy, str_copy_n}
use modbus_server.Machine.{Machine, created, new_tcp, tcp_listen, new_rtu, connect}
use modbus_server.Foreign.Modbus.{eagain}
use modbus_server.JsonCommand.{state_stopped, state_running, ready}
use modbus_server.RtuAdapter.Contexts.{IsBalanced}
use modbus_server.Legacy.{Settings, Server, initial_settings, initial_backend}
use modbus_server.Legacy.Loading.{load_config, load_mode, load_serial, load_ranges}
use modbus_server.Config.{string_item, int_item, parse_reg_config}
use modbus_server.Legacy.Transport.Stopping.{exit_server, stop_server}
use modbus_server.Legacy.Transport.Starting.{
  start_tcp, listen_tcp, start_rtu, open_rtu, connect_rtu, start_mapping, start_machine,
  start_server,
}
use modbus_server.Legacy.Loop.{
  Events, before_service, exited, round, start_step, stop_step, serve_step, stdin_step,
  rest_of_round, loop, interrupted, skip_round, skip_service, main_server,
}
use modbus_server.Legacy.Loop.Watching.{AllBelow, watched, max_fd, watched-AllBelow}
use modbus_server.Legacy.Loop.Steps.{InStep}
use modbus_server.Legacy.Loop.Lifecycle.{
  IsQuiet, IsSettled, rest_of_round-state, loop-IsSettled, loop_stops,
}
use modbus_server.Legacy.Loop.Leaks.{machine, start_tcp_leaks, rest_of_round-IsBalanced}
use modbus_server.Foreign.Cjson.{Cjson}
use modbus_server.Config.{ModbusConfig}
use modbus_server.Legacy.Loop.Tables.{KeepsTables}
use modbus_server.Legacy.Loop.Held.{StartsWell}
use modbus_server.Legacy.Loop.Last.{IsHandled}
use modbus_server.Legacy.Loop.Signals.{main_server_interrupted}
use modbus_server.Legacy.Loop.Release.{main_server-IsReleased}
use modbus_server.Legacy.Transport.Soundness.{IsReleased}
use modbus_server.Samples.{
  Json, text, field, counting_keeps, documents, object, end, counting, plain_config, plain_backend,
  member, find_field,
}

abbrev server : Server ℕ
server = record {
  settings = record { config = plain_config; mode = [] };
  state = state_running;
  running = true;
  backend = plain_backend;
  env = record { world = 20; log = created 1 ∷ [] };
  printed = [];
}

-- The end of the input.
abbrev hang_up : Events
hang_up = record {
  ret = pos 1;
  errno = eagain;
  is_set = λ _. true;
  line = none;
  signals = λ _. false;
}

abbrev stopped : Server ℕ
stopped = record server { state = state_stopped; running = false }

calm : IsQuiet hang_up
calm now = refl

watched-AllBelow_example : AllBelow (max_fd counting server) (watched counting server)
watched-AllBelow_example = watched-AllBelow counting server

hangs_up : stdin_step (documents (object end)) hang_up server ≡ ok stopped
unfolding stdin_step
hangs_up = refl

stays_stopped : (rest_of_round counting hang_up ([], stopped)).1.state ≡ state_stopped
stays_stopped = (rest_of_round-state counting hang_up [] stopped calm).0

loop_stops_example :
    (query' : List ℕ) × (s' : Server ℕ) × (loop
        (documents (object end))
        counting
        (hang_up ∷ hang_up ∷ [])
        ([], server)
      ≡ ok (true, query', s'))
    × (s'.running ≡ false)
    × (s'.state ≡ state_stopped)
    × (s'.backend.mapping ≡ none)
loop_stops_example =
    loop_stops (documents (object end)) counting hang_up (hang_up ∷ []) [] server refl refl refl
      refl hangs_up refl

loop-IsSettled_example :
    InStep loop_stops_example.1 × IsSettled (documents (object end)) counting loop_stops_example.1
loop-IsSettled_example =
    loop-IsSettled (documents (object end)) counting (hang_up ∷ hang_up ∷ []) [] server
      loop_stops_example.2 (calm, (calm, tt)) refl (λ e. absurd (cc))

server-IsBalanced : IsBalanced (machine server)
server-IsBalanced p = ground arith

rest_of_round-IsBalanced_example :
    IsBalanced (machine (rest_of_round counting hang_up ([], server)).1)
rest_of_round-IsBalanced_example =
    rest_of_round-IsBalanced counting hang_up [] server (λ e. absurd (cc)) server-IsBalanced

start_tcp_leaks_example : ¬ (IsBalanced (start_tcp counting plain_config (machine server)).1)
start_tcp_leaks_example =
    start_tcp_leaks counting plain_config (machine server) server-IsBalanced refl refl refl

-- A program that is told nothing.
abbrev idle : Server ℕ
idle = record {
  settings = initial_settings;
  state = state_running;
  running = true;
  backend = initial_backend;
  env = record { world = 20; log = [] };
  printed = ready ∷ [];
}

-- The waiting fails.
abbrev broken : Events
broken = record {
  ret = minus_one;
  errno = eagain;
  is_set = λ _. false;
  line = none;
  signals = λ _. false;
}

idle_run :
    main_server (documents (object end)) counting (some (codes "{...}")) [] (broken ∷ []) 20
    ≡ ok (exited (exit_server counting idle))
unfolding interrupted skip_round skip_service main_server load_config load_mode load_serial
    load_ranges string_item int_item parse_reg_config until_nul member find_field loop round
idle_run = refl

-- A program that is to serve TCP, and whose input ends after a round.
abbrev tcp_documents : Cjson Json ℕ
tcp_documents = documents (object (field (codes "mode") (text (codes "tcp")) end))

abbrev tick : Events
tick = record {
  ret = pos 0;
  errno = eagain;
  is_set = λ _. false;
  line = none;
  signals = λ _. false;
}

tcp_settings :
    (settings : Settings) × (load_config tcp_documents (some (codes "{...}")) initial_settings
      ≡ ok (pos 0, settings))
unfolding load_config load_mode load_serial load_ranges string_item int_item parse_reg_config
    until_nul member find_field
tcp_settings = (_, refl)

counting_starts :
    (config : ModbusConfig) (m : Machine ℕ) → (start_machine counting config m).0 ≡ true
unfolding start_machine start_tcp listen_tcp start_rtu open_rtu connect_rtu start_mapping new_tcp
    tcp_listen new_rtu connect
counting_starts config m = ground arith

counting-KeepsTables : KeepsTables counting
counting-KeepsTables ctx query rc tables w has = has

tcp_StartsWell : StartsWell counting tcp_settings.0.config
unfolding tcp_settings load_config load_mode load_serial load_ranges string_item int_item
    parse_reg_config until_nul member find_field contains_str str_copy_n
tcp_StartsWell m c = counting_starts tcp_settings.0.config m

tcp_run :
    (s : Server ℕ) × (main_server tcp_documents counting
        (some (codes "{...}"))
        []
        (tick ∷ hang_up ∷ [])
        20
      ≡ ok (exited s))
unfolding interrupted skip_round skip_service main_server load_config load_mode load_serial
    load_ranges string_item int_item parse_reg_config until_nul member find_field loop round
    contains_str str_copy_n stdin_step rest_of_round start_step stop_step serve_step start_server
    stop_server start_machine start_tcp listen_tcp start_rtu start_mapping new_tcp tcp_listen
    initial_backend initial_settings str_copy
tcp_run = (_, refl)

main_server-IsReleased_example : IsReleased (machine tcp_run.0)
main_server-IsReleased_example =
    main_server-IsReleased tcp_documents counting counting_keeps counting-KeepsTables
      (some (codes "{...}")) [] (tick ∷ hang_up ∷ []) 20 tcp_settings.1 tcp_StartsWell tcp_run.1

-- A round in which a signal comes while the server is running, just before its service.
abbrev killed : Events
killed = record tick {
  ret = pos 1;
  signals = λ now. elim now [ before_service ↦ true | _ ↦ false ];
}

tick-IsHandled : IsHandled ℕ tcp_documents tick
unfolding stdin_step
tick-IsHandled s = (s, refl)

killed-IsHandled : IsHandled ℕ tcp_documents killed
unfolding stdin_step
killed-IsHandled s = (s, refl)

main_server_interrupted_example :
    (s : Server ℕ) × (main_server tcp_documents counting
        (some (codes "{...}"))
        []
        (tick ∷ [] ++ killed ∷ tick ∷ [])
        20
      ≡ ok (exited s))
    × (s.backend.mapping ≡ none)
    × IsReleased (machine s)
main_server_interrupted_example =
    main_server_interrupted tcp_documents counting (some (codes "{...}")) [] (tick ∷ []) (tick ∷ [])
      killed 20 counting_keeps counting-KeepsTables tcp_settings.1 tcp_StartsWell
      (tick-IsHandled, tt) killed-IsHandled (before_service, refl)
