-- ===== src/Main/Tests.antt =====
-- The `main` of src/main.c over a controller that holds the settings and answers 0.
use modbus_server.Prelude.{ℕ, ◌≡◌, ◌↔◌, ◌+◌, true, false, List, [], ◌∷◌, some}
use modbus_server.Prelude.Int.{pos}
use modbus_server.Clib.Text.{codes}
use modbus_server.JsonCommand.{state_stopped}
use modbus_server.Main.{Controller, Program, exit_success, on_linux, main}
use modbus_server.Main.Calls.{ran_well, ups, downs, creations, destructions, main-Balanced}
use modbus_server.Samples.{plain_config, plain_backend}

abbrev controller : Controller
controller = record {
  config = plain_config;
  backend = some plain_backend;
  state = state_stopped;
  running = false;
}

abbrev program : Program ℕ
program = on_linux (record {
  platform_up = λ w. (pos 0, w);
  platform_down = λ w. w;
  server_controller_create = λ file w. (some controller, w + 1);
  server_controller_destroy = λ c w. w + 1;
  server_controller_run = λ c w. (pos 0, record c { state = state_stopped }, w);
})

abbrev arguments : List (List ℕ)
arguments = codes "modbus_server" ∷ codes "plant.json" ∷ []

main-Balanced_example :
    (let r = main program arguments 0 in
      ((r.0 ≡ exit_success) ↔ (ran_well r.1.calls ≡ true))
      × (ups r.1.calls ≡ downs r.1.calls)
      × (creations r.1.calls ≡ destructions r.1.calls))
main-Balanced_example = main-Balanced program arguments 0
