-- ===== src/RtuAdapter/Tests.antt =====
-- The serial adapter over the sample libraries, and the theorems at concrete inputs.
use modbus_server.Prelude.{ℕ, ◌≡◌, refl, [], ◌∷◌, arith}
use modbus_server.Machine.{Machine, created, freed, new_rtu, connect, free_ctx}
use modbus_server.RtuAdapter.{rtu_adapter_init, reconnect_rtu, connect_rtu, configure_rtu}
use modbus_server.RtuAdapter.Contexts.{
  Connected, rtu_init-Connected, IsBalanced, reconnect_rtu-IsBalanced,
}
use modbus_server.Platform.{platform_set_nonblocking}
use modbus_server.Samples.{counting, unplugged, plain_config, plain_backend}

abbrev plain_machine : Machine ℕ
plain_machine = record {
  backend = plain_backend;
  env = record { world = 20; log = created 1 ∷ [] };
}

-- A line that cannot be opened leaves no context behind.
unplugged_init :
    (rtu_adapter_init unplugged plain_config plain_machine).1.env.log
    ≡ freed 20 ∷ created 20 ∷ created 1 ∷ []
unfolding rtu_adapter_init connect_rtu configure_rtu new_rtu connect free_ctx
    platform_set_nonblocking
unplugged_init = refl

rtu_init-Connected_example :
    Connected unplugged plain_machine (rtu_adapter_init unplugged plain_config plain_machine)
rtu_init-Connected_example = rtu_init-Connected unplugged plain_config plain_machine

plain_machine-IsBalanced : IsBalanced plain_machine
plain_machine-IsBalanced p = ground arith

reconnect_rtu-IsBalanced_example : IsBalanced (reconnect_rtu counting plain_config plain_machine).1
reconnect_rtu-IsBalanced_example =
    reconnect_rtu-IsBalanced counting plain_config plain_machine plain_machine-IsBalanced
