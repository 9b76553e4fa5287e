-- ===== src/ServerController/Tests.antt =====
-- The two versions of the serial adapter at concrete inputs.
use modbus_server.Prelude.{ℕ, ◌≡◌, true, [], ◌∷◌, some}
use modbus_server.Prelude.Int.{minus_one}
use modbus_server.Foreign.Modbus.{Modbus, other}
use modbus_server.Backend.{Backend}
use modbus_server.Machine.{Env, created, receive}
use modbus_server.RtuAdapter
use modbus_server.ServerController.{rtu_adapter_handle}
use modbus_server.ServerController.Versions.{released_if, handle_same_or_released}
use modbus_server.Samples.{counting, plain_backend}

abbrev serial_backend : Backend
serial_backend = record plain_backend { ctx_rtu = some 2 }

abbrev serial_env : Env ℕ
serial_env = record { world = 20; log = created 2 ∷ [] }

-- A line that is gone.
abbrev unplugged_now : Modbus ℕ
unplugged_now = record counting { receive = λ _ q w. (minus_one, q, other 5, w) }

handle_same_or_released_example :
    rtu_adapter_handle unplugged_now (some serial_backend) [] serial_env
    ≡ released_if unplugged_now true
        (RtuAdapter.rtu_adapter_handle unplugged_now (some serial_backend) [] serial_env)
unfolding receive
handle_same_or_released_example =
    handle_same_or_released unplugged_now (some serial_backend) [] serial_env
