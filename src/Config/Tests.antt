-- ===== src/Config/Tests.antt =====
-- Loading the settings at concrete inputs.
use modbus_server.Prelude.{◌≡◌, refl, none, replicate}
use modbus_server.Prelude.Int.{ℤ, pos}
use modbus_server.Clib.Fault.{ok}
use modbus_server.Samples.{documents, object, end, plain_config}
use modbus_server.Config.{ModbusConfig, config_load, set_defaults}
use modbus_server.Config.Device.{IsKept, config_load-IsKept}

abbrev no_file : ℤ × ModbusConfig
no_file = (pos 0, set_defaults plain_config)

without_file : config_load (documents (object end)) none plain_config ≡ ok no_file
unfolding config_load
without_file = refl

config_load-IsKept_example : IsKept (replicate 64 0) (set_defaults plain_config).serial_device
config_load-IsKept_example =
    config_load-IsKept (documents (object end)) none plain_config without_file refl
