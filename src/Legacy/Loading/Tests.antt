-- ===== src/Legacy/Loading/Tests.antt =====
-- The settings of both programs from one file.
use modbus_server.Prelude.{◌≡◌, refl, some, arith}
use modbus_server.Clib.Fault.{◌>>=◌}
use modbus_server.Clib.Text.{codes, str_eq, str_copy, until_nul, has_nul}
use modbus_server.Samples.{Json, documents, member, object, field, end, text, plain_config}
use modbus_server.Config.{config_load, set_defaults, string_item}
use modbus_server.Legacy.{initial_settings}
use modbus_server.Legacy.Loading.{load_config}
use modbus_server.Legacy.Loading.Agreement.{config_of, unset, load_config_same}

abbrev rtu_doc : Json
rtu_doc = object (field (codes "mode") (text (codes "tcp_rtu")) end)

initial-defaults : unset initial_settings.config ≡ unset (set_defaults plain_config)
unfolding initial_settings set_defaults str_copy
initial-defaults = refl

load_config_same_example :
    (load_config (documents rtu_doc) (some (codes "{...}")) initial_settings
      >>= config_of (documents rtu_doc))
    ≡ config_load (documents rtu_doc) (some (codes "{...}")) plain_config
unfolding until_nul has_nul member str_eq string_item
load_config_same_example =
    load_config_same (documents rtu_doc) (codes "{...}") initial_settings plain_config
      {root = rtu_doc} {mode = codes "tcp_rtu"} refl refl (omega arith) refl initial-defaults
