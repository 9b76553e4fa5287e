-- ===== src/Legacy.antt =====
-- json-modbus-server.c: the server in one file, over global variables. The variables that the
-- adapters of src/ keep in their structures are kept in the same records here.
pub mod Words
pub mod Loading
pub mod Command
pub mod Transport
pub mod Loop
pub mod RunServer
use modbus_server.Prelude.{ℕ, Bool, true, false, List, Option, none, some, replicate}
use modbus_server.Prelude.Int.{ℤ, pos, minus_one}
use modbus_server.Clib.Text.{codes, str_copy}
use modbus_server.Backend.{Backend, max_tcp_clients}
use modbus_server.Config.{ModbusConfig}
use modbus_server.JsonCommand.{ServerState, state_stopped, state_running, Reply}
use modbus_server.Machine.{Env}

-- The settings, with the buffer of 16 bytes for the mode.
pub record Settings : Type 0 where
  pub config : ModbusConfig
  pub mode : List ℕ

-- All global variables, the outside world, and the lines printed so far.
pub record Server (W : Type 0) : Type 0 where
  pub settings : Settings
  pub state : ServerState
  pub running : Bool
  pub backend : Backend
  pub env : Env W
  pub printed : List Reply

-- The initial values: what has no initialiser is zero, the slots of the clients too.
unfoldable pub initial_settings : Settings
initial_settings = record {
  config = record {
    enable_tcp = false;
    enable_rtu = false;
    tcp_port = pos 1502;
    serial_device = str_copy (replicate 64 0) (codes "/dev/ttyUSB0");
    baudrate = pos 9600;
    parity = b'N';
    data_bits = pos 8;
    stop_bits = pos 1;
    unit_id = pos 1;
    coils_start = pos 0;
    nb_coils = pos 0;
    input_bits_start = pos 0;
    nb_input_bits = pos 0;
    holding_regs_start = pos 0;
    nb_holding_regs = pos 0;
    input_regs_start = pos 0;
    nb_input_regs = pos 0;
  };
  mode = str_copy (replicate 16 0) (codes "tcp");
}

unfoldable pub initial_backend : Backend
initial_backend = record {
  ctx_tcp = none;
  ctx_rtu = none;
  mapping = none;
  tcp_listen_sock = minus_one;
  tcp_conn_socks = replicate max_tcp_clients (pos 0);
  tcp_conn_count = pos 0;
}

-- `signal_handler`, for the two signals that it is installed for.
unfoldable pub signal_handler : {W : Type 0} → Server W → Server W
signal_handler s = record s { state = state_stopped; running = false }
