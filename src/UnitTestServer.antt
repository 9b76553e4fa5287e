-- ===== src/UnitTestServer.antt =====
-- unit-test-server.c: the server that clients are tested against. The constants of unit-test.h,
-- which is not in the repository, are an argument. What it prints is not kept.
pub mod Requests
pub mod Running
pub mod Bytes
pub mod Special
pub mod Faultless
pub mod Turns
pub mod Releases
mod Tests
use modbus_server.Prelude.{ℕ, Bool, true, false, List, [], ◌∷◌, Option, none, some, if◌then◌else◌}
use modbus_server.Prelude.Int.{ℤ, pos}
use modbus_server.Clib.Text.{codes, str_eq}
use modbus_server.Machine.{Env, log_created, log_opened}

pub record UnitTest : Type 0 where
  pub server_id : ℤ
  pub invalid_server_id : ℤ
  pub bits_address : ℤ
  pub bits_nb : ℤ
  pub input_bits_address : ℤ
  pub input_bits_nb : ℤ
  pub input_bits_tab : List ℕ
  pub registers_address : ℤ
  pub registers_nb_max : ℤ
  pub registers_nb_special : ℤ
  pub registers_address_special : ℤ
  pub registers_address_invalid_tid_or_slave : ℤ
  pub registers_address_sleep_500_ms : ℤ
  pub registers_address_byte_sleep_5_ms : ℤ
  pub bits_address_invalid_request_length : ℤ
  pub input_registers_address : ℤ
  pub input_registers_nb : ℕ
  pub input_registers_tab : List ℕ

-- The calls of libmodbus and of the system that only this program makes.
pub record TestCalls (W : Type 0) : Type 0 where
  pub new_tcp_at : List ℕ → ℤ → W → Option ℕ × W
  pub new_tcp_pi : List ℕ → List ℕ → W → Option ℕ × W
  pub get_header_length : Option ℕ → W → ℤ
  pub set_bits_from_bytes : List ℕ → ℤ → ℤ → List ℕ → List ℕ
  pub tcp_pi_listen : Option ℕ → ℤ → W → ℤ × W
  -- The answer, and the listening socket, which the call gets by reference.
  pub tcp_pi_accept : Option ℕ → ℤ → W → ℤ × ℤ × W
  pub reply_exception : Option ℕ → List ℕ → ℕ → W → W
  pub send_raw_request : Option ℕ → List ℕ → ℤ → W → W
  pub usleep : ℕ → W → W
  -- One byte is sent to a socket.
  pub send : ℤ → ℕ → W → ℤ × W
  -- The bytes of the memory that is handed out, as it finds them.
  pub malloc : ℕ → W → Option (List ℕ) × W

-- `use_backend`
pub data Transport : Type 0 where
  tcp tcp_pi rtu : Transport

abbrev pub is_tcp : Transport → Bool
is_tcp tcp = true
is_tcp tcp_pi = false
is_tcp rtu = false

abbrev pub is_rtu : Transport → Bool
is_rtu rtu = true
is_rtu tcp = false
is_rtu tcp_pi = false

-- The name of the transport; a name that is not known is answered with the usage.
unfoldable pub transport_named : List ℕ → Option Transport
transport_named name =
    if str_eq name (codes "tcp")
    then some tcp
    else if str_eq name (codes "tcppi")
    then some tcp_pi
    else if str_eq name (codes "rtu")
    then some rtu
    else none

-- `argv`, with the program's name first.
unfoldable pub parse_backend : List (List ℕ) → Option Transport
parse_backend (_ ∷ name ∷ _) = transport_named name
parse_backend (_ ∷ []) = some tcp
parse_backend [] = some tcp

abbrev pub default_device : Transport → List ℕ
default_device tcp = codes "127.0.0.1"
default_device tcp_pi = codes "::1"
default_device rtu = codes "/dev/ttyUSB0"

unfoldable pub ip_or_device : List (List ℕ) → Transport → List ℕ
ip_or_device (_ ∷ _ ∷ device ∷ _) t = device
ip_or_device (_ ∷ _ ∷ []) t = default_device t
ip_or_device (_ ∷ []) t = default_device t
ip_or_device [] t = default_device t
