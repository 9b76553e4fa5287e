-- ===== src/Config.antt =====
-- src/config/config.h and config_loader.c: the settings, and how they are read.
pub mod Device
mod Tests
use modbus_server.Prelude.{
  ℕ, Bool, true, false, ◌&&◌, List, Option, none, some, take, replicate, if◌then◌else◌,
}
use modbus_server.Prelude.Int.{ℤ, pos, minus_one}
use modbus_server.Clib.Fault.{Result, ok, ◌>>=◌, deref}
use modbus_server.Clib.Text.{codes, contains_str, until_nul, str_copy, str_copy_n, first_byte}
use modbus_server.Foreign.Cjson.{Cjson}

-- `serial_device` is the whole buffer of 64 bytes.
pub record ModbusConfig : Type 0 where
  pub enable_tcp : Bool
  pub enable_rtu : Bool
  pub tcp_port : ℤ
  pub serial_device : List ℕ
  pub baudrate : ℤ
  pub parity : ℕ
  pub data_bits : ℤ
  pub stop_bits : ℤ
  pub unit_id : ℤ
  pub coils_start : ℤ
  pub nb_coils : ℤ
  pub input_bits_start : ℤ
  pub nb_input_bits : ℤ
  pub holding_regs_start : ℤ
  pub nb_holding_regs : ℤ
  pub input_regs_start : ℤ
  pub nb_input_regs : ℤ

-- The first lines of `config_load`, on whatever the caller's structure held.
unfoldable pub set_defaults : ModbusConfig → ModbusConfig
set_defaults config = record config {
  enable_tcp = true;
  enable_rtu = false;
  tcp_port = pos 1502;
  unit_id = pos 1;
  coils_start = pos 0;
  nb_coils = pos 0;
  input_bits_start = pos 0;
  nb_input_bits = pos 0;
  holding_regs_start = pos 0;
  nb_holding_regs = pos 0;
  input_regs_start = pos 0;
  nb_input_regs = pos 0;
  serial_device = str_copy config.serial_device (codes "/dev/ttyUSB0");
  baudrate = pos 9600;
  parity = b'N';
  data_bits = pos 8;
  stop_bits = pos 1;
}

module _ {Item Double : Type 0} (c : Cjson Item Double) where
  -- `if ((j = cJSON_GetObjectItem(root, name)) && cJSON_IsNumber(j)) var = j->valueint`
  unfoldable pub int_item : Item → List ℕ → ℤ → ℤ
  int_item root name old = elim (c.object_item root name) [
    | none ↦ old
    | some j ↦ if c.is_number j then c.valueint j else old
  ]

  -- The text of a member that is a string.
  unfoldable pub string_item : Item → List ℕ → Result (Option (List ℕ))
  string_item root name = elim (c.object_item root name) [
    | none ↦ ok none
    | some j ↦ if c.is_string j then (deref (c.valuestring j) >>= λ s. ok (some s)) else ok none
  ]

  -- `PARSE_REG_CONFIG`: an object with two numbers, or the first two elements of an array.
  unfoldable pub array_range : Item → ℤ × ℤ → ℤ × ℤ
  array_range j old = elim (c.child j) [
    | none ↦ old
    | some first ↦ elim (c.next first) [
      | none ↦ old
      | some second ↦ (c.valueint first, c.valueint second)
    ]
  ]

  unfoldable pub object_range : Option Item → Option Item → ℤ × ℤ → ℤ × ℤ
  object_range (some s) (some n) old =
      if c.is_number s && c.is_number n then (c.valueint s, c.valueint n) else old
  object_range _ _ old = old

  unfoldable pub parse_reg_config : Item → List ℕ → ℤ × ℤ → ℤ × ℤ
  parse_reg_config root name old = elim (c.object_item root name) [
    | none ↦ old
    | some j ↦
        if c.is_object j
        then object_range (c.object_item j (codes "start_address"))
            (c.object_item j (codes "count")) old
        else if c.is_array j
        then array_range j old
        else old
  ]

  -- The mode names the transports.
  unfoldable pub parse_mode : Item → ModbusConfig → Result ModbusConfig
  parse_mode root config = do
    mode ← string_item root (codes "mode")
    ok (elim mode [
      | none ↦ config
      | some s ↦ record config {
        enable_tcp = contains_str s (codes "tcp");
        enable_rtu = contains_str s (codes "rtu");
      }
    ])

  -- The members of the object `serial`.
  unfoldable pub parse_serial_object : Item → ModbusConfig → Result ModbusConfig
  parse_serial_object j config = do
    device ← string_item j (codes "device")
    parity ← string_item j (codes "parity")
    ok (record config {
      serial_device = elim device [
        | none ↦ config.serial_device
        | some s ↦ str_copy_n config.serial_device s 63
      ];
      baudrate = int_item j (codes "baudrate") config.baudrate;
      parity = elim parity [ none ↦ config.parity | some s ↦ first_byte s ];
      data_bits = int_item j (codes "data_bits") config.data_bits;
      stop_bits = int_item j (codes "stop_bits") config.stop_bits;
    })

  unfoldable pub parse_serial : Item → ModbusConfig → Result ModbusConfig
  parse_serial root config = elim (c.object_item root (codes "serial")) [
    | none ↦ ok config
    | some j ↦ if c.is_object j then parse_serial_object j config else ok config
  ]

  unfoldable pub parse_ranges : Item → ModbusConfig → ModbusConfig
  parse_ranges root config =
      let coils = parse_reg_config root (codes "coils") (config.coils_start, config.nb_coils) in
      let input_bits =
        parse_reg_config root (codes "input_bits")
          (config.input_bits_start, config.nb_input_bits) in
      let holding =
        parse_reg_config root (codes "holding_registers")
          (config.holding_regs_start, config.nb_holding_regs) in
      let input_regs =
        parse_reg_config root (codes "input_registers")
          (config.input_regs_start, config.nb_input_regs) in
      record config {
        coils_start = coils.0;
        nb_coils = coils.1;
        input_bits_start = input_bits.0;
        nb_input_bits = input_bits.1;
        holding_regs_start = holding.0;
        nb_holding_regs = holding.1;
        input_regs_start = input_regs.0;
        nb_input_regs = input_regs.1;
      }

  -- What the parsed file says, over the defaults.
  unfoldable pub parse_config : Item → ModbusConfig → Result ModbusConfig
  parse_config root config = do
    with_mode ← parse_mode root config
    let with_ids = record with_mode {
      tcp_port = int_item root (codes "tcp_port") with_mode.tcp_port;
      unit_id = int_item root (codes "unit_id") with_mode.unit_id;
    }
    with_serial ← parse_serial root with_ids
    ok (parse_ranges root with_serial)

  -- `file` is the contents of the file, if it can be opened; 2047 bytes of it are read. The status,
  -- and the structure as the call leaves it.
  unfoldable pub config_load : Option (List ℕ) → ModbusConfig → Result (ℤ × ModbusConfig)
  config_load none config = ok (pos 0, set_defaults config)
  config_load (some file) config = elim (c.parse (until_nul (take 2047 file))) [
    | none ↦ ok (minus_one, set_defaults config)
    | some root ↦ parse_config root (set_defaults config) >>= λ loaded. ok (pos 0, loaded)
  ]
