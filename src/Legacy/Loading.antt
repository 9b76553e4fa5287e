-- ===== src/Legacy/Loading.antt =====
-- `load_config` of json-modbus-server.c.
pub mod Agreement
mod Tests
use modbus_server.Prelude.{
  ℕ, Bool, true, false, ◌&&◌, List, Option, none, some, take, if◌then◌else◌,
}
use modbus_server.Prelude.Int.{ℤ, pos, minus_one}
use modbus_server.Clib.Fault.{Result, ok, ◌>>=◌}
use modbus_server.Clib.Text.{codes, contains_str, until_nul, str_copy_n, first_byte}
use modbus_server.Foreign.Cjson.{Cjson}
use modbus_server.Config.{ModbusConfig, int_item, string_item, parse_reg_config}
use modbus_server.Legacy.{Settings}

module _ {Item Double : Type 0} (c : Cjson Item Double) where
  -- The mode is copied into its buffer of 16 bytes, and looked through there.
  unfoldable pub load_mode : Item → Settings → Result Settings
  load_mode root s = do
    mode ← string_item c root (codes "mode")
    ok (elim mode [
      | none ↦ s
      | some text ↦
          let buf = str_copy_n s.mode text 15 in
          record {
            config = record s.config {
              enable_tcp = contains_str (until_nul buf) (codes "tcp");
              enable_rtu = contains_str (until_nul buf) (codes "rtu");
            };
            mode = buf;
          }
    ])

  unfoldable pub load_serial_object : Item → ModbusConfig → Result ModbusConfig
  load_serial_object j g = do
    device ← string_item c j (codes "device")
    parity ← string_item c j (codes "parity")
    ok (record g {
      serial_device = elim device [
        | none ↦ g.serial_device
        | some s ↦ str_copy_n g.serial_device s 63
      ];
      baudrate = int_item c j (codes "baudrate") g.baudrate;
      parity = elim parity [ none ↦ g.parity | some s ↦ first_byte s ];
      data_bits = int_item c j (codes "data_bits") g.data_bits;
      stop_bits = int_item c j (codes "stop_bits") g.stop_bits;
    })

  unfoldable pub load_serial : Item → ModbusConfig → Result ModbusConfig
  load_serial root g = elim (c.object_item root (codes "serial")) [
    | none ↦ ok g
    | some j ↦ if c.is_object j then load_serial_object j g else ok g
  ]

  -- The four ranges; the same lines are written out for each of them.
  unfoldable pub load_ranges : Item → ModbusConfig → ModbusConfig
  load_ranges root g =
      let coils = parse_reg_config c root (codes "coils") (g.coils_start, g.nb_coils) in
      let input_bits =
        parse_reg_config c root (codes "input_bits") (g.input_bits_start, g.nb_input_bits) in
      let holding =
        parse_reg_config c root (codes "holding_registers")
          (g.holding_regs_start, g.nb_holding_regs) in
      let input_regs =
        parse_reg_config c root (codes "input_registers") (g.input_regs_start, g.nb_input_regs) in
      record g {
        coils_start = coils.0;
        nb_coils = coils.1;
        input_bits_start = input_bits.0;
        nb_input_bits = input_bits.1;
        holding_regs_start = holding.0;
        nb_holding_regs = holding.1;
        input_regs_start = input_regs.0;
        nb_input_regs = input_regs.1;
      }

  -- `file` is the contents of the file, if it can be opened.
  unfoldable pub load_config : Option (List ℕ) → Settings → Result (ℤ × Settings)
  load_config none s = ok (minus_one, s)
  load_config (some file) s = elim (c.parse (until_nul (take 2047 file))) [
    | none ↦ ok (minus_one, s)
    | some root ↦ do
      with_mode ← load_mode root s
      let with_ids = record with_mode.config {
        tcp_port = int_item c root (codes "tcp_port") with_mode.config.tcp_port;
        unit_id = int_item c root (codes "unit_id") with_mode.config.unit_id;
      }
      with_serial ← load_serial root with_ids
      ok (pos 0, record { config = load_ranges root with_serial; mode = with_mode.mode })
  ]
