-- ===== src/Legacy/Loading/Agreement.antt =====
-- `load_config` of json-modbus-server.c beside `config_load` of src/config.
use modbus_server.Prelude.{
  ℕ, zero, suc, ◌-◌, ◌<◌, ◌≡◌, refl, ap, subst, ◌∙◌, false, List, [], ◌∷◌, ◌++◌, some, arith,
  length, take, drop, replicate,
}
use modbus_server.Prelude.Int.{ℤ, pos}
use modbus_server.Clib.Fault.{Result, ok, ◌>>=◌}
use modbus_server.Clib.Text.{codes, contains_str, str_copy_n, has_nul, until_nul}
use modbus_server.Foreign.Cjson.{Cjson}
use modbus_server.Config.{
  ModbusConfig, set_defaults, string_item, parse_mode, parse_serial_object, parse_serial,
  parse_ranges, parse_config, config_load, int_item,
}
use modbus_server.Legacy.{Settings}
use modbus_server.Legacy.Loading.{
  load_mode, load_serial_object, load_serial, load_ranges, load_config,
}

until_nul-append : (s rest : List ℕ) → has_nul s ≡ false → until_nul (s ++ 0 ∷ rest) ≡ s
unfolding until_nul has_nul
until_nul-append [] rest h = refl
until_nul-append (b ∷ s) rest h = ground (arith, until_nul-append s rest)

take-short : (n : ℕ) (s : List ℕ) → length s < n → take n s ≡ s
take-short zero s h = absurd (omega arith)
take-short (suc n) [] h = refl
take-short (suc n) (b ∷ s) h = ap (◌∷◌ b) (take-short n s (omega arith))

-- A short text is read back from the buffer for the mode.
mode_lem :
    (buf s : List ℕ) → length s < 15 → has_nul s ≡ false → until_nul (str_copy_n buf s 15) ≡ s
unfolding str_copy_n
mode_lem buf s short clean =
    let k = 14 - length s in
    rw (take-short 15 s short) (
      subst (λ n. until_nul (s ++ (replicate n 0 ++ drop 15 buf)) ≡ s) {x = suc k} (omega arith)
        (until_nul-append s (replicate k 0 ++ drop 15 buf) clean))

-- Both start from the same values but for the two flags, which the mode sets.
abbrev pub unset : ModbusConfig → ModbusConfig
unset g = record g { enable_tcp = false; enable_rtu = false }

module _ {Item Double : Type 0} (c : Cjson Item Double) where
  load_serial_same : (root : Item) (g : ModbusConfig) → load_serial c root g ≡ parse_serial c root g
  unfolding load_serial parse_serial load_serial_object parse_serial_object
  load_serial_same root g = refl

  load_ranges_same : (root : Item) (g : ModbusConfig) → load_ranges c root g ≡ parse_ranges c root g
  unfolding load_ranges parse_ranges
  load_ranges_same root g = refl

  abbrev with_flags : List ℕ → ModbusConfig → ModbusConfig
  with_flags mode g = record g {
    enable_tcp = contains_str mode (codes "tcp");
    enable_rtu = contains_str mode (codes "rtu");
  }

  load_mode_lem :
      (root : Item) (s : Settings) {mode : List ℕ}
      → string_item c root (codes "mode") ≡ ok (some mode)
      → length mode < 15
      → has_nul mode ≡ false
      → load_mode c root s
        ≡ ok (record { config = with_flags mode s.config; mode = str_copy_n s.mode mode 15 })
  unfolding load_mode
  load_mode_lem root s {mode} there short clean = rw (there, mode_lem s.mode mode short clean) refl

  parse_mode_lem :
      (root : Item) (g : ModbusConfig) {mode : List ℕ}
      → string_item c root (codes "mode") ≡ ok (some mode)
      → parse_mode c root g ≡ ok (with_flags mode g)
  unfolding parse_mode
  parse_mode_lem root g there = rw there refl

  abbrev pub config_of : ℤ × Settings → Result (ℤ × ModbusConfig)
  config_of (status, s) = ok (status, s.config)

  abbrev with_ids : Item → ModbusConfig → ModbusConfig
  with_ids root g = record g {
    tcp_port = int_item c root (codes "tcp_port") g.tcp_port;
    unit_id = int_item c root (codes "unit_id") g.unit_id;
  }

  -- What follows the mode, in both programs.
  abbrev load_tail : Item → List ℕ → ModbusConfig → Result (ℤ × ModbusConfig)
  load_tail root mode g =
      load_serial c root (with_ids root g)
      >>= (λ w. ok (pos 0, settings_of (load_ranges c root w) mode))
      >>= config_of
    where
      settings_of : ModbusConfig → List ℕ → Settings
      settings_of w mode = record { config = w; mode = mode }

  abbrev parse_tail : Item → ModbusConfig → Result (ℤ × ModbusConfig)
  parse_tail root g =
      parse_serial c root (with_ids root g)
      >>= (λ w. ok (parse_ranges c root w))
      >>= (λ loaded. ok (pos 0, loaded))

  tail_same :
      (root : Item) (mode : List ℕ) (g : ModbusConfig) → load_tail root mode g ≡ parse_tail root g
  tail_same root mode g =
      rw (load_serial_same root (with_ids root g)) (grind (arith, load_ranges_same))

  -- A file that parses and has a mode of fewer than 15 bytes without a zero gives load_config and
  -- config_load the same answer and settings, or the same fault, where the variables agree with the
  -- defaults in all but the two flags.
  pub load_config_same :
      (file : List ℕ) (s : Settings) (config : ModbusConfig) {root : Item} {mode : List ℕ}
      → c.parse (until_nul (take 2047 file)) ≡ some root
      → string_item c root (codes "mode") ≡ ok (some mode)
      → length mode < 15
      → has_nul mode ≡ false
      → unset s.config ≡ unset (set_defaults config)
      → (load_config c (some file) s >>= config_of) ≡ config_load c (some file) config
  unfolding load_config config_load parse_config
  load_config_same file s config {root} {mode} good there short clean same =
      rw
        (
          good,
          load_config,
          config_load,
          load_mode_lem root s there short clean,
          parse_mode_lem root (set_defaults config) there,
        )
        (ap (load_tail root (str_copy_n s.mode mode 15)) (ap (with_flags mode) same)
          ∙ tail_same root (str_copy_n s.mode mode 15) (with_flags mode (set_defaults config)))
