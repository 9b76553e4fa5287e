-- ===== src/Foreign/Mapping.antt =====
-- `modbus_mapping_t` of modbus.h: the tables that the server shares with its clients.
use modbus_server.Prelude.{ℕ, ◌≡◌, List, length}
use modbus_server.Prelude.Int.{ℤ, pos}

pub record Mapping : Type 0 where
  pub nb_bits : ℤ
  pub start_bits : ℤ
  pub nb_input_bits : ℤ
  pub start_input_bits : ℤ
  pub nb_input_registers : ℤ
  pub start_input_registers : ℤ
  pub nb_registers : ℤ
  pub start_registers : ℤ
  pub tab_bits : List ℕ
  pub tab_input_bits : List ℕ
  pub tab_input_registers : List ℕ
  pub tab_registers : List ℕ

-- The register table has as many words as the mapping says.
abbrev pub IsSized : Mapping → Type 0
IsSized m = m.nb_registers ≡ pos (length m.tab_registers)
