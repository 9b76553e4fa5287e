-- ===== src/Samples.antt =====
-- Concrete libraries for the examples: documents held in memory, and a libmodbus that hands out the
-- next number as a context or a descriptor.
use modbus_server.Prelude.{
  ℕ, ◌+◌, ◌%◌, ◌^◌, refl, true, false, List, [], ◌∷◌, Option, none, some, replicate, if◌then◌else◌,
}
use modbus_server.Prelude.Int.{ℤ, pos, minus_one}
use modbus_server.Clib.Text.{codes, str_eq}
use modbus_server.Foreign.Cjson.{Cjson, HasTexts}
use modbus_server.Foreign.Mapping.{Mapping}
use modbus_server.Foreign.Modbus.{Modbus, eagain, KeepsListening}
use modbus_server.Backend.{Backend}
use modbus_server.Config.{ModbusConfig}

mutual
  pub data Json : Type 0 where
    number : ℤ → Json
    text : List ℕ → Json
    object : Fields → Json

  pub data Fields : Type 0 where
    end : Fields
    field : List ℕ → Json → Fields → Fields

unfoldable pub find_field : List ℕ → Fields → Option Json
unfolding str_eq
find_field k end = none
find_field k (field j v fs) = if str_eq j k then some v else find_field k fs

unfoldable pub member : Json → List ℕ → Option Json
unfolding find_field
member (object fs) k = find_field k fs
member (number _) k = none
member (text _) k = none

-- Every text that is not empty parses to the document.
abbrev pub documents : Json → Cjson Json ℕ
documents root = record {
  parse = λ t. elim t [ [] ↦ none | _ ∷ _ ↦ some root ];
  object_item = member;
  object_item_case_sensitive = member;
  is_string = λ j. elim j [ text _ ↦ true | _ ↦ false ];
  is_number = λ j. elim j [ number _ ↦ true | _ ↦ false ];
  is_object = λ j. elim j [ object _ ↦ true | _ ↦ false ];
  is_array = λ _. false;
  valuestring = λ j. elim j [ text t ↦ some t | _ ↦ none ];
  valueint = λ j. elim j [ number n ↦ n | _ ↦ pos 0 ];
  valuedouble = λ _. 1077936128;
  child = λ _. none;
  next = λ _. none;
  float_bits = λ d. d % 2 ^ 32;
}

pub documents_texts : (root : Json) → HasTexts (documents root)
documents_texts root (text t) h = (t, refl)
documents_texts root (number n) h = absurd (cc)
documents_texts root (object fs) h = absurd (cc)

abbrev pub update_doc : ℕ → List ℕ → List ℕ → ℤ → Json
update_doc address datatype order value = object (
    field (codes "type") (text (codes "holding")) (
      field (codes "address") (number (pos address)) (
        field (codes "datatype") (text datatype)
          (field (codes "byte_order") (text order) (field (codes "value") (number value) end)))))

abbrev pub four_registers : Mapping
four_registers = record {
  nb_bits = pos 0;
  start_bits = pos 0;
  nb_input_bits = pos 0;
  start_input_bits = pos 0;
  nb_input_registers = pos 0;
  start_input_registers = pos 0;
  nb_registers = pos 4;
  start_registers = pos 0;
  tab_bits = [];
  tab_input_bits = [];
  tab_input_registers = [];
  tab_registers = replicate 4 7;
}

abbrev pub plain_backend : Backend
plain_backend = record {
  ctx_tcp = some 1;
  ctx_rtu = none;
  mapping = some four_registers;
  tcp_listen_sock = pos 3;
  tcp_conn_socks = pos 4 ∷ replicate 9 minus_one;
  tcp_conn_count = pos 1;
}

-- The world is the next number; no call fails.
abbrev pub counting : Modbus ℕ
counting = record {
  new_tcp = λ _ w. (some w, w + 1);
  new_rtu = λ _ _ _ _ _ w. (some w, w + 1);
  set_slave = λ _ _ w. w;
  set_debug = λ _ _ w. w;
  set_response_timeout = λ _ _ _ w. w;
  get_socket = λ _ _. pos 5;
  set_socket = λ _ _ w. w;
  connect = λ _ w. (pos 0, w);
  tcp_listen = λ _ _ w. (pos w, w + 1);
  tcp_accept = λ _ s w. (pos w, s, w + 1);
  receive = λ _ q w. (minus_one, q, eagain, w);
  reply = λ _ _ _ m w. (pos 1, m, w);
  close = λ _ w. w;
  free = λ _ w. w;
  mapping_new = λ _ _ _ _ _ _ _ _ w. (some four_registers, w);
  mapping_free = λ _ w. w;
  close_fd = λ _ w. w;
  get_flags = λ _ w. (pos 2, w);
  set_flags = λ _ _ w. (pos 0, w);
}

-- The same with a serial line that cannot be opened.
abbrev pub unplugged : Modbus ℕ
unplugged = record counting { connect = λ _ w. (minus_one, w) }

pub counting_keeps : KeepsListening counting
counting_keeps c s w = refl

abbrev pub plain_config : ModbusConfig
plain_config = record {
  enable_tcp = true;
  enable_rtu = true;
  tcp_port = pos 1502;
  serial_device = replicate 64 0;
  baudrate = pos 9600;
  parity = b'N';
  data_bits = pos 8;
  stop_bits = pos 1;
  unit_id = pos 1;
  coils_start = pos 0;
  nb_coils = pos 0;
  input_bits_start = pos 0;
  nb_input_bits = pos 0;
  holding_regs_start = pos 0;
  nb_holding_regs = pos 4;
  input_regs_start = pos 0;
  nb_input_regs = pos 0;
}
