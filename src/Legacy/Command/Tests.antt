-- ===== src/Legacy/Command/Tests.antt =====
-- The commands of json-modbus-server.c at concrete inputs: four holding registers from 40000 on.
use modbus_server.Prelude.{ℕ, ◌+◌, ◌≡◌, refl, true, false, [], ◌∷◌, none, some, inl, arith, List}
use modbus_server.Prelude.Int.{pos}
use modbus_server.Clib.Fault.{ok, fault, null_pointer, out_of_bounds, ◌>>=◌}
use modbus_server.Clib.Text.{codes, str_eq, str_case_eq}
use modbus_server.ByteOrder.{order_be, parse_byte_order}
use modbus_server.ByteOrder.Layout.{Written}
use modbus_server.JsonCommand.{
  json_command_process, split_words, address_out_of_range, state_stopped, state_running, stopping,
}
use modbus_server.JsonCommand.Values.{written_words}
use modbus_server.Samples.{
  Json, number, text, object, field, end, member, documents, documents_texts, update_doc,
  four_registers, plain_backend, plain_config,
}
use modbus_server.Legacy.{Server}
use modbus_server.Legacy.Command.{
  update_command, update_address, update_checked, is_out_of_range, process_json, run_cmd,
}
use modbus_server.Legacy.Command.Sessions.{session}
use modbus_server.Legacy.Command.Agreement.{process_json_same}
use modbus_server.Legacy.Command.Faults.{IsServing, process_json-Outlives}
use modbus_server.JsonCommand.Faults.{Outlives}
use modbus_server.Legacy.Command.Outcomes.{Outcome, process_json-Outcome}
use modbus_server.Legacy.Command.Updates.{
  IsLine, IsAt, after_write, process_json_before_start, process_json_writes, process_json_overruns,
}

abbrev line : List ℕ
line = codes "{...}"

abbrev wide_doc : ℕ → Json
wide_doc address = update_doc address (codes "uint32") (codes "be") (pos 70000)

wide_doc-IsLine :
    (address : ℕ)
    → IsLine
        (documents (wide_doc address))
        line
        (codes "uint32")
        (pos address)
        order_be
        (number (pos 70000))
unfolding member str_eq parse_byte_order str_case_eq
wide_doc-IsLine address = record {
  update = record {
    root = wide_doc address;
    type = text (codes "holding");
    addr = number (pos address);
    datatype = text (codes "uint32");
    order_it = some (text (codes "be"));
    parsed = refl;
    type_at = refl;
    addr_at = refl;
    datatype_at = refl;
    order_at = refl;
    value_at = refl;
    type_string = refl;
    addr_number = refl;
    datatype_string = refl;
    address = refl;
    text = refl;
    order = refl;
  };
  no_cmd = refl;
}

abbrev server : Server ℕ
server = record {
  settings = record { config = record plain_config { holding_regs_start = pos 40000 }; mode = [] };
  state = state_running;
  running = true;
  backend = plain_backend;
  env = record { world = 20; log = [] };
  printed = [];
}

second : IsAt server 1 (pos 40001)
second = record {
  first = 40000;
  count = 4;
  starts = refl;
  counts = refl;
  inside = omega arith;
  fits_int = omega arith;
  address = refl;
}

last : IsAt server 3 (pos 40003)
last = record {
  first = 40000;
  count = 4;
  starts = refl;
  counts = refl;
  inside = omega arith;
  fits_int = omega arith;
  address = refl;
}

abbrev not_started : Server ℕ
not_started = record server { backend = record plain_backend { mapping = none } }

process_json_before_start_example :
    process_json (documents (wide_doc 40001)) line not_started ≡ fault null_pointer
process_json_before_start_example =
    process_json_before_start (documents (wide_doc 40001)) 1 not_started (wide_doc-IsLine 40001)
      (record {
        first = 40000;
        count = 4;
        starts = refl;
        counts = refl;
        inside = omega arith;
        fits_int = omega arith;
        address = refl;
      })
      refl

process_json_writes_example :
    (r : List ℕ) × (process_json (documents (wide_doc 40001)) line server
      ≡ ok (
          after_write
            (documents (wide_doc 40001))
            server
            four_registers
            r
            (pos 40001)
            (codes "uint32")))
    × Written 1
        (written_words (documents (wide_doc 40001)) (codes "uint32") (number (pos 70000)) order_be)
        (7 ∷ 7 ∷ 7 ∷ 7 ∷ [])
        r
unfolding str_eq split_words
process_json_writes_example =
    process_json_writes (documents (wide_doc 40001)) 1 server four_registers (wide_doc-IsLine 40001)
      second refl refl (omega arith) (omega arith)

process_json_overruns_example :
    process_json (documents (wide_doc 40003)) line server ≡ fault out_of_bounds
unfolding str_eq
process_json_overruns_example =
    process_json_overruns (documents (wide_doc 40003)) 3 server four_registers
      (wide_doc-IsLine 40003) last refl refl refl (inl refl) (omega arith)

abbrev stop_doc : Json
stop_doc = object (field (codes "cmd") (text (codes "stop")) end)

abbrev after_stop : Server ℕ
after_stop = record server { state = state_stopped; running = false; printed = stopping ∷ [] }

stop_line : process_json (documents stop_doc) line server ≡ ok after_stop
unfolding process_json run_cmd member str_eq
stop_line = refl

-- An update of an address that the settings do not name.
abbrev after_refusal : Server ℕ
after_refusal = record server { printed = address_out_of_range (pos 50) ∷ [] }

refused_line : process_json (documents (wide_doc 50)) line server ≡ ok after_refusal
unfolding process_json update_command update_address update_checked is_out_of_range member str_eq
refused_line = refl

process_json-Outcome_example : Outcome (documents (wide_doc 50)) line server after_refusal
process_json-Outcome_example =
    process_json-Outcome (documents (wide_doc 50)) line server refused_line

-- The addresses of the four registers are their indices.
abbrev plain_server : Server ℕ
plain_server = record server { settings = record { config = plain_config; mode = [] } }

process_json_same_example :
    (process_json (documents (wide_doc 2)) line plain_server >>= λ s'. ok (session s'))
    ≡ json_command_process (documents (wide_doc 2)) line (session plain_server)
process_json_same_example =
    process_json_same (documents (wide_doc 2)) four_registers line plain_server (record {
      count = 4;
      here = refl;
      starts = refl;
      counts = refl;
      sized = refl;
      fits_int = omega arith;
    })

-- An update of the second register ends; one of the last register writes past the end.
server-IsServing : IsServing server four_registers
server-IsServing = record {
  first = 40000;
  here = refl;
  starts = refl;
  counts = refl;
  sized = refl;
  fits_int = omega arith;
}

process_json-Outlives_example :
    Outlives
      (documents (wide_doc 40001))
      line
      (40000 + 4)
      (process_json (documents (wide_doc 40001)) line server)
unfolding server-IsServing
process_json-Outlives_example =
    process_json-Outlives (documents (wide_doc 40001)) four_registers line server
      (documents_texts (wide_doc 40001)) server-IsServing
