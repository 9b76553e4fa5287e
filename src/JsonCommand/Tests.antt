-- ===== src/JsonCommand/Tests.antt =====
-- Commands on a table of four registers, and the theorems at concrete inputs.
use modbus_server.Prelude.{
  ℕ, ◌≡◌, refl, inl, true, false, List, [], ◌∷◌, some, none, arith, length, subst,
}
use modbus_server.Prelude.Int.{pos, minus_one}
use modbus_server.Clib.Fault.{ok, fault, out_of_bounds}
use modbus_server.Clib.Text.{codes, str_eq, str_case_eq}
use modbus_server.ByteOrder.{order_be, parse_byte_order}
use modbus_server.ByteOrder.Layout.{Written}
use modbus_server.JsonCommand.{
  Session, state_stopped, state_running, updated, index_out_of_bounds_at, split_words,
  json_command_update_data, json_command_process, stopping,
}
use modbus_server.JsonCommand.Values.{written_words}
use modbus_server.JsonCommand.Update.{
  IsUpdate, update_data_writes, update_data_overruns, update_data_refuses, Keeps, update_data-Keeps,
}
use modbus_server.Foreign.Mapping.{IsSized}
use modbus_server.JsonCommand.Faults.{HasSize, Outlives, json_command_process-Outlives}
use modbus_server.JsonCommand.Control.{Step, process-Step}
use modbus_server.Samples.{
  Json, number, text, object, field, end, member, documents, documents_texts, update_doc,
  four_registers, plain_backend,
}

abbrev command : List ℕ
command = codes "{...}"

-- A 32-bit number in big-endian order.
abbrev wide_doc : ℕ → Json
wide_doc address = update_doc address (codes "uint32") (codes "be") (pos 70000)

wide_doc-IsUpdate :
    (address : ℕ)
    → IsUpdate
        (documents (wide_doc address))
        command
        (codes "uint32")
        (pos address)
        order_be
        (number (pos 70000))
unfolding member str_eq parse_byte_order str_case_eq
wide_doc-IsUpdate address = record {
  root = wide_doc address;
  type = text (codes "holding");
  addr = number (pos address);
  datatype = text (codes "uint32");
  order_it = some (text (codes "be"));
  parsed = refl;
  type_at = refl;
  addr_at = refl;
  datatype_at = refl;
  order_at = refl;
  value_at = refl;
  type_string = refl;
  addr_number = refl;
  datatype_string = refl;
  address = refl;
  text = refl;
  order = refl;
}

update_data_writes_example :
    (r : List ℕ) × (json_command_update_data (documents (wide_doc 1)) command (some plain_backend)
      ≡ ok (record {
        status = pos 0;
        backend =
            some (record plain_backend {
              mapping = some (record four_registers { tab_registers = r });
            });
        printed = updated (pos 1) (codes "uint32") ∷ [];
      }))
    × Written 1
        (written_words (documents (wide_doc 1)) (codes "uint32") (number (pos 70000)) order_be)
        (7 ∷ 7 ∷ 7 ∷ 7 ∷ [])
        r
unfolding str_eq split_words
update_data_writes_example =
    update_data_writes (documents (wide_doc 1)) 1 plain_backend four_registers (wide_doc-IsUpdate 1)
      refl refl (omega arith) (omega arith)

update_data_overruns_example :
    json_command_update_data (documents (wide_doc 3)) command (some plain_backend)
    ≡ fault out_of_bounds
unfolding str_eq
update_data_overruns_example =
    update_data_overruns (documents (wide_doc 3)) 3 plain_backend four_registers
      (wide_doc-IsUpdate 3) refl refl refl (inl refl) (omega arith)

update_data_refuses_example :
    json_command_update_data (documents (wide_doc 40000)) command (some plain_backend)
    ≡ ok (record {
      status = minus_one;
      backend = some plain_backend;
      printed = index_out_of_bounds_at (pos 40000) ∷ [];
    })
update_data_refuses_example =
    update_data_refuses (documents (wide_doc 40000)) plain_backend four_registers
      (wide_doc-IsUpdate 40000) refl refl (omega arith)

update_data-Keeps_example : Keeps (some plain_backend) (record {
  status = minus_one;
  backend = some plain_backend;
  printed = index_out_of_bounds_at (pos 40000) ∷ [];
})
update_data-Keeps_example =
    update_data-Keeps (documents (wide_doc 40000)) command (some plain_backend)
      update_data_refuses_example

abbrev session : Session
session = record {
  backend = some plain_backend;
  state = state_running;
  running = true;
  printed = [];
}

abbrev stop_doc : Json
stop_doc = object (field (codes "cmd") (text (codes "stop")) end)

stop_command :
    json_command_process (documents stop_doc) command session
    ≡ ok (record session { state = state_stopped; running = false; printed = stopping ∷ [] })
unfolding json_command_process member str_eq
stop_command = refl

process-Step_example :
    Step
      (documents stop_doc)
      command
      session
      (record session { state = state_stopped; running = false; printed = stopping ∷ [] })
process-Step_example = process-Step (documents stop_doc) command session stop_command

table_size : HasSize 4 (some plain_backend)
table_size m e =
    subst (λ o. elim o [ none ↦ Unit | some m' ↦ IsSized m' × (length m'.tab_registers ≡ 4) ]) e
      (refl, refl)

json_command_process-Outlives_example :
    Outlives
      (documents (wide_doc 1))
      command
      4
      (json_command_process (documents (wide_doc 1)) command session)
json_command_process-Outlives_example =
    json_command_process-Outlives (documents (wide_doc 1)) 4 command session
      (documents_texts (wide_doc 1)) table_size
