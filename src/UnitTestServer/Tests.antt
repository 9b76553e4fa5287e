-- ===== src/UnitTestServer/Tests.antt =====
-- unit-test-server.c over the sample library, with some constants.
use modbus_server.Prelude.{
  ap, sym, ◌∙◌, ◌⊎◌, inl, none, ℕ, ◌+◌, ◌≡◌, refl, List, [], ◌∷◌, some, arith, length, replicate,
  length-replicate,
}
use mathlib.Core.Option.{some-injective}
use modbus_server.Prelude.Int.{pos_part, pos, minus_one}
use modbus_server.Clib.Fault.{fault, null_pointer, Holds}
use modbus_server.Clib.Text.{codes}
use modbus_server.Machine.{Env}
use modbus_server.UnitTestServer.{UnitTest, TestCalls}
use modbus_server.UnitTestServer.Running.{unit_test_main}
use modbus_server.UnitTestServer.Special.{KeepsLength}
use modbus_server.UnitTestServer.Faultless.{einval, IsServed, IsStarved, Runs, unit_test_main-Runs}
use modbus_server.Foreign.Modbus.{Modbus, eagain}
use modbus_server.UnitTestServer.Releases.{IsReleased, unit_test_main-IsReleased}
use modbus_server.Samples.{counting, four_registers}

abbrev numbers : UnitTest
numbers = record {
  server_id = pos 17;
  invalid_server_id = pos 18;
  bits_address = pos 304;
  bits_nb = pos 37;
  input_bits_address = pos 452;
  input_bits_nb = pos 22;
  input_bits_tab = [];
  registers_address = pos 352;
  registers_nb_max = pos 32;
  registers_nb_special = pos 2;
  registers_address_special = pos 368;
  registers_address_invalid_tid_or_slave = pos 369;
  registers_address_sleep_500_ms = pos 370;
  registers_address_byte_sleep_5_ms = pos 371;
  bits_address_invalid_request_length = pos 305;
  input_registers_address = pos 264;
  input_registers_nb = 0;
  input_registers_tab = [];
}

abbrev plain_calls : TestCalls ℕ
plain_calls = record {
  new_tcp_at = λ _ _ w. (some w, w + 1);
  new_tcp_pi = λ _ _ w. (some w, w + 1);
  get_header_length = λ _ _. pos 7;
  set_bits_from_bytes = λ bits _ _ _. bits;
  tcp_pi_listen = λ _ _ w. (pos w, w + 1);
  tcp_pi_accept = λ _ s w. (pos w, s, w + 1);
  reply_exception = λ _ _ _ w. w;
  send_raw_request = λ _ _ _ w. w;
  usleep = λ _ w. w;
  send = λ _ _ w. (pos 1, w);
  malloc = λ n w. (some (replicate n 0), w);
}

-- A read of four holding registers from 352 on.
abbrev request : List ℕ
request = 0 ∷ 1 ∷ 0 ∷ 0 ∷ 0 ∷ 6 ∷ 255 ∷ 3 ∷ 1 ∷ 96 ∷ 0 ∷ 4 ∷ []

abbrev env : Env ℕ
env = record { world = 20; log = [] }

counting-KeepsLength : KeepsLength counting
counting-KeepsLength ctx query w = refl

-- A mapping with the input registers asked for.
abbrev sized : Modbus ℕ
sized = record counting {
  mapping_new = λ _ _ _ _ _ _ _ n w.
      (some (record four_registers { tab_input_registers = replicate (pos_part n) 0 }), w);
  receive = λ ctx q w. elim ctx [
    | none ↦ (minus_one, q, einval, w)
    | some p ↦ (pos (length q), q, eagain, w)
  ];
}

abbrev one_input : UnitTest
one_input = record numbers { input_registers_nb = 1; input_registers_tab = 10 ∷ [] }

sized-KeepsLength : KeepsLength sized
sized-KeepsLength none query w = refl
sized-KeepsLength (some p) query w = refl

sized-IsServed : IsServed sized plain_calls one_input
sized-IsServed = record {
  memory = λ n w e. ap length (sym (some-injective _ _ e)) ∙ length-replicate {A = ℕ} n 0;
  tables = λ _ _ _ _ _ _ n _ w. omega (arith, length-replicate {A = ℕ} n 0);
  keeps = sized-KeepsLength;
  refuses = λ query w. (refl, refl);
  header = λ p w. inl refl;
  values = omega arith;
}

abbrev over_tcp : List (List ℕ)
over_tcp = codes "server" ∷ codes "tcp" ∷ []

unit_test_main-Runs_example :
    Runs (unit_test_main sized plain_calls one_input 5 over_tcp env)
    ⊎ (IsStarved sized plain_calls one_input sized-IsServed over_tcp env
        × (unit_test_main sized plain_calls one_input 5 over_tcp env ≡ fault null_pointer))
unit_test_main-Runs_example =
    unit_test_main-Runs sized plain_calls one_input sized-IsServed 5 over_tcp env

unit_test_main-IsReleased_example :
    Holds IsReleased
      (unit_test_main counting plain_calls numbers 5 (codes "server" ∷ codes "rtu" ∷ []) env)
unit_test_main-IsReleased_example =
    unit_test_main-IsReleased counting plain_calls numbers 5 (codes "server" ∷ codes "rtu" ∷ []) env
      (λ p. refl)
