-- ===== src/UnitTestServer/Faultless.antt =====
-- The whole run of unit-test-server.c: the start, the values that only the server can write, and
-- the loop.
use modbus_server.Prelude.{
  ℕ, zero, suc, ◌+◌, ◌≤◌, ◌≡◌, refl, ◌⊎◌, inl, inr, true, not, List, Option, none, some, arith,
  length, set, length-set, get_elem?-lt, if_cases,
}
use modbus_server.Prelude.Int.{ℤ, pos, minus_one}
use modbus_server.Clib.Fault.{Result, ok, fault, null_pointer}
use modbus_server.Clib.Memory.{load_in_bounds, store_in_bounds}
use modbus_server.Foreign.Mapping.{Mapping}
use modbus_server.Foreign.Modbus.{Modbus, Errno, other}
use modbus_server.Machine.{Env, receive}
use modbus_server.UnitTestServer.{
  UnitTest, TestCalls, Transport, tcp, tcp_pi, rtu, parse_backend, ip_or_device,
}
use modbus_server.UnitTestServer.Running.{
  Session, Exit, copy_registers, new_ctx, new_query, new_mapping, fill_mapping, open_backend, serve,
  with_mapping, start, turn, turns, run_as, unit_test_main,
}
use modbus_server.UnitTestServer.Special.{KeepsLength, turns-IsFaultless}

-- A computation without a fault.
abbrev Ends : {A : Type 0} → Result A → Type 0
Ends {A} r = (x : A) × (r ≡ ok x)

-- A run that comes to an end, or to the bound, without a fault.
abbrev pub Runs : {W : Type 0} → Result (Exit W) → Type 0
Runs {W} r = (x : Exit W) × (r ≡ ok x)

-- Memory of that many bytes, if there is memory.
abbrev HasBytes : ℕ → Option (List ℕ) → Type 0
HasBytes n none = Unit
HasBytes n (some query) = n ≤ length query

-- A header that leaves room for five bytes, where there is a context.
abbrev HasHeader : Option ℕ → ℤ → Type 0
HasHeader none header_length = Unit
HasHeader (some p) header_length = (h : ℕ) × (header_length ≡ pos h) × (h + 5 ≤ 256)

-- Room for so many input registers, where there are tables.
abbrev pub HasInputs : ℕ → Option Mapping → Type 0
HasInputs n none = Unit
HasInputs n (some m) = n ≤ length m.tab_input_registers

-- `EINVAL`
abbrev pub einval : Errno
einval = other 22

-- What is taken for granted: memory and the input registers of new tables, where they are given,
-- have the size asked for; receiving keeps the length of the buffer, and refuses a null context; the
-- header of a context takes seven bytes or one; the values are as many as they are said to be.
pub record IsServed {W : Type 0} (lib : Modbus W) (calls : TestCalls W) (ut : UnitTest)
    : Type 0 where
  pub memory :
      (n : ℕ) (w : W) {query : List ℕ} → (calls.malloc n w).0 ≡ some query → length query ≡ n
  pub tables :
      (a b d e f g : ℤ) (n : ℕ) (h : ℤ) (w : W)
      → HasInputs n (lib.mapping_new a b d e f g h (pos n) w).0
  pub keeps : KeepsLength lib
  pub refuses :
      (query : List ℕ) (w : W)
      → ((lib.receive none query w).0 ≡ minus_one) × ((lib.receive none query w).2 ≡ einval)
  pub header :
      (p : ℕ) (w : W)
      → (calls.get_header_length (some p) w ≡ pos 7) ⊎ (calls.get_header_length (some p) w ≡ pos 1)
  pub values : ut.input_registers_nb ≤ length ut.input_registers_tab

copy_registers-ok :
    (left i : ℕ) (tab dest : List ℕ)
    → i + left ≤ length tab
    → i + left ≤ length dest
    → (r : List ℕ) × (copy_registers left i tab dest ≡ ok r)
unfolding copy_registers
copy_registers-ok zero i tab dest h k = (dest, refl)
copy_registers-ok (suc left) i tab dest h k =
    let (v, at) = get_elem?-lt tab i (omega arith) in
    let (r, run) =
      copy_registers-ok left (i + 1) tab (set dest i v) (omega arith)
        (omega (arith, length-set dest i v)) in
    (r, rw (load_in_bounds tab i at, store_in_bounds dest i v (omega arith)) run)

module _ {W : Type 0} (lib : Modbus W) (calls : TestCalls W) (ut : UnitTest)
    (d : IsServed lib calls ut) where
  fill_mapping-ok :
      (m : Mapping)
      → ut.input_registers_nb ≤ length m.tab_input_registers
      → (m' : Mapping) × (fill_mapping lib calls ut m ≡ ok m')
  unfolding fill_mapping
  fill_mapping-ok m h =
      let (r, run) =
        copy_registers-ok ut.input_registers_nb 0 ut.input_registers_tab m.tab_input_registers
          (omega (arith, d.values)) (omega (arith, h)) in
      let bits =
        calls.set_bits_from_bytes m.tab_input_bits (pos 0) ut.input_bits_nb ut.input_bits_tab in
      (record m { tab_input_bits = bits; tab_input_registers = r }, rw run refl)

  -- Without a context the loop ends with the first call.
  turns-none :
      (bound : ℕ) (t : Transport) (header_length : ℤ) (s : Session W)
      → Ends (turns lib calls ut bound t none header_length s)
  unfolding turns turn receive
  turns-none zero t header_length s = (_, refl)
  turns-none (suc left) t header_length s =
      let (gone, invalid) = d.refuses s.query s.env.world in
      let (_, query, _, w) = lib.receive none s.query s.env.world in
      let after : Session W = record s { query = query; env = record s.env { world = w } } in
      ((true, after), rw (gone, invalid) refl)

  turns-Ends :
      (bound : ℕ) (t : Transport) (ctx : Option ℕ) (header_length : ℤ) (s : Session W)
      → HasHeader ctx header_length
      → 256 ≤ length s.query
      → Ends (turns lib calls ut bound t ctx header_length s)
  turns-Ends bound t none header_length s small long = turns-none bound t header_length s
  turns-Ends bound t (some p) header_length s (h, is_h, small) long =
      let (ended, after, run, same) =
        turns-IsFaultless lib calls ut bound t (some p) h s d.keeps (omega arith) in
      ((ended, after), rw is_h run)

  -- A run without a fault, or one that uses the memory that it did not get.
  abbrev pub RunsWith : Option (List ℕ) → Result (Exit W) → Type 0
  RunsWith memory r = Runs r ⊎ ((memory ≡ none) × (r ≡ fault null_pointer))

  serve-RunsWith :
      (bound : ℕ) (t : Transport) (ctx : Option ℕ) (header_length : ℤ) (memory : Option (List ℕ))
      (m : Mapping) (e : Env W)
      → HasHeader ctx header_length
      → HasBytes 256 memory
      → HasInputs ut.input_registers_nb (some m)
      → RunsWith memory (serve lib calls ut bound t ctx header_length memory m e)
  unfolding serve
  serve-RunsWith bound t ctx header_length none m e small long inputs =
      let (filled, run) = fill_mapping-ok m inputs in
      let (up, s, e1) = open_backend lib calls ut t ctx e in
      rw run (if_cases (RunsWith none) (not up) (λ down. inl (_, refl)) (λ there. inr (refl, refl)))
  serve-RunsWith bound t ctx header_length (some query) m e small long inputs =
      let (filled, run) = fill_mapping-ok m inputs in
      let (up, s, e1) = open_backend lib calls ut t ctx e in
      let session : Session W = record { query = query; mapping = some filled; env = e1 } in
      let (after, run') = turns-Ends bound t ctx header_length session small long in
      rw (run, run')
        (if_cases (RunsWith (some query)) (not up) (λ down. inl (_, refl)) (λ there. inl (_, refl)))

  with_mapping-RunsWith :
      (bound : ℕ) (t : Transport) (ctx : Option ℕ) (header_length : ℤ) (memory : Option (List ℕ))
      (m : Option Mapping) (e : Env W)
      → HasHeader ctx header_length
      → HasBytes 256 memory
      → HasInputs ut.input_registers_nb m
      → RunsWith memory (with_mapping lib calls ut bound t ctx header_length memory m e)
  unfolding with_mapping
  with_mapping-RunsWith bound t ctx header_length memory none e small long inputs = inl (_, refl)
  with_mapping-RunsWith bound t ctx header_length memory (some m) e small long inputs =
      serve-RunsWith bound t ctx header_length memory m e small long inputs

  header_lem : (ctx : Option ℕ) (w : W) → HasHeader ctx (calls.get_header_length ctx w)
  header_lem none w = tt
  header_lem (some p) w = elim (d.header p w) [
    | inl tcp_header ↦ (7, tcp_header, omega arith)
    | inr rtu_header ↦ (1, rtu_header, omega arith)
  ]

  bytes_lem :
      (memory : Option (List ℕ)) (n : ℕ) (w : W)
      → (calls.malloc n w).0 ≡ memory
      → 256 ≤ n
      → HasBytes 256 memory
  bytes_lem none n w e h = tt
  bytes_lem (some query) n w e h = omega (arith, h, d.memory n w e)

  new_query-HasBytes : (t : Transport) (e : Env W) → HasBytes 256 (new_query lib calls ut t e).0
  unfolding new_query
  new_query-HasBytes tcp e = bytes_lem _ 260 e.world refl (omega arith)
  new_query-HasBytes tcp_pi e = bytes_lem _ 260 e.world refl (omega arith)
  new_query-HasBytes rtu e = bytes_lem _ 256 e.world refl (omega arith)

  -- The memory for the requests of a run.
  abbrev pub memory_of : Transport → List ℕ → Env W → Option (List ℕ)
  memory_of t device e = (new_query lib calls ut t (new_ctx lib calls ut t device e).1).0

  start-RunsWith :
      (bound : ℕ) (t : Transport) (device : List ℕ) (e : Env W)
      → RunsWith (memory_of t device e) (start lib calls ut bound t device e)
  unfolding start new_mapping
  start-RunsWith bound t device e =
      let (ctx, e1) = new_ctx lib calls ut t device e in
      let (memory, e2) = new_query lib calls ut t e1 in
      with_mapping-RunsWith bound t ctx _ memory _ _ (header_lem ctx e2.world)
        (new_query-HasBytes t e1) (d.tables _ _ _ _ _ _ _ _ _)

  -- The run names a transport, and gets no memory.
  abbrev pub IsStarved : List (List ℕ) → Env W → Type 0
  IsStarved argv e =
      (t : Transport) × (parse_backend argv ≡ some t) × (memory_of t (ip_or_device argv t) e ≡ none)

  run_as-Runs :
      (bound : ℕ) (argv : List (List ℕ)) (t : Option Transport) (e : Env W)
      → parse_backend argv ≡ t
      → Runs (run_as lib calls ut bound argv t e)
        ⊎ (IsStarved argv e × (run_as lib calls ut bound argv t e ≡ fault null_pointer))
  unfolding run_as
  run_as-Runs bound argv none e named = inl (_, refl)
  run_as-Runs bound argv (some t) e named = elim (start-RunsWith bound t (ip_or_device argv t) e) [
    | inl runs ↦ inl runs
    | inr (starved, null) ↦ inr ((t, named, starved), null)
  ]

  -- Where memory and tables that are given have the size asked for, receiving keeps the length of
  -- the buffer and refuses a null context, the header of a context has seven bytes or one, and the
  -- values for the input registers are as many as they are said to be: a run of the main of
  -- unit-test-server.c of any length, with whatever arguments and requests, and whichever context,
  -- table or connection is not there, has no fault, unless malloc gives no memory for the requests
  -- and the null pointer is used.
  pub unit_test_main-Runs :
      (bound : ℕ) (argv : List (List ℕ)) (e : Env W)
      → Runs (unit_test_main lib calls ut bound argv e)
        ⊎ (IsStarved argv e × (unit_test_main lib calls ut bound argv e ≡ fault null_pointer))
  unfolding unit_test_main
  unit_test_main-Runs bound argv e = run_as-Runs bound argv (parse_backend argv) e refl
