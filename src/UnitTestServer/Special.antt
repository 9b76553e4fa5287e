-- ===== src/UnitTestServer/Special.antt =====
-- What unit-test-server.c makes of a request, whatever the request holds.
use modbus_server.Prelude.{
  ℕ, zero, suc, ◌+◌, ◌%◌, ◌^◌, ◌<◌, ◌≤◌, ◌≡◌, ◌≢◌, refl, ap, ◌∙◌, Bool, true, false, not, ◌&&◌,
  List, Option, some, arith, length, get_elem?, if_cases, get_elem?-lt, ◌==◌,
}
use modbus_server.Prelude.Int.{ℤ, pos, minus_one, eqb_ℤ, eqb_ℤ_iff, ◌-ℤ◌, pos-add}
use modbus_server.Clib.Fault.{Result, ok}
use modbus_server.Clib.Memory.{load_in_bounds}
use modbus_server.Foreign.Mapping.{Mapping}
use modbus_server.Foreign.Modbus.{Modbus}
use modbus_server.Machine.{Env, receive, reply}
use modbus_server.UnitTestServer.{UnitTest, TestCalls, Transport}
use modbus_server.UnitTestServer.Bytes.{get_int16-ok, set_int16-ok, length-written}
use modbus_server.UnitTestServer.Requests.{
  Handled, over, answer, fc_read_holding_registers, fc_write_single_coil, fc_write_single_register,
  get_int16, byte_by_byte, read_at, read_request, handle_request,
}
use modbus_server.UnitTestServer.Running.{Session, is_bad_crc, reply_step, turn, turns}

abbrev pub query_of : {W : Type 0} → Handled W → List ℕ
query_of (over query e) = query
query_of (answer rc query e) = query

-- A request that is none of the special ones: by its function, its address and its number of
-- registers.
abbrev pub IsPlain : UnitTest → ℕ → ℕ → ℕ → Type 0
IsPlain ut f address nb =
    (f ≡ fc_read_holding_registers
      → (pos nb ≢ ut.registers_nb_special)
        × (pos address ≢ ut.registers_address_special)
        × (pos address ≢ ut.registers_address_invalid_tid_or_slave)
        × (pos address ≢ ut.registers_address_sleep_500_ms)
        × (pos address ≢ ut.registers_address_byte_sleep_5_ms))
    × (f ≡ fc_write_single_coil → pos address ≢ ut.bits_address_invalid_request_length)
    × (f ≡ fc_write_single_register → pos address ≢ ut.registers_address_special)

-- A run that ends without a fault, with a buffer of that length.
abbrev pub IsSafe : {W : Type 0} → ℕ → Result (Handled W) → Type 0
IsSafe {W} n r = (h : Handled W) × (r ≡ ok h) × (length (query_of h) ≡ n)

module _ {W : Type 0} (lib : Modbus W) (calls : TestCalls W) (ut : UnitTest) where
  byte_by_byte-IsSafe :
      (ctx : Option ℕ) (query : List ℕ) (e : Env W)
      → 1 < length query
      → IsSafe (length query) (byte_by_byte lib calls ut ctx query e)
  unfolding byte_by_byte
  byte_by_byte-IsSafe ctx query e long =
      let (tid, at) = get_elem?-lt query 1 long in
      if_cases (IsSafe (length query)) (eqb_ℤ (lib.get_socket ctx e.world) minus_one)
        (λ none_there. (over query e, refl, refl))
        (λ there. rw (load_in_bounds query 1 at) (over query _, refl, refl))

  read_at-IsSafe :
      (t : Transport) (ctx : Option ℕ) (address : ℕ) (rc : ℤ) (query : List ℕ) (e : Env W)
      → 1 < length query
      → IsSafe (length query) (read_at lib calls ut t ctx address rc query e)
  unfolding read_at
  read_at-IsSafe t ctx address rc query e long =
      let P = IsSafe (length query) in
      if_cases P (eqb_ℤ (pos address) ut.registers_address_special)
        (λ yes. (over query _, refl, refl))
        (λ no.
          if_cases P (eqb_ℤ (pos address) ut.registers_address_invalid_tid_or_slave)
            (λ yes. (over query _, refl, refl))
            (λ no.
              if_cases P (eqb_ℤ (pos address) ut.registers_address_sleep_500_ms)
                (λ yes. (answer rc query _, refl, refl))
                (λ no.
                  if_cases P (eqb_ℤ (pos address) ut.registers_address_byte_sleep_5_ms)
                    (λ yes. byte_by_byte-IsSafe ctx query e long)
                    (λ no. (answer rc query e, refl, refl)))))

  read_request-IsSafe :
      (t : Transport) (ctx : Option ℕ) (h address : ℕ) (rc : ℤ) (query : List ℕ) (e : Env W)
      → h + 5 ≤ length query
      → IsSafe (length query) (read_request lib calls ut t ctx (pos h) address rc query e)
  unfolding read_request
  read_request-IsSafe t ctx h address rc query e long =
      let (nb, read) = get_int16-ok query (h + 3) (omega arith) in
      let value = ut.registers_nb_special -ℤ pos 1 in
      rw (pos-add h 3, read)
        (if_cases (IsSafe (length query)) (eqb_ℤ (pos nb) ut.registers_nb_special)
          (λ yes.
            rw (set_int16-ok query (h + 3) value (omega arith))
              (answer rc _ e, refl, length-written query (h + 3) value))
          (λ no. read_at-IsSafe t ctx address rc query e (omega arith)))

  handle_request-IsSafe :
      (t : Transport) (ctx : Option ℕ) (h : ℕ) (rc : ℤ) (query : List ℕ) (e : Env W)
      → h + 5 ≤ length query
      → IsSafe (length query) (handle_request lib calls ut t ctx (pos h) rc query e)
  unfolding handle_request
  handle_request-IsSafe t ctx h rc query e long =
      let (f, at) = get_elem?-lt query h (omega arith) in
      let (word, read) = get_int16-ok query (h + 1) (omega arith) in
      rw (load_in_bounds query h at, pos-add h 1, read)
        (if_cases (IsSafe (length query)) (f == fc_read_holding_registers)
          (λ yes. read_request-IsSafe t ctx h (word % 2 ^ 16) rc query e long)
          (λ no. (answer _ query e, refl, refl)))

  -- A request in the buffer whose function, address and number of registers are none of the special
  -- ones is handed to the reply of the library with its length, and nothing is changed.
  pub handle_request-plain :
      (t : Transport) (ctx : Option ℕ) (h f word nb : ℕ) (rc : ℤ) (query : List ℕ) (e : Env W)
      → get_elem? query h ≡ some f
      → get_int16 query (pos (h + 1)) ≡ ok word
      → get_int16 query (pos (h + 3)) ≡ ok nb
      → IsPlain ut f (word % 2 ^ 16) nb
      → handle_request lib calls ut t ctx (pos h) rc query e ≡ ok (answer rc query e)
  unfolding handle_request read_request read_at
  handle_request-plain t ctx h f word nb rc query e at read read' (holding, coil, register) =
      let address = word % 2 ^ 16 in
      rw (load_in_bounds query h at, pos-add h 1, pos-add h 3, read, read')
        (ground (
          arith,
          eqb_ℤ_iff (pos nb) ut.registers_nb_special,
          eqb_ℤ_iff (pos address) ut.registers_address_special,
          eqb_ℤ_iff (pos address) ut.registers_address_invalid_tid_or_slave,
          eqb_ℤ_iff (pos address) ut.registers_address_sleep_500_ms,
          eqb_ℤ_iff (pos address) ut.registers_address_byte_sleep_5_ms,
          eqb_ℤ_iff (pos address) ut.bits_address_invalid_request_length,
        ))

-- Receiving keeps the length of the buffer.
abbrev pub KeepsLength : {W : Type 0} → Modbus W → Type 0
KeepsLength {W} lib =
    (ctx : Option ℕ) (query : List ℕ) (w : W) → length (lib.receive ctx query w).1 ≡ length query

-- A run of the loop that ends without a fault, with a buffer of that length.
abbrev pub IsFaultless : {W : Type 0} → ℕ → Result (Bool × Session W) → Type 0
IsFaultless {W} n r = (quit : Bool) × (s : Session W) × (r ≡ ok (quit, s)) × (length s.query ≡ n)

module _ {W : Type 0} (lib : Modbus W) (calls : TestCalls W) (ut : UnitTest) where
  reply_step-query :
      (ctx : Option ℕ) (mapping : Option Mapping) (h : Handled W)
      → (reply_step lib calls ut ctx mapping h).1.query ≡ query_of h
  unfolding reply_step reply
  reply_step-query ctx mapping (over query e) = refl
  reply_step-query ctx mapping (answer rc query e) = refl

  turn-IsFaultless :
      (t : Transport) (ctx : Option ℕ) (h : ℕ) (s : Session W)
      → KeepsLength lib
      → h + 5 ≤ length s.query
      → IsFaultless (length s.query) (turn lib calls ut t ctx (pos h) s)
  unfolding turn receive
  turn-IsFaultless t ctx h s keeps long =
      let (rc, query, errno, w) = lib.receive ctx s.query s.env.world in
      let same : length query ≡ length s.query = keeps ctx s.query s.env.world in
      let e : Env W = record s.env { world = w } in
      let s' : Session W = record s { query = query; env = e } in
      let P = IsFaultless (length s.query) in
      if_cases P (eqb_ℤ rc (pos 0)) (λ nothing. (false, s', refl, same))
        (λ something.
          if_cases P (eqb_ℤ rc minus_one && not (is_bad_crc errno))
            (λ failed. (true, s', refl, same))
            (λ request.
              let (handled, run, kept) =
                handle_request-IsSafe lib calls ut t ctx h rc query e (omega (arith, same)) in
              let (quit, s'') = reply_step lib calls ut ctx s.mapping handled in
              rw run (
                quit,
                s'',
                refl,
                ap length (reply_step-query ctx s.mapping handled) ∙ kept ∙ same,
              )))

  -- Where receiving keeps the length of the buffer, and the buffer holds five bytes from the end of
  -- the header on: however many requests the loop of unit-test-server.c handles and whatever they
  -- hold, it reads and writes inside the buffer, whose length stays.
  pub turns-IsFaultless :
      (bound : ℕ) (t : Transport) (ctx : Option ℕ) (h : ℕ) (s : Session W)
      → KeepsLength lib
      → h + 5 ≤ length s.query
      → IsFaultless (length s.query) (turns lib calls ut bound t ctx (pos h) s)
  unfolding turns
  turns-IsFaultless zero t ctx h s keeps long = (false, s, refl, refl)
  turns-IsFaultless (suc left) t ctx h s keeps long =
      let (quit, s', run, same) = turn-IsFaultless t ctx h s keeps long in
      let (quit', s'', run', same') =
        turns-IsFaultless left t ctx h s' keeps (omega (arith, same)) in
      rw (run, run')
        (if_cases (IsFaultless (length s.query)) quit (λ yes. (true, s', refl, same))
          (λ no. (quit', s'', refl, same' ∙ same)))
