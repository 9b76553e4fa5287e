-- ===== src/UnitTestServer/Turns.antt =====
-- No turn of the loop of unit-test-server.c hands out or gives back a descriptor or a context.
use modbus_server.Prelude.{
  ℕ, zero, suc, ◌≡◌, refl, ◌∙◌, Bool, not, ◌&&◌, List, [], ◌∷◌, Option, if_cases, ◌==◌, ◌^◌, ◌%◌,
  subst,
}
use modbus_server.Prelude.Int.{ℤ, pos, minus_one, eqb_ℤ, ◌+ℤ◌, ◌-ℤ◌}
use modbus_server.Clib.Fault.{Result, ok, fault, ◌>>=◌, Holds, Holds-bind}
use modbus_server.Clib.Memory.{load}
use modbus_server.Foreign.Mapping.{Mapping}
use modbus_server.Foreign.Modbus.{Modbus}
use modbus_server.Machine.{Env, Event, receive, reply}
use modbus_server.UnitTestServer.{UnitTest, TestCalls, Transport}
use modbus_server.UnitTestServer.Requests.{
  Handled, over, answer, send_bytes, byte_by_byte, read_at, read_request, handle_request, get_int16,
  set_int16, fc_read_holding_registers, req,
}
use modbus_server.UnitTestServer.Running.{Session, is_bad_crc, reply_step, turn, turns}

abbrev env_of : {W : Type 0} → Handled W → Env W
env_of (over query e) = e
env_of (answer rc query e) = e

-- A request that leaves the log as it was.
abbrev IsQuiet : {W : Type 0} → List Event → Handled W → Type 0
IsQuiet log h = (env_of h).log ≡ log

abbrev IsAny {ℓ} : {A : Type ℓ} → A → Type 0
IsAny a = Unit

IsAny-Holds {ℓ} : {A : Type ℓ} (r : Result A) → Holds IsAny r
IsAny-Holds (ok a) = tt
IsAny-Holds (fault e) = tt

-- A step of which nothing is known, before one that holds for every value.
pub then-Holds {ℓ κ} :
    {A : Type ℓ} {B : Type κ} (Q : B → Type 0) (r : Result A) (next : A → Result B)
    → ((a : A) → Holds Q (next a))
    → Holds Q (r >>= next)
then-Holds Q r next step = Holds-bind IsAny Q r next (IsAny-Holds r) (λ a known. step a)

module _ {W : Type 0} (lib : Modbus W) (calls : TestCalls W) (ut : UnitTest) where
  send_bytes-log :
      (w_s : ℤ) (bytes : List ℕ) (e : Env W) → (send_bytes lib calls ut w_s bytes e).log ≡ e.log
  unfolding send_bytes
  send_bytes-log w_s [] e = refl
  send_bytes-log w_s (b ∷ bytes) e =
      let (rc, w) = calls.send w_s b (calls.usleep 5000 e.world) in
      let e' : Env W = record e { world = w } in
      if_cases (λ (r : Env W). r.log ≡ e.log) (eqb_ℤ rc minus_one) (λ failed. refl)
        (λ sent. send_bytes-log w_s bytes e')

  byte_by_byte-IsQuiet :
      (ctx : Option ℕ) (query : List ℕ) (e : Env W)
      → Holds (IsQuiet e.log) (byte_by_byte lib calls ut ctx query e)
  unfolding byte_by_byte
  byte_by_byte-IsQuiet ctx query e =
      let w_s = lib.get_socket ctx e.world in
      if_cases (Holds (IsQuiet e.log)) (eqb_ℤ w_s minus_one) (λ nowhere. refl)
        (λ there.
          then-Holds (IsQuiet e.log) (load query (pos 1)) _
            (λ tid. send_bytes-log w_s (req lib calls ut tid) e))

  read_at-IsQuiet :
      (t : Transport) (ctx : Option ℕ) (address : ℕ) (rc : ℤ) (query : List ℕ) (e : Env W)
      → Holds (IsQuiet e.log) (read_at lib calls ut t ctx address rc query e)
  unfolding read_at
  read_at-IsQuiet t ctx address rc query e =
      let P = Holds (IsQuiet e.log) in
      if_cases P (eqb_ℤ (pos address) ut.registers_address_special) (λ yes. refl)
        (λ no.
          if_cases P (eqb_ℤ (pos address) ut.registers_address_invalid_tid_or_slave) (λ yes. refl)
            (λ no.
              if_cases P (eqb_ℤ (pos address) ut.registers_address_sleep_500_ms) (λ yes. refl)
                (λ no.
                  if_cases P (eqb_ℤ (pos address) ut.registers_address_byte_sleep_5_ms)
                    (λ yes. byte_by_byte-IsQuiet ctx query e) (λ no. refl))))

  handle_request-IsQuiet :
      (t : Transport) (ctx : Option ℕ) (header_length rc : ℤ) (query : List ℕ) (e : Env W)
      → Holds (IsQuiet e.log) (handle_request lib calls ut t ctx header_length rc query e)
  unfolding handle_request read_request
  handle_request-IsQuiet t ctx header_length rc query e =
      let P = IsQuiet e.log in
      then-Holds P (load query header_length) _ (λ f.
        then-Holds P (get_int16 query (header_length +ℤ pos 1)) _ (λ word.
          if_cases (Holds P) (f == fc_read_holding_registers)
            (λ yes. then-Holds P (get_int16 query (header_length +ℤ pos 3)) _ (λ nb.
              if_cases (Holds P) (eqb_ℤ (pos nb) ut.registers_nb_special)
                (λ yes.
                  then-Holds P
                    (set_int16 query (header_length +ℤ pos 3) (ut.registers_nb_special -ℤ pos 1)) _
                    (λ query'. refl))
                (λ no. read_at-IsQuiet t ctx (word % 2 ^ 16) rc query e)))
            (λ no. refl)))

  reply_step-log :
      (ctx : Option ℕ) (mapping : Option Mapping) (h : Handled W)
      → (reply_step lib calls ut ctx mapping h).1.env.log ≡ (env_of h).log
  unfolding reply_step reply
  reply_step-log ctx mapping (over query e) = refl
  reply_step-log ctx mapping (answer rc query e) = refl

  -- Turns of the loop leave the log as it was.
  abbrev pub HasLog : List Event → Bool × Session W → Type 0
  HasLog log r = r.1.env.log ≡ log

  turn-log :
      (t : Transport) (ctx : Option ℕ) (header_length : ℤ) (s : Session W)
      → Holds (HasLog s.env.log) (turn lib calls ut t ctx header_length s)
  unfolding turn receive
  turn-log t ctx header_length s =
      let (rc, query, errno, w) = lib.receive ctx s.query s.env.world in
      let e : Env W = record s.env { world = w } in
      let P = HasLog s.env.log in
      if_cases (Holds P) (eqb_ℤ rc (pos 0)) (λ nothing. refl)
        (λ something.
          if_cases (Holds P) (eqb_ℤ rc minus_one && not (is_bad_crc errno)) (λ failed. refl)
            (λ request.
              Holds-bind (IsQuiet s.env.log) P
                (handle_request lib calls ut t ctx header_length rc query e) _
                (handle_request-IsQuiet t ctx header_length rc query e)
                (λ handled quiet. reply_step-log ctx s.mapping handled ∙ quiet)))

  pub turns-log :
      (bound : ℕ) (t : Transport) (ctx : Option ℕ) (header_length : ℤ) (s : Session W)
      → Holds (HasLog s.env.log) (turns lib calls ut bound t ctx header_length s)
  unfolding turns
  turns-log zero t ctx header_length s = refl
  turns-log (suc left) t ctx header_length s =
      let P = HasLog s.env.log in
      Holds-bind P P (turn lib calls ut t ctx header_length s) _ (turn-log t ctx header_length s)
        (λ st same.
          if_cases (Holds P) st.0 (λ yes. same)
            (λ no.
              subst (λ log. Holds (HasLog log) (turns lib calls ut left t ctx header_length st.1))
                same (turns-log left t ctx header_length st.1)))
