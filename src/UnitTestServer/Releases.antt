-- ===== src/UnitTestServer/Releases.antt =====
-- The contexts that a run of unit-test-server.c allocates and frees.
use modbus_server.Prelude.{
  ℕ, ◌+◌, ◌≡◌, true, not, List, Option, none, some, arith, if_cases, Option-cases,
}
use modbus_server.Prelude.Int.{ℤ, pos}
use modbus_server.Clib.Fault.{Holds, Holds-bind, deref}
use modbus_server.Clib.Text.{codes}
use modbus_server.Foreign.Mapping.{Mapping}
use modbus_server.Foreign.Modbus.{Modbus}
use modbus_server.Machine.{
  Env, outside, times_created, times_freed, new_rtu, free_ctx, tcp_listen, tcp_accept, connect,
  close_fd,
}
use modbus_server.RtuAdapter.Contexts.{is_ctx}
use modbus_server.UnitTestServer.{
  UnitTest, TestCalls, Transport, tcp, tcp_pi, rtu, parse_backend, ip_or_device,
}
use modbus_server.UnitTestServer.Running.{
  Session, Exit, exited, still_running, new_ctx, new_query, new_mapping, open_backend, fill_mapping,
  turns, quit, serve, with_mapping, start, run_as, unit_test_main,
}
use modbus_server.UnitTestServer.Turns.{HasLog, then-Holds, turns-log}

-- Every context has been freed as often as it was allocated; or, but for one.
abbrev pub IsEven : {W : Type 0} → Env W → Type 0
IsEven e = (p : ℕ) → times_created p e.log ≡ times_freed p e.log

abbrev IsEvenBut : {W : Type 0} → Option ℕ → Env W → Type 0
IsEvenBut ctx e = (p : ℕ) → times_created p e.log ≡ times_freed p e.log + is_ctx p ctx

-- What a run leaves that has returned.
abbrev pub IsReleased : {W : Type 0} → Exit W → Type 0
IsReleased (exited status e) = IsEven e
IsReleased (still_running s) = Unit

module _ {W : Type 0} (lib : Modbus W) (calls : TestCalls W) (ut : UnitTest) where
  new_ctx-IsEvenBut :
      (t : Transport) (device : List ℕ) (e : Env W)
      → IsEven e
      → IsEvenBut (new_ctx lib calls ut t device e).0 (new_ctx lib calls ut t device e).1
  unfolding new_ctx new_rtu
  new_ctx-IsEvenBut tcp device e even p =
      ground (arith, even p, Option-cases (calls.new_tcp_at device (pos 1502) e.world).0)
  new_ctx-IsEvenBut tcp_pi device e even p =
      ground (arith, even p, Option-cases (calls.new_tcp_pi device (codes "1502") e.world).0)
  new_ctx-IsEvenBut rtu device e even p =
      ground (
        arith,
        even p,
        Option-cases (lib.new_rtu device (pos 115200) b'N' (pos 8) (pos 1) e.world).0,
      )

  free_ctx-IsEven : (ctx : Option ℕ) (e : Env W) → IsEvenBut ctx e → IsEven (free_ctx lib ctx e)
  unfolding free_ctx
  free_ctx-IsEven none e even p = ground (arith, even p)
  free_ctx-IsEven (some q) e even p = ground (arith, even p)

  open_backend-IsEvenBut :
      (t : Transport) (ctx : Option ℕ) (e : Env W)
      → IsEvenBut ctx e
      → IsEvenBut ctx (open_backend lib calls ut t ctx e).2
  unfolding open_backend tcp_listen tcp_accept connect
  open_backend-IsEvenBut tcp ctx e even p = ground (arith, even p)
  open_backend-IsEvenBut tcp_pi ctx e even p = ground (arith, even p)
  open_backend-IsEvenBut rtu ctx e even p = ground (arith, even p)

  quit-IsEven :
      (t : Transport) (ctx : Option ℕ) (s : ℤ) (session : Session W)
      → IsEvenBut ctx session.env
      → IsEven (quit lib calls ut t ctx s session)
  unfolding quit free_ctx close_fd
  quit-IsEven t none s session even p = ground (arith, even p)
  quit-IsEven t (some q) s session even p = ground (arith, even p)

  serve-IsReleased :
      (bound : ℕ) (t : Transport) (ctx : Option ℕ) (header_length : ℤ) (memory : Option (List ℕ))
      (m : Mapping) (e : Env W)
      → IsEvenBut ctx e
      → Holds IsReleased (serve lib calls ut bound t ctx header_length memory m e)
  unfolding serve
  serve-IsReleased bound t ctx header_length memory m e even =
      then-Holds IsReleased (fill_mapping lib calls ut m) _ (λ filled.
        let (up, s, e1) = open_backend lib calls ut t ctx e in
        let even1 = open_backend-IsEvenBut t ctx e even in
        if_cases (Holds IsReleased) (not up) (λ down. free_ctx-IsEven ctx e1 even1)
          (λ there. then-Holds IsReleased (deref memory) _ (λ query.
            let session : Session W = record { query = query; mapping = some filled; env = e1 } in
            Holds-bind (HasLog lib calls ut e1.log) IsReleased
              (turns lib calls ut bound t ctx header_length session) _
              (turns-log lib calls ut bound t ctx header_length session)
              (λ st same.
                if_cases IsReleased st.0
                  (λ ended. quit-IsEven t ctx s st.1 (λ p. rw same (even1 p))) (λ more. tt)))))

  with_mapping-IsReleased :
      (bound : ℕ) (t : Transport) (ctx : Option ℕ) (header_length : ℤ) (memory : Option (List ℕ))
      (m : Option Mapping) (e : Env W)
      → IsEvenBut ctx e
      → Holds IsReleased (with_mapping lib calls ut bound t ctx header_length memory m e)
  unfolding with_mapping
  with_mapping-IsReleased bound t ctx header_length memory none e even = free_ctx-IsEven ctx e even
  with_mapping-IsReleased bound t ctx header_length memory (some m) e even =
      serve-IsReleased bound t ctx header_length memory m e even

  start-IsReleased :
      (bound : ℕ) (t : Transport) (device : List ℕ) (e : Env W)
      → IsEven e
      → Holds IsReleased (start lib calls ut bound t device e)
  unfolding start new_query new_mapping
  start-IsReleased bound t device e even =
      let (ctx, e1) = new_ctx lib calls ut t device e in
      let (memory, e2) = new_query lib calls ut t e1 in
      let header_length = calls.get_header_length ctx e2.world in
      let (mapping, e3) = new_mapping lib calls ut (outside lib (lib.set_debug ctx true) e2) in
      with_mapping-IsReleased bound t ctx header_length memory mapping e3
        (new_ctx-IsEvenBut t device e even)

  run_as-IsReleased :
      (bound : ℕ) (argv : List (List ℕ)) (t : Option Transport) (e : Env W)
      → IsEven e
      → Holds IsReleased (run_as lib calls ut bound argv t e)
  unfolding run_as
  run_as-IsReleased bound argv none e even = even
  run_as-IsReleased bound argv (some t) e even =
      start-IsReleased bound t (ip_or_device argv t) e even

  -- From contexts that were freed as often as they were allocated, a run of unit-test-server.c that
  -- returns without a fault, with whatever arguments and whichever step fails, has freed its
  -- context as often as it allocated it.
  pub unit_test_main-IsReleased :
      (bound : ℕ) (argv : List (List ℕ)) (e : Env W)
      → IsEven e
      → Holds IsReleased (unit_test_main lib calls ut bound argv e)
  unfolding unit_test_main
  unit_test_main-IsReleased bound argv e even =
      run_as-IsReleased bound argv (parse_backend argv) e even
