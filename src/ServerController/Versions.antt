-- ===== src/ServerController/Versions.antt =====
-- The two versions of the serial adapter, side by side.
use modbus_server.Prelude.{
  ℕ, ◌≡◌, refl, inl, inr, Bool, false, ◌&&◌, ap, if◌then◌else◌, List, Option, none, some, arith,
  Bool-cases, Option-cases,
}
use modbus_server.Prelude.Int.{ℤ, pos, minus_one, eqb_ℤ, eqb_ℤ_iff, ltb_ℤ}
use modbus_server.Foreign.Modbus.{Modbus}
use modbus_server.Backend.{Backend}
use modbus_server.Config.{ModbusConfig}
use modbus_server.Machine.{Env, Machine, receive}
use modbus_server.RtuAdapter
use modbus_server.RtuAdapter.{is_failure}
use modbus_server.RtuAdapter.Contexts.{reconnect_rtu_lem}
use modbus_server.ServerController.{
  configure_rtu, connect_rtu, rtu_adapter_init, rtu_adapter_cleanup, answer_rtu, handle_rtu,
  rtu_adapter_handle, rtu_adapter_reconnect,
}

module _ {W : Type 0} (lib : Modbus W) where
  -- The two cleanups do the same.
  cleanup_same :
      (b : Option Backend) (e : Env W)
      → rtu_adapter_cleanup lib b e ≡ RtuAdapter.rtu_adapter_cleanup lib b e
  unfolding rtu_adapter_cleanup RtuAdapter.rtu_adapter_cleanup RtuAdapter.release_rtu
  cleanup_same none e = refl
  cleanup_same (some b) e = ground arith

  init_same :
      (config : ModbusConfig) (m : Machine W)
      → rtu_adapter_init lib config m ≡ RtuAdapter.rtu_adapter_init lib config m
  unfolding rtu_adapter_init connect_rtu configure_rtu RtuAdapter.rtu_adapter_init
      RtuAdapter.connect_rtu RtuAdapter.configure_rtu
  init_same config m = refl

  cleanup_some :
      (b : Backend) (e : Env W)
      → rtu_adapter_cleanup lib (some b) e ≡ (
          let m = RtuAdapter.release_rtu lib (record { backend = b; env = e }) in
          (some m.backend, m.env))
  unfolding RtuAdapter.rtu_adapter_cleanup
  cleanup_some b e = cleanup_same (some b) e

  -- Rtu_adapter_reconnect of server_controller.c and of rtu_adapter.c do the same for every
  -- backend, the null pointer included.
  pub reconnect_same :
      (config : ModbusConfig) (b : Option Backend) (e : Env W)
      → rtu_adapter_reconnect lib config b e ≡ RtuAdapter.rtu_adapter_reconnect lib config b e
  unfolding rtu_adapter_reconnect RtuAdapter.rtu_adapter_reconnect
  reconnect_same config none e = refl
  reconnect_same config (some b) e =
      let m = RtuAdapter.release_rtu lib (record { backend = b; env = e }) in
      rw
        (
          cleanup_some b e,
          init_same config m,
          reconnect_rtu_lem lib config (record { backend = b; env = e }),
        )
        refl

  -- The turn reads from the line, and the read fails for good.
  abbrev pub fails : Option Backend → List ℕ → Env W → Bool
  fails none query e = false
  fails (some b) query e = elim b.ctx_rtu [
    | none ↦ false
    | some p ↦
        let (rc, _, errno, _) = receive lib (some p) query e in
        eqb_ℤ rc minus_one && is_failure errno
  ]

  -- The result of a turn, followed by the cleanup of rtu_adapter.c where it is due.
  abbrev pub released_if :
      Bool → ℤ × List ℕ × Option Backend × Env W → ℤ × List ℕ × Option Backend × Env W
  released_if failed (status, query, b, e) =
      let (b', e') = if failed then RtuAdapter.rtu_adapter_cleanup lib b e else (b, e) in
      (status, query, b', e')

  handle_rtu_same :
      (p : ℕ) (b : Backend) (query : List ℕ) (e : Env W)
      → handle_rtu lib p query b e ≡ (
          let (rc, _, errno, _) = receive lib (some p) query e in
          let (status, query', m) =
            RtuAdapter.handle_rtu lib p query (record { backend = b; env = e }) in
          released_if
            (eqb_ℤ rc minus_one && is_failure errno)
            (status, query', some m.backend, m.env))
  unfolding handle_rtu answer_rtu RtuAdapter.handle_rtu RtuAdapter.answer_rtu
  handle_rtu_same p b query e =
      let (rc, query', errno, e') = receive lib (some p) query e in
      elim (Bool-cases (ltb_ℤ (pos 0) rc)) [
        | inl some_data ↦
            let not_lost : eqb_ℤ rc minus_one ≡ false = ground (arith, eqb_ℤ_iff rc minus_one) in
            rw (some_data, not_lost) refl
        | inr none_yet ↦ elim (Bool-cases (eqb_ℤ rc minus_one)) [
          | inl gone ↦ elim (Bool-cases (is_failure errno)) [
            | inl failed ↦
                rw (none_yet, gone, failed)
                  (ap (λ r. (minus_one, query', r.0, r.1)) (cleanup_same (some b) e'))
            | inr again ↦ rw (none_yet, gone, again) refl
          ]
          | inr nothing ↦ rw (none_yet, nothing) refl
        ]
      ]

  -- A turn of the serial line in server_controller.c is the turn in rtu_adapter.c, with the same
  -- status, query, backend and calls, followed, exactly where the read fails for good, by the
  -- cleanup of rtu_adapter.c; so for every backend, the null pointer included.
  pub handle_same_or_released :
      (b : Option Backend) (query : List ℕ) (e : Env W)
      → rtu_adapter_handle lib b query e
        ≡ released_if (fails b query e) (RtuAdapter.rtu_adapter_handle lib b query e)
  unfolding rtu_adapter_handle RtuAdapter.rtu_adapter_handle
  handle_same_or_released none query e = refl
  handle_same_or_released (some b) query e = elim (Option-cases b.ctx_rtu) [
    | inl missing ↦ simp missing
    | inr (p, there) ↦ simp (there, handle_rtu_same p b query e)
  ]
