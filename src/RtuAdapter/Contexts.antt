-- ===== src/RtuAdapter/Contexts.antt =====
-- The contexts of the serial line that rtu_adapter.c allocates and frees.
use modbus_server.Prelude.{
  ℕ, ◌+◌, ◌≡◌, refl, ap, ◌∙◌, ◌⊎◌, inl, inr, ◌∷◌, Option, none, some, arith, if◌then◌else◌,
  Bool-cases, Option-cases, ◌==◌,
}
use modbus_server.Prelude.Int.{ℤ, pos, minus_one, eqb_ℤ}
use modbus_server.Foreign.Modbus.{Modbus}
use modbus_server.Config.{ModbusConfig}
use modbus_server.Platform.{platform_set_nonblocking}
use modbus_server.Machine.{
  created, freed, Env, Machine, times_created, times_freed, new_rtu, free_ctx, connect,
}
use modbus_server.RtuAdapter.{
  configure_rtu, connect_rtu, rtu_adapter_init, release_rtu, reconnect_rtu,
}

-- How often a pointer is a given context.
abbrev pub is_ctx : ℕ → Option ℕ → ℕ
is_ctx p none = 0
is_ctx p (some q) = if q == p then 1 else 0

-- Each context has been allocated as often as it was freed and is one of the backend's.
abbrev pub IsBalanced : {W : Type 0} → Machine W → Type 0
IsBalanced m =
    (p : ℕ)
    → times_created p m.env.log
      ≡ times_freed p m.env.log + is_ctx p m.backend.ctx_tcp + is_ctx p m.backend.ctx_rtu

module _ {W : Type 0} (lib : Modbus W) where
  configure_rtu-log :
      (config : ModbusConfig) (p : ℕ) (e : Env W) → (configure_rtu lib config p e).log ≡ e.log
  unfolding configure_rtu platform_set_nonblocking
  configure_rtu-log config p e = ground arith

  -- What connecting leaves: the new context and 0, or no context and -1.
  abbrev pub Connected : Machine W → ℤ × Machine W → Type 0
  Connected m r =
      ((p : ℕ) × (r.0 ≡ pos 0)
        × (r.1.backend ≡ record m.backend { ctx_rtu = some p })
        × (r.1.env.log ≡ created p ∷ m.env.log))
      ⊎ ((r.0 ≡ minus_one)
          × (r.1.backend ≡ record m.backend { ctx_rtu = none })
          × ((r.1.env.log ≡ m.env.log)
              ⊎ ((p : ℕ) × (r.1.env.log ≡ freed p ∷ created p ∷ m.env.log))))

  connect_rtu-Connected :
      (config : ModbusConfig) (p : ℕ) (m : Machine W) (e : Env W)
      → e.log ≡ created p ∷ m.env.log
      → Connected m (connect_rtu lib config p m.backend e)
  unfolding connect_rtu connect free_ctx
  connect_rtu-Connected config p m e h =
      let e' = configure_rtu lib config p e in
      let same = configure_rtu-log config p e ∙ h in
      elim (Bool-cases (eqb_ℤ (lib.connect (some p) e'.world).0 minus_one)) [
        | inl failed ↦ inr (rw failed, rw failed, inr (p, rw failed (ap (◌∷◌ (freed p)) same)))
        | inr done ↦ inl (p, rw done, rw done, rw done same)
      ]

  -- An initialisation answers 0 and leaves one new context in the backend, or answers -1, leaves no
  -- context for the serial line and has freed one that it allocated; the rest of the backend is as
  -- it was.
  pub rtu_init-Connected :
      (config : ModbusConfig) (m : Machine W) → Connected m (rtu_adapter_init lib config m)
  unfolding rtu_adapter_init new_rtu
  rtu_init-Connected config m = go (attempt m.env.world).0 refl
    where
      attempt : W → Option ℕ × W
      attempt =
          lib.new_rtu config.serial_device config.baudrate config.parity config.data_bits
            config.stop_bits

      go :
          (ctx : Option ℕ)
          → (attempt m.env.world).0 ≡ ctx
          → Connected m (rtu_adapter_init lib config m)
      go none h = rw (h, rtu_adapter_init) (inr (refl, refl, inl (rw h)))
      go (some p) h =
          rw (h, rtu_adapter_init)
            (connect_rtu-Connected config p m
              (new_rtu lib config.serial_device config.baudrate config.parity config.data_bits
                config.stop_bits m.env).1
              (rw h))

  Connected-IsBalanced :
      (m : Machine W) (r : ℤ × Machine W)
      → m.backend.ctx_rtu ≡ none
      → Connected m r
      → IsBalanced m
      → IsBalanced r.1
  Connected-IsBalanced m r empty (inl (p, _, eb, el)) b q = rw (eb, el) (ground (arith, b q))
  Connected-IsBalanced m r empty (inr (_, eb, inl el)) b q = rw (eb, el) (ground (arith, b q))
  Connected-IsBalanced m r empty (inr (_, eb, inr (p, el))) b q = rw (eb, el) (ground (arith, b q))

  -- An initialisation of a backend without a context for the serial line leaks none.
  pub rtu_init-IsBalanced :
      (config : ModbusConfig) (m : Machine W)
      → m.backend.ctx_rtu ≡ none
      → IsBalanced m
      → IsBalanced (rtu_adapter_init lib config m).1
  rtu_init-IsBalanced config m empty b =
      Connected-IsBalanced m (rtu_adapter_init lib config m) empty (rtu_init-Connected config m) b

  release_rtu-IsBalanced : (m : Machine W) → IsBalanced m → IsBalanced (release_rtu lib m)
  unfolding release_rtu free_ctx
  release_rtu-IsBalanced m b q = elim (Option-cases m.backend.ctx_rtu) [
    | inl empty ↦ ground (arith, b q)
    | inr (p, here) ↦ ground (arith, b q)
  ]

  release_rtu-none :
      (m : Machine W) → (release_rtu lib m).backend ≡ record m.backend { ctx_rtu = none }
  unfolding release_rtu
  release_rtu-none m = ground arith

  -- A reconnection is a cleanup and then an initialisation.
  pub reconnect_rtu_lem :
      (config : ModbusConfig) (m : Machine W)
      → reconnect_rtu lib config m ≡ rtu_adapter_init lib config (release_rtu lib m)
  unfolding reconnect_rtu rtu_adapter_init
  reconnect_rtu_lem config m = refl

  -- Where every context has been allocated as often as it was freed and is held, a reconnection of
  -- the serial line keeps that so, on every path.
  pub reconnect_rtu-IsBalanced :
      (config : ModbusConfig) (m : Machine W)
      → IsBalanced m
      → IsBalanced (reconnect_rtu lib config m).1
  reconnect_rtu-IsBalanced config m b = rw (reconnect_rtu_lem config m) (
      rtu_init-IsBalanced config (release_rtu lib m) (ap (λ r. r.ctx_rtu) (release_rtu-none m))
        (release_rtu-IsBalanced m b))
