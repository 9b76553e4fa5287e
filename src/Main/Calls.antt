-- ===== src/Main/Calls.antt =====
-- What the `main` of src/main.c answers, and what it gives back.
use modbus_server.Prelude.{
  ℕ, ◌+◌, ◌≡◌, ◌↔◌, inl, inr, Bool, true, false, List, [], ◌∷◌, some, arith, if◌then◌else◌,
  Option-cases,
}
use modbus_server.Prelude.Int.{pos, eqb_ℤ}
use modbus_server.JsonCommand.{state_running, state_stopped}
use modbus_server.Main.{
  Program, Call, called_init, called_create, called_run, called_destroy, called_cleanup,
  exit_success, config_file, call_init, call_cleanup, call_create, call_destroy, call_run,
  run_controller, with_controller, main,
}

-- How often the platform was initialised with success, and cleaned up; how often a controller was
-- created, and destroyed.
abbrev pub ups : List Call → ℕ
ups [] = 0
ups (called_init rc ∷ calls) = (if eqb_ℤ rc (pos 0) then 1 else 0) + ups calls
ups (_ ∷ calls) = ups calls

abbrev pub downs : List Call → ℕ
downs [] = 0
downs (called_cleanup ∷ calls) = 1 + downs calls
downs (_ ∷ calls) = downs calls

abbrev pub creations : List Call → ℕ
creations [] = 0
creations (called_create _ (some _) ∷ calls) = 1 + creations calls
creations (_ ∷ calls) = creations calls

abbrev pub destructions : List Call → ℕ
destructions [] = 0
destructions (called_destroy ∷ calls) = 1 + destructions calls
destructions (_ ∷ calls) = destructions calls

-- Whether the controller ran, in the running state, and answered 0.
abbrev pub ran_well : List Call → Bool
ran_well [] = false
ran_well (called_run c ret ∷ calls) = elim c.state [
  | state_running ↦ eqb_ℤ ret (pos 0)
  | state_stopped ↦ false
]
ran_well (_ ∷ calls) = ran_well calls

module _ {W : Type 0} (p : Program W) where
  -- The program exits with success exactly where the controller was run, in the running state, and
  -- answered 0; whatever fails, the platform is cleaned up as often as it was initialised, and the
  -- controller destroyed as often as it was created.
  pub main-Balanced :
      (argv : List (List ℕ)) (w : W)
      → (let r = main p argv w in
          ((r.0 ≡ exit_success) ↔ (ran_well r.1.calls ≡ true))
          × (ups r.1.calls ≡ downs r.1.calls)
          × (creations r.1.calls ≡ destructions r.1.calls))
  unfolding main with_controller run_controller call_init call_cleanup call_create call_destroy
      call_run
  main-Balanced argv w =
      let w1 = (p.platform_up w).1 in
      elim (Option-cases (p.server_controller_create (config_file argv) w1).0) [
        | inl refused ↦ ground arith
        | inr (c, made) ↦ ground arith
      ]
