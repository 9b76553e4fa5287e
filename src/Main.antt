-- ===== src/Main.antt =====
-- src/main.c: the program that the modules of src/ belong to. The functions that
-- src/core/server_controller.h declares are defined nowhere in the repository; they are an argument,
-- as is the platform.
pub mod Calls
mod Tests
use modbus_server.Prelude.{
  ℕ, Bool, true, false, not, List, [], ◌∷◌, Option, none, some, if◌then◌else◌,
}
use modbus_server.Prelude.Int.{ℤ, pos, eqb_ℤ}
use modbus_server.Clib.Text.{codes}
use modbus_server.Backend.{Backend}
use modbus_server.Config.{ModbusConfig}
use modbus_server.JsonCommand.{ServerState, state_running}
use modbus_server.Platform.{platform_init, platform_cleanup}

-- `ServerController`
pub record Controller : Type 0 where
  pub config : ModbusConfig
  pub backend : Option Backend
  pub state : ServerState
  pub running : Bool

-- The platform, and the functions of the controller.
pub record Program (W : Type 0) : Type 0 where
  pub platform_up : W → ℤ × W
  pub platform_down : W → W
  pub server_controller_create : List ℕ → W → Option Controller × W
  pub server_controller_destroy : Controller → W → W
  pub server_controller_run : Controller → W → ℤ × Controller × W

-- A call that the program makes, with its answer.
pub data Call : Type 0 where
  called_init : ℤ → Call
  called_create : List ℕ → Option Controller → Call
  called_run : Controller → ℤ → Call
  called_destroy : Call
  called_cleanup : Call

-- The outside world, and the calls so far, the last one first. No function reads the calls.
pub record Traced (W : Type 0) : Type 0 where
  pub world : W
  pub calls : List Call

abbrev pub exit_success : ℕ
exit_success = 0

abbrev pub exit_failure : ℕ
exit_failure = 1

-- `argv`, with the program's name first.
unfoldable pub config_file : List (List ℕ) → List ℕ
config_file (_ ∷ file ∷ _) = file
config_file (_ ∷ []) = codes "modbus_config.json"
config_file [] = codes "modbus_config.json"

-- The platform of Linux.
abbrev pub on_linux : {W : Type 0} → Program W → Program W
on_linux p = record p { platform_up = λ w. (platform_init, w); platform_down = platform_cleanup }

module _ {W : Type 0} (p : Program W) where
  -- The calls of the program, each with its entry.
  unfoldable pub call_init : Traced W → ℤ × Traced W
  call_init t =
      let (rc, w) = p.platform_up t.world in
      (rc, record { world = w; calls = called_init rc ∷ t.calls })

  unfoldable pub call_cleanup : Traced W → Traced W
  call_cleanup t = record { world = p.platform_down t.world; calls = called_cleanup ∷ t.calls }

  unfoldable pub call_create : List ℕ → Traced W → Option Controller × Traced W
  call_create file t =
      let (created, w) = p.server_controller_create file t.world in
      (created, record { world = w; calls = called_create file created ∷ t.calls })

  unfoldable pub call_destroy : Controller → Traced W → Traced W
  call_destroy controller t = record {
    world = p.server_controller_destroy controller t.world;
    calls = called_destroy ∷ t.calls;
  }

  unfoldable pub call_run : Controller → Traced W → ℤ × Controller × Traced W
  call_run controller t =
      let (ret, ended, w) = p.server_controller_run controller t.world in
      (ret, ended, record { world = w; calls = called_run controller ret ∷ t.calls })

  -- What follows the creation: the state is set, the server runs, and all is given back.
  unfoldable pub run_controller : Controller → Traced W → ℕ × Traced W
  run_controller controller t =
      let (ret, ended, t1) = call_run (record controller { state = state_running }) t in
      let t2 = call_cleanup (call_destroy ended t1) in
      (if eqb_ℤ ret (pos 0) then exit_success else exit_failure, t2)

  unfoldable pub with_controller : List ℕ → Traced W → ℕ × Traced W
  with_controller file t =
      let (created, t1) = call_create file t in
      elim created [
        | none ↦ (exit_failure, call_cleanup t1)
        | some controller ↦ run_controller controller t1
      ]

  -- The exit status, and what was called.
  unfoldable pub main : List (List ℕ) → W → ℕ × Traced W
  main argv w =
      let (rc, t) = call_init (record { world = w; calls = [] }) in
      if not (eqb_ℤ rc (pos 0)) then (exit_failure, t) else with_controller (config_file argv) t
