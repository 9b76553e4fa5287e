-- ===== src/Platform/Tests.antt =====
-- The functions of src/utils/platform.c at concrete inputs.
use modbus_server.Prelude.{ℕ, ◌≡◌, ◌⊎◌, ◌↔◌, ◌≢◌, true, List, Option, none, some, length}
use modbus_server.Prelude.Int.{pos, minus_one, ltb_ℤ, ◌≤ℤ◌}
use modbus_server.Clib.Text.{codes}
use modbus_server.Platform.{platform_read_stdin}
use modbus_server.Platform.Windows
use modbus_server.Platform.Windows.{read_stdin_versions}
use modbus_server.Platform.Laws.{IsGiven, read_stdin_lem}

-- A line, of which the buffer has the length.
read_stdin_lem_example :
    (let r = platform_read_stdin (pos 1) true (some (codes "stop")) (codes "old") in
      ((r.0 ≡ minus_one) ↔ (ltb_ℤ (pos 1) (pos 0) ≡ true))
      × (((text : List ℕ) × IsGiven (pos 1) true (some (codes "stop")) text
            × (r ≡ (pos (length text), text)))
          ⊎ (¬ ((text : List ℕ) × IsGiven (pos 1) true (some (codes "stop")) text)
              × (r.0 ≤ℤ pos 0)
              × (r.1 ≡ codes "old"))))
read_stdin_lem_example = read_stdin_lem (pos 1) true (some (codes "stop")) (codes "old")

-- The parent process is gone.
abbrev gone : Option (List ℕ)
gone = none

read_stdin_versions_example :
    (let linux = platform_read_stdin (pos 1) true gone (codes "old") in
      let windows = Windows.platform_read_stdin true gone (codes "old") in
      (linux.1 ≡ windows.1)
      × ((linux.0 ≡ windows.0) ↔ (¬ ((true ≡ true) × (gone ≡ none))))
      × ((windows.0 ≡ minus_one) ↔ ((true ≡ true) × (gone ≡ none)))
      × (linux.0 ≢ minus_one))
read_stdin_versions_example = read_stdin_versions true gone (codes "old")
