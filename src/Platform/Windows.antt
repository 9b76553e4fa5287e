-- ===== src/Platform/Windows.antt =====
-- src/utils/platform.c, the branch for Windows. Winsock, the console and the system are known by
-- the answers of their calls, which the functions get as arguments.
use modbus_server.Prelude.{
  ℕ, ◌+◌, ◌*◌, ◌%◌, ◌^◌, ◌≡◌, ◌≢◌, ◌↔◌, Bool, true, false, not, List, [], ◌∷◌, Option, none, some,
  arith, length, if◌then◌else◌,
}
use modbus_server.Prelude.Int.{ℤ, pos, minus_one, eqb_ℤ}
use modbus_server.Clib.Word.{signed32}
use modbus_server.Platform

-- The calls of Winsock that the functions make.
pub data Winsock : Type 0 where
  -- `WSAStartup(MAKEWORD(2, 2), &wsaData)`, with the version asked for
  wsa_startup : ℕ → Winsock
  -- `WSACleanup()`
  wsa_cleanup : Winsock

-- `MAKEWORD(low, high)`
abbrev makeword : ℕ → ℕ → ℕ
makeword low high = low % 2 ^ 8 + high % 2 ^ 8 * 2 ^ 8

-- `result` is the answer of `WSAStartup`: the status and the calls.
unfoldable pub platform_init : ℤ → ℤ × List Winsock
platform_init result =
    (if not (eqb_ℤ result (pos 0)) then minus_one else pos 0, wsa_startup (makeword 2 2) ∷ [])

unfoldable pub platform_cleanup : List Winsock
platform_cleanup = wsa_cleanup ∷ []

-- Whether a key has been hit, the line that `fgets` puts into the buffer, if it gives one, and the
-- buffer. The time-out is not used.
unfoldable pub platform_read_stdin : Bool → Option (List ℕ) → List ℕ → ℤ × List ℕ
platform_read_stdin hit line buf =
    if hit
    then elim line [ some text ↦ (pos (length text), text) | none ↦ (minus_one, buf) ]
    else (pos 0, buf)

-- `rc` is the answer of `ioctlsocket(fd, FIONBIO, &mode)`; SOCKET_ERROR is -1.
unfoldable pub platform_set_nonblocking : ℤ → ℤ
platform_set_nonblocking rc = if eqb_ℤ rc minus_one then minus_one else pos 0

-- `dwNumberOfProcessors`, a number of 32 bits that is made an `int`.
unfoldable pub platform_get_nprocs : ℕ → ℤ
platform_get_nprocs n = signed32 n

-- Where the waiting does not fail and the input is ready or not, the branches of
-- platform_read_stdin for Linux and Windows leave the same buffer and give the same number except
-- at the end of the input, which is -1 on Windows only.
pub read_stdin_versions :
    (ready : Bool) (line : Option (List ℕ)) (buf : List ℕ)
    → (let linux = Platform.platform_read_stdin (if ready then pos 1 else pos 0) ready line buf in
        let windows = platform_read_stdin ready line buf in
        (linux.1 ≡ windows.1)
        × ((linux.0 ≡ windows.0) ↔ (¬ ((ready ≡ true) × (line ≡ none))))
        × ((windows.0 ≡ minus_one) ↔ ((ready ≡ true) × (line ≡ none)))
        × (linux.0 ≢ minus_one))
unfolding Platform.platform_read_stdin platform_read_stdin
read_stdin_versions false line buf = ground arith
read_stdin_versions true none buf = ground arith
read_stdin_versions true (some text) buf = ground arith
