-- ===== src/Platform/Laws.antt =====
-- The waiting and the number of processors in src/utils/platform.c.
use modbus_server.Prelude.{
  ℕ, ◌+◌, ◌*◌, ◌<◌, ◌≡◌, ◌⊎◌, ◌↔◌, refl, inl, inr, Bool, true, List, Option, none, some, arith,
  length, Bool-cases, ◌&&◌,
}
use modbus_server.Prelude.Int.{ℤ, pos, minus_one, ltb_ℤ, ◌≤ℤ◌}
use modbus_server.Platform.{timeout_parts, platform_read_stdin, platform_get_nprocs}

-- The seconds and microseconds that select gets add up to the time in milliseconds, with fewer than
-- a million microseconds.
pub timeout_parts_lem :
    (ms : ℕ)
    → ((timeout_parts ms).0 * 1000000 + (timeout_parts ms).1 ≡ ms * 1000)
      × ((timeout_parts ms).1 < 1000000)
unfolding timeout_parts
timeout_parts_lem ms = (omega arith, omega arith)

-- The standard input is ready, and gives a line.
abbrev pub IsGiven : ℤ → Bool → Option (List ℕ) → List ℕ → Type 0
IsGiven ret is_set line text = (pos 1 ≤ℤ ret) × (is_set ≡ true) × (line ≡ some text)

-- Platform_read_stdin answers -1 where select failed, and nowhere else. It puts a line into the
-- buffer, and answers its length, where select found something, the standard input is in its set,
-- and fgets gives that line; wherever that is not so, the answer is not positive, and the buffer is
-- as it was.
pub read_stdin_lem :
    (ret : ℤ) (is_set : Bool) (line : Option (List ℕ)) (buf : List ℕ)
    → (let r = platform_read_stdin ret is_set line buf in
        ((r.0 ≡ minus_one) ↔ (ltb_ℤ ret (pos 0) ≡ true))
        × (((text : List ℕ) × IsGiven ret is_set line text × (r ≡ (pos (length text), text)))
            ⊎ (¬ ((text : List ℕ) × IsGiven ret is_set line text) × (r.0 ≤ℤ pos 0) × (r.1 ≡ buf))))
unfolding platform_read_stdin
read_stdin_lem ret is_set none buf =
    (ground arith, inr (λ (text, given). absurd (cc), ground arith, ground arith))
read_stdin_lem ret is_set (some line) buf = elim (Bool-cases (ltb_ℤ (pos 0) ret && is_set)) [
  | inl ready ↦ (ground arith, inl (line, (ground arith, ground arith, refl), rw ready refl))
  | inr quiet ↦ (
    ground arith,
    inr (λ (text, (some_ready, set, same)). absurd (ground arith), ground arith, ground arith),
  )
]

-- There is always at least one processor.
pub nprocs-positive : (n : ℤ) → pos 1 ≤ℤ platform_get_nprocs n
unfolding platform_get_nprocs
nprocs-positive n = ground arith
