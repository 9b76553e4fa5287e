-- ===== src/ByteOrder/Words.antt =====
-- The byte swap of a 16-bit word, as byte_order.c and json_command.c spell it, by arithmetic.
use Prim.Native.Nat.{bit_or}
use modbus_server.Prelude.{
  ℕ, zero, suc, ◌+◌, ◌*◌, ◌/◌, ◌%◌, ◌^◌, ◌<◌, ◌≡◌, refl, Bool, true, ◌&&◌, arith, ◌==◌, ==_iff,
  subst,
}

-- `(uint16_t)((w >> 8) | (w << 8))`
unfoldable pub swap_bytes : ℕ → ℕ
swap_bytes w = bit_or (w / 2 ^ 8) (w * 2 ^ 8) % 2 ^ 16

-- A test of the numbers below a limit, from the greatest down.
holds_below : (ℕ → Bool) → ℕ → Bool
holds_below test zero = true
holds_below test (suc limit) = holds_below test limit && test limit

test_at :
    (test : ℕ → Bool) (limit w : ℕ) → holds_below test limit ≡ true → w < limit → test w ≡ true
unfolding holds_below
test_at test zero w all below = absurd (omega arith)
test_at test (suc limit) w all below = ground (arith, test_at test limit w)

abbrev is_swapped : ℕ → Bool
is_swapped w = swap_bytes w == w / 256 + w % 256 * 256

all_swapped : holds_below is_swapped 65536 ≡ true
unfolding holds_below swap_bytes
all_swapped = refl

abbrev is_joined : ℕ → Bool
is_joined w = bit_or (w / 256 * 256) (w % 256) == w

all_joined : holds_below is_joined 65536 ≡ true
unfolding holds_below
all_joined = refl

-- A byte above another.
pub bit_or-bytes : (a b : ℕ) → a < 256 → b < 256 → bit_or (a * 2 ^ 8) b ≡ a * 256 + b
bit_or-bytes a b ha hb =
    let w = a * 256 + b in
    let joined : bit_or (w / 256 * 256) (w % 256) ≡ w =
      (==_iff _ _).0 (test_at is_joined 65536 w all_joined (omega arith)) in
    let high : w / 256 ≡ a = omega arith in
    let low : w % 256 ≡ b = omega arith in
    subst (λ n. bit_or (n * 256) b ≡ w) high (subst (λ n. bit_or (w / 256 * 256) n ≡ w) low joined)

-- The swap puts the low byte above the high byte.
pub swap_bytes_lem : (w : ℕ) → w < 65536 → swap_bytes w ≡ w / 256 + w % 256 * 256
swap_bytes_lem w h = (==_iff _ _).0 (test_at is_swapped 65536 w all_swapped h)

pub swap_bytes-lt : (w : ℕ) → w < 65536 → swap_bytes w < 65536
swap_bytes-lt w h = omega (arith, swap_bytes_lem w h)

-- Swapping twice gives the word back.
pub swap_bytes_twice : (w : ℕ) → w < 65536 → swap_bytes (swap_bytes w) ≡ w
swap_bytes_twice w h =
    omega (arith, swap_bytes_lem w h, swap_bytes_lem (swap_bytes w) (swap_bytes-lt w h))
