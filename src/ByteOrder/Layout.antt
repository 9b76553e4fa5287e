-- ===== src/ByteOrder/Layout.antt =====
-- What `write_registers` of byte_order.c leaves in the register array.
use modbus_server.Prelude.{
  ℕ, zero, suc, ◌+◌, ◌-◌, ◌*◌, ◌^◌, ◌≤◌, ◌<◌, ◌≡◌, refl, ap, ◌∙◌, ◌&&◌, List, [], ◌∷◌, map, some,
  arith, length, get_elem?, set, length-set, length-map, get_elem?-lt, ltb, leb, ◌==◌,
  if◌then◌else◌,
}
use native.Mathlib.Numerals.{add-one}
use native.Mathlib.Nat.{add-zero}
use modbus_server.Prelude.Int.{ℤ, pos}
use modbus_server.Clib.Fault.{ok, fault, out_of_bounds, bind-ok}
use modbus_server.Clib.Memory.{load, store, load_in_bounds, store_in_bounds}
use modbus_server.ByteOrder.{
  ByteOrder, order_le, order_be, order_swap, swap_words, exchange, copy_words, is_swap, is_be,
  write_registers,
}
use modbus_server.ByteOrder.Words.{swap_bytes, swap_bytes_twice}
use modbus_server.ByteOrder.Copying.{copy_words-Overlaid, copy_words_outside, copy_words-length}

-- The words from the `i`-th on, each with its bytes swapped.
swap_from : ℕ → List ℕ → List ℕ
swap_from zero ws = map swap_bytes ws
swap_from (suc i) [] = []
swap_from (suc i) (w ∷ ws) = w ∷ swap_from i ws

swap_from-length : (ws : List ℕ) (i : ℕ) → i ≡ length ws → swap_from i ws ≡ ws
unfolding swap_from
swap_from-length [] zero e = refl
swap_from-length [] (suc i) e = refl
swap_from-length (w ∷ ws) zero e = absurd (omega arith)
swap_from-length (w ∷ ws) (suc i) e = rw (swap_from-length ws i (omega arith))

swap_from-set :
    (i w : ℕ) (ws : List ℕ)
    → get_elem? ws i ≡ some w
    → swap_from (suc i) (set ws i (swap_bytes w)) ≡ swap_from i ws
unfolding swap_from
swap_from-set i w [] e = absurd (cc)
swap_from-set zero w (x ∷ ws) e = ground arith
swap_from-set (suc i) w (x ∷ ws) e = rw (swap_from-set i w ws e)

swap_words_lem :
    (left i : ℕ) (ws : List ℕ) → i + left ≡ length ws → swap_words left i ws ≡ ok (swap_from i ws)
unfolding swap_words
swap_words_lem zero i ws e = rw (swap_from-length ws i (omega arith))
swap_words_lem (suc left) i ws e =
    let (w, at) = get_elem?-lt ws i (omega arith) in
    rw (load_in_bounds ws i at, store_in_bounds ws i (swap_bytes w) (omega arith))
      (swap_words_lem left (i + 1) (set ws i (swap_bytes w))
          (omega (arith, length-set ws i (swap_bytes w)))
        ∙ ap ok (rw add-one (swap_from-set i w ws at)))

-- The words in the order in which they go into the registers.
abbrev pub arrange : ByteOrder → List ℕ → List ℕ
arrange order_le ws = ws
arrange order_swap ws = map swap_bytes ws
arrange order_be (a ∷ b ∷ []) = b ∷ a ∷ []
arrange order_be ws = ws

pub length-arrange : (o : ByteOrder) (ws : List ℕ) → length (arrange o ws) ≡ length ws
length-arrange order_le ws = refl
length-arrange order_swap ws = length-map ws swap_bytes
length-arrange order_be [] = refl
length-arrange order_be (a ∷ []) = refl
length-arrange order_be (a ∷ b ∷ []) = refl
length-arrange order_be (a ∷ b ∷ c ∷ ws) = refl

-- The two steps before the copy arrange the words.
write_registers-arrange :
    (o : ByteOrder) (s : ℕ) (ws regs : List ℕ)
    → write_registers (pos s) ws (length ws) o regs
      ≡ copy_words (length ws) 0 (pos s) (arrange o ws) regs
unfolding write_registers exchange load store swap_from
write_registers-arrange order_le s ws regs = refl
write_registers-arrange order_swap s ws regs = rw (swap_words_lem (length ws) 0 ws (omega arith))
write_registers-arrange order_be s [] regs = refl
write_registers-arrange order_be s (a ∷ []) regs = refl
write_registers-arrange order_be s (a ∷ b ∷ []) regs = refl
write_registers-arrange order_be s (a ∷ b ∷ c ∷ ws) regs = ground arith

-- The array `r` is `regs` with `words` laid over it at `s`.
abbrev pub Written : ℕ → List ℕ → List ℕ → List ℕ → Type 0
Written s words regs r =
    (length r ≡ length regs)
    × ((j : ℕ)
        → get_elem? r j ≡ (
            if leb s j && ltb j (s + length words)
            then get_elem? words (j - s)
            else get_elem? regs j))

-- Words that fit behind the start index, however many and in whatever order, are written: the call
-- succeeds, the registers there hold the arranged words, and all others and the length are as
-- before.
pub write_registers_lem :
    (o : ByteOrder) (s : ℕ) (ws regs : List ℕ)
    → s + length ws ≤ length regs
    → (r : List ℕ) × (write_registers (pos s) ws (length ws) o regs ≡ ok r)
      × Written s (arrange o ws) regs r
write_registers_lem o s ws regs h =
    let (r, run, over) =
      copy_words-Overlaid (length ws) 0 s (arrange o ws) regs (omega (arith, length-arrange o ws))
        (omega (arith, length-arrange o ws)) in
    (r, write_registers-arrange o s ws regs ∙ run, (over.0, λ j. ground (arith, over.1 j)))

-- Where the words do not fit behind `s`, the call writes outside the array.
pub write_registers_outside :
    (o : ByteOrder) (s : ℕ) (ws regs : List ℕ)
    → 0 < length ws
    → length regs < s + length ws
    → write_registers (pos s) ws (length ws) o regs ≡ fault out_of_bounds
write_registers_outside o s ws regs p h =
    write_registers-arrange o s ws regs
    ∙ copy_words_outside (length ws) 0 s (arrange o ws) regs (omega (arith, length-arrange o ws)) p
        (omega (arith, length-arrange o ws))

-- A call that returns leaves the array as long as it was.
pub write_registers-length :
    (start : ℤ) (words : List ℕ) (count : ℕ) (o : ByteOrder) (regs : List ℕ) {r : List ℕ}
    → write_registers start words count o regs ≡ ok r
    → length r ≡ length regs
unfolding write_registers
write_registers-length start words count o regs e =
    let (swapped, _, e') = bind-ok (if is_swap o then swap_words count 0 words else ok words) _ e in
    let (ordered, _, e'') =
      bind-ok (if is_be o && count == 2 then exchange swapped else ok swapped) _ e' in
    copy_words-length count 0 start ordered regs e''

-- The value that a client reads from two registers under an order.
abbrev pub value_of : ByteOrder → ℕ → ℕ → ℕ
value_of order_le a b = b * 2 ^ 16 + a
value_of order_be a b = a * 2 ^ 16 + b
value_of order_swap a b = swap_bytes b * 2 ^ 16 + swap_bytes a

-- Reading through `Written`.
Written-at :
    (s k : ℕ) (ws regs r : List ℕ)
    → Written s ws regs r
    → k < length ws
    → get_elem? r (s + k) ≡ get_elem? ws k
Written-at s k ws regs r w h = ground (arith, w.1 (s + k))

read_back :
    (o : ByteOrder) (s lo hi : ℕ) (regs r : List ℕ)
    → lo < 2 ^ 16
    → hi < 2 ^ 16
    → Written s (arrange o (lo ∷ hi ∷ [])) regs r
    → (a : ℕ) × (b : ℕ) × (get_elem? r s ≡ some a)
      × (get_elem? r (s + 1) ≡ some b)
      × (value_of o a b ≡ hi * 2 ^ 16 + lo)
read_back order_le s lo hi regs r hl hh w =
    let at0 = Written-at s 0 (lo ∷ hi ∷ []) regs r w (omega arith) in
    (lo, hi, rw add-zero at at0, Written-at s 1 (lo ∷ hi ∷ []) regs r w (omega arith), refl)
read_back order_be s lo hi regs r hl hh w =
    let at0 = Written-at s 0 (hi ∷ lo ∷ []) regs r w (omega arith) in
    (hi, lo, rw add-zero at at0, Written-at s 1 (hi ∷ lo ∷ []) regs r w (omega arith), refl)
read_back order_swap s lo hi regs r hl hh w =
    let at0 = Written-at s 0 (swap_bytes lo ∷ swap_bytes hi ∷ []) regs r w (omega arith) in
    (
      swap_bytes lo,
      swap_bytes hi,
      rw add-zero at at0,
      Written-at s 1 (swap_bytes lo ∷ swap_bytes hi ∷ []) regs r w (omega arith),
      omega (arith, swap_bytes_twice lo hl, swap_bytes_twice hi hh),
    )

-- A 32-bit value, as low and high word of 16 bits, that fits behind the start index is read back
-- under the same byte order from the two registers it was written to.
pub write_registers-value_of :
    (o : ByteOrder) (s lo hi : ℕ) (regs : List ℕ)
    → lo < 2 ^ 16
    → hi < 2 ^ 16
    → s + 2 ≤ length regs
    → (r : List ℕ) × (a : ℕ) × (b : ℕ) × (write_registers (pos s) (lo ∷ hi ∷ []) 2 o regs ≡ ok r)
      × (get_elem? r s ≡ some a)
      × (get_elem? r (s + 1) ≡ some b)
      × (value_of o a b ≡ hi * 2 ^ 16 + lo)
write_registers-value_of o s lo hi regs hl hh fits =
    let (r, run, over) = write_registers_lem o s (lo ∷ hi ∷ []) regs fits in
    let (a, b, at0, at1, v) = read_back o s lo hi regs r hl hh over in (r, a, b, run, at0, at1, v)
