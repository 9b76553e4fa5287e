-- ===== src/ByteOrder/Copying.antt =====
-- What the loop at the end of `write_registers` of byte_order.c copies, and where it fails.
use modbus_server.Prelude.{
  ℕ, zero, suc, ◌+◌, ◌-◌, ◌≤◌, ◌<◌, ◌≡◌, refl, ◌∙◌, inl, inr, ◌&&◌, List, some, arith, length,
  get_elem?, set, length-set, get_elem?-set_self, get_elem?-set_ne, get_elem?-lt, ltb, leb, ◌==◌,
  if◌then◌else◌, Bool-cases,
}
use modbus_server.Prelude.Int.{pos-add, ℤ, pos, ◌+ℤ◌}
use modbus_server.Clib.Fault.{ok, fault, out_of_bounds, bind-ok}
use modbus_server.Clib.Memory.{
  load, store, load_in_bounds, store_in_bounds, store_outside, store-length,
}
use modbus_server.ByteOrder.{copy_words}

-- The array `r` is `regs` with `words`, from its `i`-th word on, laid over it at `s`.
abbrev pub Overlaid : ℕ → ℕ → List ℕ → List ℕ → List ℕ → Type 0
Overlaid s i words regs r =
    (length r ≡ length regs)
    × ((j : ℕ)
        → get_elem? r j ≡ (
            if leb (s + i) j && ltb j (s + length words)
            then get_elem? words (j - s)
            else get_elem? regs j))

Overlaid-set :
    (s i w : ℕ) (words regs r : List ℕ)
    → get_elem? words i ≡ some w
    → s + i < length regs
    → Overlaid s (i + 1) words (set regs (s + i) w) r
    → i < length words
    → Overlaid s i words regs r
Overlaid-set s i w words regs r e h (l, at) lt = (
  l ∙ length-set regs (s + i) w,
  λ j. elim (Bool-cases (s + i == j)) [
    | inl same ↦ ground (arith, at j, get_elem?-set_self regs (s + i) w h)
    | inr other ↦ ground (arith, at j, get_elem?-set_ne regs {i = s + i} {j = j} w)
  ],
)

pub copy_words-Overlaid :
    (left i s : ℕ) (words regs : List ℕ)
    → i + left ≡ length words
    → s + length words ≤ length regs
    → (r : List ℕ) × (copy_words left i (pos s) words regs ≡ ok r) × Overlaid s i words regs r
unfolding copy_words
copy_words-Overlaid zero i s words regs e h = (regs, refl, (refl, λ j. ground arith))
copy_words-Overlaid (suc left) i s words regs e h =
    let (w, at) = get_elem?-lt words i (omega arith) in
    let (r, run, over) =
      copy_words-Overlaid left (i + 1) s words (set regs (s + i) w) (omega arith)
        (omega (arith, length-set regs (s + i) w)) in
    (
      r,
      rw (load_in_bounds words i at, pos-add s i, store_in_bounds regs (s + i) w (omega arith)) run,
      Overlaid-set s i w words regs r at (omega arith) over (omega arith),
    )

pub copy_words_outside :
    (left i s : ℕ) (words regs : List ℕ)
    → i + left ≡ length words
    → 0 < left
    → length regs < s + length words
    → copy_words left i (pos s) words regs ≡ fault out_of_bounds
unfolding copy_words
copy_words_outside zero i s words regs e p h = absurd (omega arith)
copy_words_outside (suc left) i s words regs e p h =
    let (w, at) = get_elem?-lt words i (omega arith) in
    rw (load_in_bounds words i at, pos-add s i)
      (elim (Bool-cases (ltb (s + i) (length regs))) [
        | inl inside ↦ rw (store_in_bounds regs (s + i) w (ground arith)) (
            copy_words_outside left (i + 1) s words (set regs (s + i) w) (omega arith)
              (ground arith) (omega (arith, length-set regs (s + i) w)))
        | inr outside ↦ rw (store_outside regs (s + i) w (ground arith))
      ])

pub copy_words-length :
    (left i : ℕ) (start : ℤ) (words regs : List ℕ) {r : List ℕ}
    → copy_words left i start words regs ≡ ok r
    → length r ≡ length regs
unfolding copy_words
copy_words-length zero i start words regs e = ground arith
copy_words-length (suc left) i start words regs e =
    let (w, _, e') = bind-ok (load words (pos i)) _ e in
    let (regs', put, rest) = bind-ok (store regs (start +ℤ pos i) w) _ e' in
    copy_words-length left (i + 1) start words regs' rest ∙ store-length regs (start +ℤ pos i) w put
