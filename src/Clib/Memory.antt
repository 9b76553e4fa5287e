-- ===== src/Clib/Memory.antt =====
-- An array of 16-bit words, indexed by an `int`: an access outside it is a fault.
use modbus_server.Prelude.{
  ℕ, ◌≤◌, ◌<◌, ◌≡◌, List, none, some, arith, length, get_elem?, set, length-set, ltb, if◌then◌else◌,
  zero, suc, ◌^◌, [], ◌∷◌, inl, inr, subst, All, All-set, Bool-cases, Option-cases,
}
use modbus_server.Prelude.Int.{ℤ, pos, negsuc}
use modbus_server.Clib.Fault.{Result, ok, fault, out_of_bounds, Holds}

-- `a[i]`
unfoldable pub load : List ℕ → ℤ → Result ℕ
load a (negsuc _) = fault out_of_bounds
load a (pos i) = elim (get_elem? a i) [ none ↦ fault out_of_bounds | some v ↦ ok v ]

-- `a[i] = v`
unfoldable pub store : List ℕ → ℤ → ℕ → Result (List ℕ)
store a (negsuc _) v = fault out_of_bounds
store a (pos i) v = if ltb i (length a) then ok (set a i v) else fault out_of_bounds

pub store_in_bounds : (a : List ℕ) (i v : ℕ) → i < length a → store a (pos i) v ≡ ok (set a i v)
unfolding store
store_in_bounds a i v h = ground arith

pub store_outside : (a : List ℕ) (i v : ℕ) → length a ≤ i → store a (pos i) v ≡ fault out_of_bounds
unfolding store
store_outside a i v h = ground arith

pub load_in_bounds : (a : List ℕ) (i : ℕ) {v : ℕ} → get_elem? a i ≡ some v → load a (pos i) ≡ ok v
unfolding load
load_in_bounds a i h = ground arith

pub store-length :
    (a : List ℕ) (i : ℤ) (v : ℕ) {r : List ℕ} → store a i v ≡ ok r → length r ≡ length a
unfolding store
store-length a (negsuc n) v e = cc
store-length a (pos n) v e = ground (arith, length-set a n v)

-- The values of an array of `uint16_t`.
abbrev pub IsWord : ℕ → Type 0
IsWord w = w < 2 ^ 16

abbrev pub IsWords : List ℕ → Type 0
IsWords a = All IsWord a

get_elem?-IsWord : (a : List ℕ) (i : ℕ) {v : ℕ} → IsWords a → get_elem? a i ≡ some v → IsWord v
get_elem?-IsWord [] i h e = absurd (cc)
get_elem?-IsWord (w ∷ a) zero (this, those) e = ground arith
get_elem?-IsWord (w ∷ a) (suc i) (this, those) e = get_elem?-IsWord a i those e

pub load-IsWord : (a : List ℕ) (i : ℤ) {v : ℕ} → IsWords a → load a i ≡ ok v → IsWord v
unfolding load
load-IsWord a (negsuc n) h e = absurd (cc)
load-IsWord a (pos n) h e = elim (Option-cases (get_elem? a n)) [
  | inl missing ↦ absurd (ground arith)
  | inr (w, there) ↦ get_elem?-IsWord a n h (ground arith)
]

pub store-IsWords :
    (a : List ℕ) (i : ℤ) (v : ℕ) {r : List ℕ}
    → IsWords a
    → IsWord v
    → store a i v ≡ ok r
    → IsWords r
unfolding store
store-IsWords a (negsuc n) v h hv e = absurd (cc)
store-IsWords a (pos n) v h hv e = elim (Bool-cases (ltb n (length a))) [
  | inl inside ↦ subst (Holds IsWords) (rw inside at e) (All-set IsWord a n hv h)
  | inr outside ↦ absurd (ground arith)
]
