-- ===== src/TcpAdapter/Slots.antt =====
-- The table of clients: which slot is found free, and how many slots are in use.
use modbus_server.Prelude.{
  ℕ, zero, suc, ◌+◌, ◌≤◌, ◌<◌, ◌≡◌, ◌≢◌, refl, ap, ◌⊎◌, inl, inr, false, List, [], ◌∷◌, some, arith,
  length, get_elem?, set, get_or, if◌then◌else◌, Bool-cases, replicate, subst,
}
use modbus_server.Prelude.Int.{ℤ, pos, minus_one, eqb_ℤ, eqb_ℤ_iff}
use modbus_server.TcpAdapter.{find_free_from}

-- The number of slots in use.
abbrev pub active : List ℤ → ℕ
active [] = 0
active (s ∷ socks) = (if eqb_ℤ s minus_one then 0 else 1) + active socks

-- The number of slots that hold a descriptor.
abbrev pub in_slots : ℤ → List ℤ → ℕ
in_slots fd [] = 0
in_slots fd (s ∷ socks) = (if eqb_ℤ s fd then 1 else 0) + in_slots fd socks

-- The answer of the search from the `i`-th slot on: -1 where every slot is in use, and otherwise
-- the first slot that is not.
abbrev pub FirstFree : ℕ → List ℤ → ℤ → Type 0
FirstFree i socks r =
    ((r ≡ minus_one) × (active socks ≡ length socks))
    ⊎ ((k : ℕ) × (r ≡ pos (i + k))
        × (get_elem? socks k ≡ some minus_one)
        × ((j : ℕ) → j < k → get_elem? socks j ≢ some minus_one))

FirstFree-next :
    (i : ℕ) (s : ℤ) (socks : List ℤ) (r : ℤ)
    → eqb_ℤ s minus_one ≡ false
    → FirstFree (i + 1) socks r
    → FirstFree i (s ∷ socks) r
FirstFree-next i s socks r used (inl (e, all)) = inl (e, rw used (omega (arith, all)))
FirstFree-next i s socks r used (inr (k, e, at, before)) =
    inr (suc k, rw e (ap pos (omega arith)), at, earlier)
  where
    earlier : (j : ℕ) → j < suc k → get_elem? (s ∷ socks) j ≢ some minus_one
    earlier zero h e = ground (arith, eqb_ℤ_iff s minus_one)
    earlier (suc j) h e = before j (omega arith) e

find_free_from-used :
    (i : ℕ) (s : ℤ) (socks : List ℤ)
    → eqb_ℤ s minus_one ≡ false
    → find_free_from (i + 1) socks ≡ find_free_from i (s ∷ socks)
unfolding find_free_from
find_free_from-used i s socks used = rw used

-- The search for a slot finds the first one that holds -1, or answers -1 where no slot does.
pub find_free_from-FirstFree : (i : ℕ) (socks : List ℤ) → FirstFree i socks (find_free_from i socks)
unfolding find_free_from
find_free_from-FirstFree i [] = inl (refl, refl)
find_free_from-FirstFree i (s ∷ socks) = elim (Bool-cases (eqb_ℤ s minus_one)) [
  | inl free ↦
      rw free
        (inr (zero, ap pos (omega arith), ground (arith, eqb_ℤ_iff s minus_one), λ j h. elim h [ ]))
  | inr used ↦ subst (FirstFree i (s ∷ socks)) (find_free_from-used i s socks used) (
      FirstFree-next i s socks (find_free_from (i + 1) socks) used
        (find_free_from-FirstFree (i + 1) socks))
]

pub active-le : (socks : List ℤ) → active socks ≤ length socks
active-le [] = omega arith
active-le (s ∷ socks) = ground (arith, active-le socks)

-- Taking a free slot.
pub active-take :
    (k : ℕ) (socks : List ℤ) (fd : ℤ)
    → get_elem? socks k ≡ some minus_one
    → fd ≢ minus_one
    → active (set socks k fd) ≡ active socks + 1
active-take k [] fd at ne = absurd (cc)
active-take zero (s ∷ socks) fd at ne =
    ground (arith, eqb_ℤ_iff fd minus_one, eqb_ℤ_iff s minus_one)
active-take (suc k) (s ∷ socks) fd at ne = omega (arith, active-take k socks fd at ne)

-- Giving a slot back.
pub active-drop :
    (k : ℕ) (socks : List ℤ) {s : ℤ}
    → get_elem? socks k ≡ some s
    → s ≢ minus_one
    → active (set socks k minus_one) + 1 ≡ active socks
active-drop k [] at ne = absurd (cc)
active-drop zero (t ∷ socks) {s} at ne = ground (arith, eqb_ℤ_iff t minus_one)
active-drop (suc k) (t ∷ socks) at ne = omega (arith, active-drop k socks at ne)

-- A write to a slot takes its old descriptor out of the table and puts the new one in.
pub in_slots-set :
    (f : ℤ) (k : ℕ) (socks : List ℤ) (fd : ℤ) {s : ℤ}
    → get_elem? socks k ≡ some s
    → in_slots f (set socks k fd) + (if eqb_ℤ s f then 1 else 0)
      ≡ in_slots f socks + (if eqb_ℤ fd f then 1 else 0)
in_slots-set f k [] fd at = absurd (cc)
in_slots-set f zero (t ∷ socks) fd {s} at = ground arith
in_slots-set f (suc k) (t ∷ socks) fd at = omega (arith, in_slots-set f k socks fd at)

pub active-replicate : (n : ℕ) → active (replicate n minus_one) ≡ 0
active-replicate zero = refl
active-replicate (suc n) = omega (arith, active-replicate n)

pub in_slots-replicate : (f : ℤ) (n : ℕ) → f ≢ minus_one → in_slots f (replicate n minus_one) ≡ 0
in_slots-replicate f zero ne = refl
in_slots-replicate f (suc n) ne = ground (arith, in_slots-replicate f n ne, eqb_ℤ_iff minus_one f)

-- Where no slot is in use, the table holds no descriptor.
pub in_slots-active :
    (f : ℤ) (socks : List ℤ) → f ≢ minus_one → active socks ≡ 0 → in_slots f socks ≡ 0
in_slots-active f [] ne e = refl
in_slots-active f (s ∷ socks) ne e =
    ground (arith, in_slots-active f socks ne, eqb_ℤ_iff s minus_one, eqb_ℤ_iff s f)

pub get_elem?-get_or :
    (socks : List ℤ) (k : ℕ)
    → k < length socks
    → get_elem? socks k ≡ some (get_or socks k minus_one)
get_elem?-get_or [] k h = elim h [ ]
get_elem?-get_or (s ∷ socks) zero h = refl
get_elem?-get_or (s ∷ socks) (suc k) h = get_elem?-get_or socks k (omega arith)
