-- ===== src/Clib/Fault.antt =====
-- Undefined behaviour as a value: a run that reaches it ends in `fault`.
use modbus_server.Prelude.{◌≡◌, refl, Option, none, some}

pub data Fault : Type 0 where
  -- A read or write outside an array.
  out_of_bounds : Fault
  -- A null pointer is dereferenced.
  null_pointer : Fault
  -- An `int` sum that does not fit.
  int_overflow : Fault

pub data Result {ℓ} (A : Type ℓ) : Type ℓ where
  ok : A → Result A
  fault : Fault → Result A

module _ {ℓ κ} {A : Type ℓ} {B : Type κ} where
  infixl 5 ◌>>=◌
  -- What follows a fault is not run.
  abbrev pub ◌>>=◌ : Result A → (A → Result B) → Result B
  fault e >>= next = fault e
  ok a >>= next = next a

  -- A run that ends well has taken both its steps.
  pub bind-ok :
      (r : Result A) (next : A → Result B) {b : B}
      → (r >>= next) ≡ ok b
      → (a : A) × (r ≡ ok a) × (next a ≡ ok b)
  bind-ok (fault e) next ran = cc
  bind-ok (ok a) next ran = (a, refl, ran)

-- What holds of the value of a run, if it ends without a fault.
abbrev pub Holds {ℓ} : {A : Type ℓ} → (A → Type 0) → Result A → Type 0
Holds P (ok a) = P a
Holds P (fault e) = Unit

-- Two steps, of which the second starts from what the first one establishes.
pub Holds-bind {ℓ κ} :
    {A : Type ℓ} {B : Type κ} (P : A → Type 0) (Q : B → Type 0) (r : Result A) (next : A → Result B)
    → Holds P r
    → ((a : A) → P a → Holds Q (next a))
    → Holds Q (r >>= next)
Holds-bind P Q (ok a) next h step = step a h
Holds-bind P Q (fault e) next h step = tt

-- A pointer that is dereferenced.
abbrev pub deref {ℓ} : {A : Type ℓ} → Option A → Result A
deref none = fault null_pointer
deref (some a) = ok a

pub deref-eq-ok {ℓ} : {A : Type ℓ} (p : Option A) {a : A} → deref p ≡ ok a → p ≡ some a
deref-eq-ok none h = cc
deref-eq-ok (some a) h = cc

-- Two runs agree whose first step is the same and which agree from there on.
pub bind_both {ℓ} :
    {A B C D : Type ℓ} (r : Result A) (f : A → Result B) (g : A → Result C) (F : B → Result D)
    (G : C → Result D)
    → ((a : A) → (f a >>= F) ≡ (g a >>= G))
    → ((r >>= f) >>= F) ≡ ((r >>= g) >>= G)
bind_both (fault e) f g F G same = refl
bind_both (ok a) f g F G same = same a
