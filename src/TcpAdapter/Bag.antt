-- ===== src/TcpAdapter/Bag.antt =====
-- Who is connected, whatever slot a client is in: a bag of descriptors, and the steps of a door with
-- ten places, by the calls of tcp_adapter.h and what they answer.
use mathlib.Core.Quot
use mathlib.Core.Quot.{Quot, Quot-set}
use native.Mathlib.Nat.{ℕ_set}
use modbus_server.Prelude.{
  ◌+◌, ◌≤◌, ℕ, zero, suc, ◌<◌, ◌≡◌, ◌≢◌, ap, subst, List, [], ◌∷◌, some, arith, set, get_elem?,
  length,
}
use modbus_server.Prelude.Int.{ℤ, pos, minus_one, eqb_ℤ_iff}
use modbus_server.Backend.{Backend, cleared_socks, max_tcp_clients}
use modbus_server.TcpAdapter.Slots.{
  active, in_slots, in_slots-set, active-take, active-drop, active-le, active-replicate,
  in_slots-replicate,
}

-- The same descriptors, as often each, in as many slots.
abbrev SameClients : List ℤ → List ℤ → Type 0
SameClients xs ys =
    (active xs ≡ active ys) × ((fd : ℤ) → fd ≢ minus_one → in_slots fd xs ≡ in_slots fd ys)

abbrev pub Clients : Type 0
Clients = Quot SameClients

abbrev pub clients_of : List ℤ → Clients
clients_of socks = Quot.mk socks

abbrev pub clients : Backend → Clients
clients b = clients_of b.tcp_conn_socks

-- How many are connected.
unfoldable pub size : Clients → ℕ
size = Quot.lift ℕ_set active (λ xs ys same. same.0)

pub nobody : Clients
nobody = Quot.mk []

SameClients-cons : (fd : ℤ) (xs ys : List ℤ) → SameClients xs ys → SameClients (fd ∷ xs) (fd ∷ ys)
SameClients-cons fd xs ys (size_same, same) =
    (omega (arith, size_same), λ f ne. omega (arith, same f ne))

-- One more is connected.
pub joined : ℤ → Clients → Clients
joined fd =
    Quot.lift Quot-set (λ xs. Quot.mk (fd ∷ xs))
      (λ xs ys same. Quot.sound (SameClients-cons fd xs ys same))

-- A call of an operation, with what the library and the operation answered.
pub data Call : Type 0 where
  -- The answer of the start.
  starting : ℤ → Call
  -- The descriptor from modbus_tcp_accept, and the answer of the operation.
  accepting : ℤ → ℤ → Call
  -- The descriptor in the slot whose turn it is, -1 for none, and the answer of modbus_receive.
  serving : ℤ → ℤ → Call
  releasing : Call

-- What a call does to the bag, which its answers determine.
pub data Step (c : Clients) : Call → Clients → Type 0 where
  -- A start that fails changes nothing; after any other nobody is there.
  not_started : Step c (starting minus_one) c
  all_new : Step c (starting (pos 0)) nobody
  -- Nobody comes.
  none_comes : {answer : ℤ} → answer ≡ minus_one → Step c (accepting minus_one answer) c
  -- Whoever comes is turned away exactly where ten are there, and joins otherwise.
  turned_away :
      (fd : ℤ) {answer : ℤ}
      → fd ≢ minus_one
      → size c ≡ max_tcp_clients
      → answer ≡ minus_one
      → Step c (accepting fd answer) c
  joins :
      (fd : ℤ) {answer : ℤ} (slot : ℕ)
      → fd ≢ minus_one
      → size c < max_tcp_clients
      → answer ≡ pos slot
      → Step c (accepting fd answer) (joined fd c)
  -- A slot without a client has no effect, nor has a turn in which the connection stands.
  idle : {rc : ℤ} → Step c (serving minus_one rc) c
  remains : (fd : ℤ) {rc : ℤ} → rc ≢ minus_one → Step c (serving fd rc) c
  -- A client whose connection fails leaves, and nobody else.
  leaves :
      (fd : ℤ) {rc : ℤ} {c' : Clients}
      → fd ≢ minus_one
      → rc ≡ minus_one
      → c ≡ joined fd c'
      → Step c (serving fd rc) c'
  all_leave : Step c releasing nobody

-- Steps one after the other, by their calls, the last one first.
pub data Run (c : Clients) : List Call → Clients → Type 0 where
  done : Run c [] c
  more :
      {calls : List Call} {call : Call} {c' c'' : Clients}
      → Run c calls c'
      → Step c' call c''
      → Run c (call ∷ calls) c''

size-joined : (fd : ℤ) (c : Clients) → fd ≢ minus_one → size (joined fd c) ≡ size c + 1
unfolding size joined
size-joined fd c ne =
    Quot.ind (λ b. ℕ_set (size (joined fd b)) (size b + 1))
      (λ xs. ground (arith, eqb_ℤ_iff fd minus_one)) c

Step-size :
    {c c' : Clients} {call : Call}
    → Step c call c'
    → size c ≤ max_tcp_clients
    → size c' ≤ max_tcp_clients
unfolding size nobody
Step-size not_started h = h
Step-size all_new h = omega arith
Step-size (none_comes e) h = h
Step-size (turned_away fd ne full e) h = h
Step-size {c} (joins fd slot ne room e) h = omega (arith, room, size-joined fd c ne)
Step-size idle h = h
Step-size (remains fd ne) h = h
Step-size (leaves fd {c' = rest} ne gone e) h = omega (arith, ap size e, size-joined fd rest ne)
Step-size all_leave h = omega arith

-- The door has ten places.
pub Run-size : {c : Clients} {calls : List Call} → Run nobody calls c → size c ≤ max_tcp_clients
unfolding size nobody
Run-size done = omega arith
Run-size (more run step) = Step-size step (Run-size run)

-- Whoever takes a free slot joins; whose slot is given back leaves.
pub set-joined :
    (socks : List ℤ) (k : ℕ) (fd : ℤ)
    → get_elem? socks k ≡ some minus_one
    → fd ≢ minus_one
    → joined fd (Quot.mk socks) ≡ Quot.mk (set socks k fd)
unfolding joined
set-joined socks k fd at ne = Quot.sound (
  ground (arith, active-take k socks fd at ne, eqb_ℤ_iff fd minus_one),
  λ f nf. ground (arith, in_slots-set f k socks fd at, eqb_ℤ_iff minus_one f),
)

pub set-left :
    (socks : List ℤ) (k : ℕ) (fd : ℤ)
    → get_elem? socks k ≡ some fd
    → fd ≢ minus_one
    → clients_of socks ≡ joined fd (Quot.mk (set socks k minus_one))
unfolding joined
set-left socks k fd at ne = Quot.sound (
  ground (arith, active-drop k socks at ne, eqb_ℤ_iff fd minus_one),
  λ f nf. ground (arith, in_slots-set f k socks minus_one at, eqb_ℤ_iff minus_one f),
)

pub cleared_socks-nobody : clients_of cleared_socks ≡ nobody
unfolding nobody cleared_socks
cleared_socks-nobody =
    Quot.sound (active-replicate max_tcp_clients, λ f nf. in_slots-replicate f max_tcp_clients nf)

-- A free slot is a place.
pub place :
    (socks : List ℤ) (k : ℕ) → get_elem? socks k ≡ some minus_one → active socks < length socks
place [] k at = absurd (cc)
place (s ∷ socks) zero at = ground (arith, active-le socks, eqb_ℤ_iff s minus_one)
place (s ∷ socks) (suc k) at = ground (arith, place socks k at)

-- A step to a bag that is known by another description.
pub Step-to : {c c' c'' : Clients} {call : Call} → Step c call c' → c' ≡ c'' → Step c call c''
Step-to {c} {call = call} step same = subst (Step c call) same step
