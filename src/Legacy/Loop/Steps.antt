-- ===== src/Legacy/Loop/Steps.antt =====
-- The rounds of the loop of json-modbus-server.c, one after the other: what the input leaves of the
-- two flags, and how the loop goes on and ends.
use modbus_server.Prelude.{
  subst, ℕ, ◌≡◌, refl, inl, inr, Bool, true, false, List, [], ◌∷◌, none, arith, Bool-cases,
  Option-cases, All, All-of,
}
use modbus_server.Prelude.Int.{pos}
use modbus_server.Clib.Fault.{Result, ok, fault, Holds}
use modbus_server.Foreign.Cjson.{Cjson}
use modbus_server.Foreign.Modbus.{Modbus}
use modbus_server.Legacy.{Server}
use modbus_server.Legacy.Command.Changes.{Change, ignored, refused, written}
use modbus_server.Legacy.Command.Outcomes.{
  Outcome, stops, starts, starts_again, reports, ignores, updates, process_json-Outcome,
}
use modbus_server.Legacy.Transport.Starting.{start_server}
use modbus_server.Legacy.Transport.Stopping.{free_mapping, stop_server}
use modbus_server.Legacy.Loop.{Events, is_running, stdin_step, round, loop}

-- The flag of the loop and the state of the server say the same.
abbrev pub InStep : {W : Type 0} → Server W → Type 0
InStep s = s.running ≡ is_running s.state

module _ {W : Type 0} (lib : Modbus W) where
  pub start_server-state :
      (s : Server W)
      → ((start_server lib s).1.state ≡ s.state) × ((start_server lib s).1.running ≡ s.running)
  unfolding start_server
  start_server-state s = ground arith

  pub stop_server-none : (s : Server W) → (stop_server lib s).backend.mapping ≡ none
  unfolding stop_server free_mapping
  stop_server-none s = refl

Change-InStep :
    {Item Double W : Type 0} {c : Cjson Item Double} {root : Item} {s s' : Server W}
    → Change c root s s'
    → InStep s
    → InStep s'
Change-InStep (ignored nothing e) i = ground arith
Change-InStep (refused line why e) i = ground arith
Change-InStep (written m r a t h e) i = ground arith

Outcome-InStep :
    {Item Double W : Type 0} {c : Cjson Item Double} {json : List ℕ} {s s' : Server W}
    → Outcome c json s s'
    → InStep s
    → s.running ≡ true
    → InStep s'
Outcome-InStep (stops n e) i up = ground arith
Outcome-InStep (starts n was e) i up = ground arith
Outcome-InStep (starts_again n was e) i up = ground arith
Outcome-InStep (reports n e) i up = ground arith
Outcome-InStep (ignores bad e) i up = ground arith
Outcome-InStep (updates root good plain u) i up = Change-InStep u i

module _ {Item Double W : Type 0} (c : Cjson Item Double) where
  pub stdin_step-InStep :
      (ev : Events) (s : Server W) {s' : Server W}
      → stdin_step c ev s ≡ ok s'
      → InStep s
      → s.running ≡ true
      → InStep s'
  unfolding stdin_step
  stdin_step-InStep ev s e i up = elim (Bool-cases (ev.is_set (pos 0))) [
    | inl ready ↦ elim (Option-cases ev.line) [
      | inl eof ↦ ground arith
      | inr (text, line) ↦
          Outcome-InStep (process_json-Outcome c text s (rw (ready, stdin_step, line) at e)) i up
    ]
    | inr quiet ↦ ground arith
  ]

module _ {Item Double W : Type 0} (c : Cjson Item Double) (lib : Modbus W) where
  -- What every round of some kind keeps, the loop keeps over rounds of that kind.
  pub loop-keeps_where :
      (P : Server W → Type 0) (Q : Events → Type 0)
      → ((ev : Events) (query : List ℕ) (s : Server W) (r : Bool × List ℕ × Server W)
          → Q ev
          → round c lib ev (query, s) ≡ ok r
          → s.running ≡ true
          → P s
          → P r.2)
      → (evs : List Events) (query : List ℕ) (s : Server W) {r : Bool × List ℕ × Server W}
      → All Q evs
      → loop c lib evs (query, s) ≡ ok r
      → P s
      → P r.2
  unfolding loop
  loop-keeps_where P Q each [] query s _ e p = subst (Holds (λ x. P x.2)) e p
  loop-keeps_where P Q each (ev ∷ evs) query s {r} (this, those) e p =
      go (λ q s' e' p'. loop-keeps_where P Q each evs q s' those e' p') s.running refl
        (round c lib ev (query, s)) refl e
    where
      go :
          ((q : List ℕ) (s' : Server W) → loop c lib evs (q, s') ≡ ok r → P s' → P r.2)
          → (up : Bool) → s.running ≡ up
          → (m : Result (Bool × List ℕ × Server W)) → round c lib ev (query, s) ≡ m
          → (elim up [
            | false ↦ ok (true, query, s)
            | true ↦ elim m [
              | fault f ↦ fault f
              | ok (stop, query', s') ↦ elim stop [
                | true ↦ ok (true, query', s')
                | false ↦ loop c lib evs (query', s')
              ]
            ]
          ])
            ≡ ok r
          → P r.2
      go next false h m ran e' = subst (Holds (λ x. P x.2)) e' p
      go next true h (fault f) ran e' = absurd (cc)
      go next true h (ok (true, query', s')) ran e' =
          subst (Holds (λ x. P x.2)) e' (each ev query s _ this ran h p)
      go next true h (ok (false, query', s')) ran e' =
          next query' s' e' (each ev query s _ this ran h p)

  -- What every round keeps, the loop keeps.
  pub loop-keeps :
      (P : Server W → Type 0)
      → ((ev : Events) (query : List ℕ) (s : Server W) (r : Bool × List ℕ × Server W)
          → round c lib ev (query, s) ≡ ok r
          → s.running ≡ true
          → P s
          → P r.2)
      → (evs : List Events) (query : List ℕ) (s : Server W) {r : Bool × List ℕ × Server W}
      → loop c lib evs (query, s) ≡ ok r
      → P s
      → P r.2
  loop-keeps P each evs query s e p =
      loop-keeps_where P (λ ev. Unit) (λ ev q s' r any. each ev q s' r) evs query s
        (All-of (λ ev. tt) evs) e p

  pub loop_done :
      (evs : List Events) (query : List ℕ) (s : Server W)
      → s.running ≡ false
      → loop c lib evs (query, s) ≡ ok (true, query, s)
  unfolding loop
  loop_done [] query s down = ground arith
  loop_done (ev ∷ evs) query s down = ground arith

  pub loop_next :
      (ev : Events) (evs : List Events) (query : List ℕ) (s : Server W) {query' : List ℕ}
      {s' : Server W}
      → s.running ≡ true
      → round c lib ev (query, s) ≡ ok (false, query', s')
      → loop c lib (ev ∷ evs) (query, s) ≡ loop c lib evs (query', s')
  unfolding loop
  loop_next ev evs query s up run = ground arith

  pub loop_break :
      (ev : Events) (evs : List Events) (query : List ℕ) (s : Server W) {query' : List ℕ}
      {s' : Server W}
      → s.running ≡ true
      → round c lib ev (query, s) ≡ ok (true, query', s')
      → loop c lib (ev ∷ evs) (query, s) ≡ ok (true, query', s')
  unfolding loop
  loop_break ev evs query s up run = ground arith
