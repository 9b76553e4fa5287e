-- ===== src/Legacy/Loop/Input.antt =====
-- What a line of input to json-modbus-server.c leaves alone.
use modbus_server.Prelude.{
  ℕ, ◌≡◌, ◌↔◌, refl, inl, inr, Bool, false, List, none, arith, Bool-cases, Option-cases, if_cases,
}
use modbus_server.Prelude.Int.{pos}
use modbus_server.Clib.Fault.{ok}
use modbus_server.Foreign.Cjson.{Cjson}
use modbus_server.JsonCommand.{ServerState, Reply, state_stopped}
use modbus_server.Legacy.{Server, signal_handler}
use modbus_server.Legacy.Command.Changes.{Change, ignored, refused, written}
use modbus_server.Legacy.Command.Outcomes.{
  Outcome, stops, starts, starts_again, reports, ignores, updates, process_json-Outcome,
}
use modbus_server.Legacy.Loop.{Events, Moment, interrupted, stdin_step}

-- What the input leaves alone: all but the two flags, the printed lines and the tables, which are
-- there afterwards exactly where they were before.
pub record Untouched {W : Type 0} (s s' : Server W) : Type 0 where
  pub settings : s'.settings ≡ s.settings
  pub env : s'.env ≡ s.env
  pub backend : s'.backend ≡ record s.backend { mapping = s'.backend.mapping }
  pub tables : (s'.backend.mapping ≡ none) ↔ (s.backend.mapping ≡ none)

flags-Untouched :
    {W : Type 0} {s s' : Server W} (state : ServerState) (running : Bool) (printed : List Reply)
    → s' ≡ record s { state = state; running = running; printed = printed }
    → Untouched s s'
flags-Untouched state running printed e =
    rw e (record { settings = refl; env = refl; backend = refl; tables = (λ h. h, λ h. h) })

Change-Untouched :
    {Item Double W : Type 0} {c : Cjson Item Double} {root : Item} {s s' : Server W}
    → Change c root s s'
    → Untouched s s'
Change-Untouched (ignored nothing e) = flags-Untouched _ _ _ e
Change-Untouched (refused line why e) = flags-Untouched _ _ _ e
Change-Untouched (written m r a t why e) =
    let here = why.here in
    rw e (record {
      settings = refl;
      env = refl;
      backend = refl;
      tables = (λ h. absurd (cc), λ h. absurd (cc));
    })

Outcome-Untouched :
    {Item Double W : Type 0} {c : Cjson Item Double} {json : List ℕ} {s s' : Server W}
    → Outcome c json s s'
    → Untouched s s'
Outcome-Untouched (stops n e) = flags-Untouched _ _ _ e
Outcome-Untouched (starts n was e) = flags-Untouched _ _ _ e
Outcome-Untouched (starts_again n was e) = flags-Untouched _ _ _ e
Outcome-Untouched (reports n e) = flags-Untouched _ _ _ e
Outcome-Untouched (ignores bad e) = flags-Untouched _ _ _ e
Outcome-Untouched (updates root good plain u) = Change-Untouched u

-- A signal too.
pub interrupted-Untouched :
    {W : Type 0} (now : Moment) (ev : Events) (s : Server W) → Untouched s (interrupted now ev s)
unfolding interrupted signal_handler
interrupted-Untouched now ev s =
    if_cases (Untouched s) (ev.signals now) (λ come. flags-Untouched _ _ _ refl)
      (λ calm. flags-Untouched _ _ _ refl)

module _ {Item Double W : Type 0} (c : Cjson Item Double) where
  pub stdin_step-Untouched :
      (ev : Events) (s : Server W) {s' : Server W} → stdin_step c ev s ≡ ok s' → Untouched s s'
  unfolding stdin_step
  stdin_step-Untouched ev s {s'} e = elim (Bool-cases (ev.is_set (pos 0))) [
    | inl go ↦ elim (Option-cases ev.line) [
      | inl eof ↦
          let same : s' ≡ record s { running = false; state = state_stopped } = ground arith in
          flags-Untouched _ _ _ same
      | inr (text, line) ↦
          Outcome-Untouched (process_json-Outcome c text s (rw (go, stdin_step, line) at e))
    ]
    | inr quiet ↦ let same : s' ≡ s = ground arith in flags-Untouched _ _ _ same
  ]
