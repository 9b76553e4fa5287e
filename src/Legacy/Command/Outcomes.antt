-- ===== src/Legacy/Command/Outcomes.antt =====
-- What `process_json` of json-modbus-server.c does to the server, by the command.
use modbus_server.Prelude.{
  ℕ, none, subst, ◌≡◌, refl, inl, inr, false, List, [], ◌∷◌, ◌++◌, some, arith, Bool-cases,
  Option-cases,
}
use modbus_server.Clib.Fault.{ok, bind-ok, deref, deref-eq-ok}
use modbus_server.Clib.Text.{codes, str_eq, str_eq_iff}
use modbus_server.Foreign.Cjson.{Cjson}
use modbus_server.JsonCommand.{
  ServerState, state_stopped, state_running, stopping, already_running, starting, status_is,
}
use modbus_server.JsonCommand.Control.{
  IsNamed, IsPlain, absent-IsPlain, no_string-IsPlain, other-IsPlain,
}
use modbus_server.Legacy.{Server}
use modbus_server.Legacy.Command.Changes.{Change, update_root-Change}
use modbus_server.Legacy.Command.{run_cmd, process_json}

-- What a line of input does to a server.
pub data Outcome {Item Double W : Type 0} (c : Cjson Item Double) (json : List ℕ) (s s' : Server W)
    : Type 0 where
  -- "stop" stops the server and ends the program.
  stops :
      IsNamed c json (codes "stop")
      → s'
        ≡ record s { state = state_stopped; running = false; printed = s.printed ++ stopping ∷ [] }
      → Outcome c json s s'
  -- "start" starts a server that is stopped,
  starts :
      IsNamed c json (codes "start")
      → s.state ≡ state_stopped
      → s' ≡ record s { state = state_running; printed = s.printed ++ starting ∷ [] }
      → Outcome c json s s'
  -- and leaves one alone that runs.
  starts_again :
      IsNamed c json (codes "start")
      → s.state ≡ state_running
      → s' ≡ record s { printed = s.printed ++ already_running ∷ [] }
      → Outcome c json s s'
  -- "status" reports the state.
  reports :
      IsNamed c json (codes "status")
      → s' ≡ record s { printed = s.printed ++ status_is s.state ∷ [] }
      → Outcome c json s s'
  -- A text that does not parse is ignored.
  ignores : c.parse json ≡ none → s' ≡ s → Outcome c json s s'
  -- Any other is taken for a data update.
  updates :
      (root : Item)
      → c.parse json ≡ some root
      → IsPlain c json
      → Change c root s s'
      → Outcome c json s s'

module _ {Item Double W : Type 0} (c : Cjson Item Double) where
  start-Outcome :
      {json : List ℕ} (s : Server W) {s' : Server W} (st : ServerState)
      → IsNamed c json (codes "start")
      → s.state ≡ st
      → s' ≡ elim st [
        | state_running ↦ record s { printed = s.printed ++ already_running ∷ [] }
        | state_stopped ↦ record s { state = state_running; printed = s.printed ++ starting ∷ [] }
      ]
      → Outcome c json s s'
  start-Outcome s state_running n h e = starts_again n h e
  start-Outcome s state_stopped n h e = starts n h e

  run_cmd-Outcome :
      {json : List ℕ} (cmd : List ℕ) (root : Item) (s : Server W) {s' : Server W}
      → c.parse json ≡ some root
      → IsNamed c json cmd
      → run_cmd c cmd root s ≡ ok s'
      → Outcome c json s s'
  unfolding run_cmd
  run_cmd-Outcome {json} cmd root s good n e = elim (Bool-cases (str_eq cmd (codes "stop"))) [
    | inl stop ↦
        stops (subst (IsNamed c json) ((str_eq_iff cmd (codes "stop")).0 stop) n) (ground arith)
    | inr a ↦ elim (Bool-cases (str_eq cmd (codes "start"))) [
      | inl start ↦
          start-Outcome s s.state
            (subst (IsNamed c json) ((str_eq_iff cmd (codes "start")).0 start) n) refl
            (ground arith)
      | inr b ↦ elim (Bool-cases (str_eq cmd (codes "status"))) [
        | inl status ↦
            reports (subst (IsNamed c json) ((str_eq_iff cmd (codes "status")).0 status) n)
              (ground arith)
        | inr d ↦
            updates root good (other-IsPlain c n a b d)
              (update_root-Change c root s (rw (a, b, d, run_cmd) at e))
      ]
    ]
  ]

  -- In json-modbus-server.c, a line that is handled without a fault does what the command it names
  -- does: "stop" stops the server, "start" starts a stopped one and is an error for a running one,
  -- "status" reports the state; a text that does not parse is ignored. Any other does nothing where
  -- it lacks an item of an update; is refused with the line that names its address where that is
  -- none of those of the settings, or with the line on the index where the table does not reach so
  -- far; and writes its value at its place in the table, whose length stays, and reports its
  -- address and datatype, otherwise.
  pub process_json-Outcome :
      (json : List ℕ) (s : Server W) {s' : Server W}
      → process_json c json s ≡ ok s'
      → Outcome c json s s'
  unfolding process_json
  process_json-Outcome json s e = elim (Option-cases (c.parse json)) [
    | inl bad ↦ ignores bad (ground arith)
    | inr (root, good) ↦ elim (Option-cases (c.object_item_case_sensitive root (codes "cmd"))) [
      | inl absent ↦
          updates root good (absent-IsPlain c root good absent)
            (update_root-Change c root s (rw (good, process_json, absent) at e))
      | inr (cmd, there) ↦ elim (Bool-cases (c.is_string cmd)) [
        | inl string ↦
            let (text, is_text, e') =
              bind-ok (deref (c.valuestring cmd)) _ (rw (good, process_json, there, string) at e) in
            run_cmd-Outcome text root s good
              (record {
                root = root;
                member = cmd;
                parsed = good;
                member_at = there;
                string = string;
                text = deref-eq-ok (c.valuestring cmd) is_text;
              })
              e'
        | inr other ↦
            updates root good (no_string-IsPlain c root cmd good there other)
              (update_root-Change c root s (rw (good, process_json, there, other) at e))
      ]
    ]
  ]
