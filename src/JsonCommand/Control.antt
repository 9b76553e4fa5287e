-- ===== src/JsonCommand/Control.antt =====
-- `json_command_process` as a transition system over the session.
use modbus_server.Prelude.{
  ℕ, ◌≡◌, ◌≢◌, refl, sym, ap, subst, ◌∙◌, inl, inr, true, false, none, some, List, [], ◌∷◌, ◌++◌,
  arith, Bool-cases, Option-cases,
}
use mathlib.Core.Option.{some-injective}
use modbus_server.Clib.Fault.{ok, bind-ok, deref, deref-eq-ok}
use modbus_server.Clib.Text.{codes, str_eq, str_eq_iff}
use modbus_server.Foreign.Cjson.{Cjson}
use modbus_server.JsonCommand.{
  ServerState, state_stopped, state_running, stopping, already_running, starting, status_is,
  Session, Updated, json_command_update_data, json_command_process, process_cmd, process_update,
}
use modbus_server.JsonCommand.Update.{Keeps, update_data-Keeps}

-- The text is a JSON object whose member `cmd` is the string `cmd`.
pub record IsNamed {Item Double : Type 0} (c : Cjson Item Double) (json cmd : List ℕ) : Type 0 where
  pub root : Item
  pub member : Item
  pub parsed : c.parse json ≡ some root
  pub member_at : c.object_item_case_sensitive root (codes "cmd") ≡ some member
  pub string : c.is_string member ≡ true
  pub text : c.valuestring member ≡ some cmd

-- The text names none of the three commands.
abbrev pub IsPlain : {Item Double : Type 0} → Cjson Item Double → List ℕ → Type 0
IsPlain c json =
    (cmd : List ℕ)
    → IsNamed c json cmd
    → (cmd ≢ codes "stop") × (cmd ≢ codes "start") × (cmd ≢ codes "status")

-- What one line does to a session.
pub data Step {Item Double : Type 0} (c : Cjson Item Double) (json : List ℕ) (s s' : Session)
    : Type 0 where
  -- "stop" stops the server and ends the program.
  stops :
      IsNamed c json (codes "stop")
      → s'
        ≡ record s { state = state_stopped; running = false; printed = s.printed ++ stopping ∷ [] }
      → Step c json s s'
  -- "start" starts a server that is stopped,
  starts :
      IsNamed c json (codes "start")
      → s.state ≡ state_stopped
      → s' ≡ record s { state = state_running; printed = s.printed ++ starting ∷ [] }
      → Step c json s s'
  -- and leaves one alone that runs.
  starts_again :
      IsNamed c json (codes "start")
      → s.state ≡ state_running
      → s' ≡ record s { printed = s.printed ++ already_running ∷ [] }
      → Step c json s s'
  -- "status" reports the state.
  reports :
      IsNamed c json (codes "status")
      → s' ≡ record s { printed = s.printed ++ status_is s.state ∷ [] }
      → Step c json s s'
  -- A text that does not parse is ignored.
  ignores : c.parse json ≡ none → s' ≡ s → Step c json s s'
  -- Any other is handed on as a data update, by which nothing but the registers can change.
  updates :
      (u : Updated)
      → IsPlain c json
      → json_command_update_data c json s.backend ≡ ok u
      → Keeps s.backend u
      → s' ≡ record s { backend = u.backend; printed = s.printed ++ u.printed }
      → Step c json s s'

module _ {Item Double : Type 0} (c : Cjson Item Double) where
  IsNamed-unique : {json a b : List ℕ} → IsNamed c json a → IsNamed c json b → a ≡ b
  IsNamed-unique m n =
      let root : m.root ≡ n.root = some-injective _ _ (sym m.parsed ∙ n.parsed) in
      let member : m.member ≡ n.member = some-injective _ _ (
        sym m.member_at
        ∙ ap (λ r. c.object_item_case_sensitive r (codes "cmd")) root
        ∙ n.member_at) in
      some-injective _ _ (sym m.text ∙ ap c.valuestring member ∙ n.text)

  process_update-Step :
      (json : List ℕ) (s : Session) {s' : Session}
      → IsPlain c json
      → process_update c json s ≡ ok s'
      → Step c json s s'
  process_update-Step json s plain e =
      let (u, run, done) = bind-ok (json_command_update_data c json s.backend) _ e in
      updates u plain run (update_data-Keeps c json s.backend run) (ground arith)

  start-Step :
      {json : List ℕ} (s : Session) {s' : Session} (st : ServerState)
      → IsNamed c json (codes "start")
      → s.state ≡ st
      → s' ≡ elim st [
        | state_running ↦ record s { printed = s.printed ++ already_running ∷ [] }
        | state_stopped ↦ record s { state = state_running; printed = s.printed ++ starting ∷ [] }
      ]
      → Step c json s s'
  start-Step s state_running named h e = starts_again named h e
  start-Step s state_stopped named h e = starts named h e

  other_name :
      {json cmd : List ℕ} (name : List ℕ)
      → IsNamed c json cmd
      → str_eq cmd name ≡ false
      → (cmd' : List ℕ) → IsNamed c json cmd'
      → cmd' ≢ name
  other_name {cmd} name n differs cmd' n' same =
      ground (arith, (str_eq_iff cmd name).1 (IsNamed-unique n n' ∙ same))

  pub absent-IsPlain :
      {json : List ℕ} (root : Item)
      → c.parse json ≡ some root
      → c.object_item_case_sensitive root (codes "cmd") ≡ none
      → IsPlain c json
  absent-IsPlain root good absent cmd n =
      let root' : root ≡ n.root = some-injective _ _ (sym good ∙ n.parsed) in
      absurd (
        ground (
          arith,
          ap (λ r. c.object_item_case_sensitive r (codes "cmd")) root',
          n.member_at,
          absent,
        ))

  pub no_string-IsPlain :
      {json : List ℕ} (root item : Item)
      → c.parse json ≡ some root
      → c.object_item_case_sensitive root (codes "cmd") ≡ some item
      → c.is_string item ≡ false
      → IsPlain c json
  no_string-IsPlain root item good there other cmd n =
      let root' : root ≡ n.root = some-injective _ _ (sym good ∙ n.parsed) in
      let item' : item ≡ n.member =
        some-injective _ _ (
          sym there ∙ ap (λ r. c.object_item_case_sensitive r (codes "cmd")) root' ∙ n.member_at) in
      absurd (ground (arith, ap c.is_string item', n.string, other))

  pub other-IsPlain :
      {json cmd : List ℕ}
      → IsNamed c json cmd
      → str_eq cmd (codes "stop") ≡ false
      → str_eq cmd (codes "start") ≡ false
      → str_eq cmd (codes "status") ≡ false
      → IsPlain c json
  other-IsPlain n a b d cmd' n' = (
    other_name (codes "stop") n a cmd' n',
    other_name (codes "start") n b cmd' n',
    other_name (codes "status") n d cmd' n',
  )

  process_cmd-Step :
      (cmd json : List ℕ) (s : Session) {s' : Session}
      → IsNamed c json cmd
      → process_cmd c cmd json s ≡ ok s'
      → Step c json s s'
  unfolding process_cmd
  process_cmd-Step cmd json s n e = elim (Bool-cases (str_eq cmd (codes "stop"))) [
    | inl stop ↦
        stops (subst (IsNamed c json) ((str_eq_iff cmd (codes "stop")).0 stop) n) (ground arith)
    | inr a ↦ elim (Bool-cases (str_eq cmd (codes "start"))) [
      | inl start ↦
          start-Step s s.state (subst (IsNamed c json) ((str_eq_iff cmd (codes "start")).0 start) n)
            refl (ground arith)
      | inr b ↦ elim (Bool-cases (str_eq cmd (codes "status"))) [
        | inl status ↦
            reports (subst (IsNamed c json) ((str_eq_iff cmd (codes "status")).0 status) n)
              (ground arith)
        | inr d ↦
            process_update-Step json s (other-IsPlain n a b d) (rw (a, b, d, process_cmd) at e)
      ]
    ]
  ]

  -- A line that is processed without a fault does what the command it names does: "stop" stops the
  -- server, "start" starts a stopped one and is an error for a running one, "status" reports the
  -- state; a text that does not parse is ignored, and any other is a data update, by which nothing
  -- but registers changes.
  pub process-Step :
      (json : List ℕ) (s : Session) {s' : Session}
      → json_command_process c json s ≡ ok s'
      → Step c json s s'
  unfolding json_command_process
  process-Step json s e = elim (Option-cases (c.parse json)) [
    | inl bad ↦ ignores bad (ground arith)
    | inr (root, good) ↦ elim (Option-cases (c.object_item_case_sensitive root (codes "cmd"))) [
      | inl absent ↦
          process_update-Step json s (absent-IsPlain root good absent)
            (rw (good, json_command_process, absent) at e)
      | inr (cmd, there) ↦ elim (Bool-cases (c.is_string cmd)) [
        | inl string ↦
            let (text, is_text, run) =
              bind-ok (deref (c.valuestring cmd)) _
                (rw (good, json_command_process, there, string) at e) in
            process_cmd-Step text json s
              (record {
                root = root;
                member = cmd;
                parsed = good;
                member_at = there;
                string = string;
                text = deref-eq-ok (c.valuestring cmd) is_text;
              })
              run
        | inr other ↦
            process_update-Step json s (no_string-IsPlain root cmd good there other)
              (rw (good, json_command_process, there, other) at e)
      ]
    ]
  ]
