-- ===== src/Legacy/Command/Agreement.antt =====
-- `process_json` of json-modbus-server.c beside `json_command_process` of json_command.c, for
-- settings in which the addresses of the holding registers are their indices.
use modbus_server.Prelude.{
  ℕ, ◌≡◌, refl, sym, ap, ◌∙◌, inl, inr, Bool, true, false, ◌&&◌, ◌||◌, List, [], ◌∷◌, ◌++◌, Option,
  none, some, Bool-cases, Option-cases,
}
use modbus_server.Prelude.Int.{pos, ltb_ℤ, leb_ℤ, ◌-ℤ◌}
use modbus_server.Clib.Fault.{Result, ok, ◌>>=◌, deref, bind_both}
use modbus_server.Clib.Text.{codes, str_eq}
use modbus_server.Foreign.Cjson.{Cjson, test}
use modbus_server.Foreign.Mapping.{Mapping}
use modbus_server.JsonCommand.{
  ServerState, state_stopped, state_running, stopping, already_running, starting, status_is,
  address_out_of_range, refused, update_mapping, update_backend, update_items,
  json_command_update_data, process_update, process_cmd, json_command_process,
}
use modbus_server.Legacy.{Server}
use modbus_server.Legacy.Command.{
  is_out_of_range, update_table, update_checked, update_address, update_command, update_root,
  run_cmd, process_json,
}
use modbus_server.Legacy.Command.Sessions.{
  session, IsPlainly, session-print, is_out_of_range_lem, minus_zero, shown, reported,
  reported_nothing, write_same,
}

module _ {Item Double W : Type 0} (c : Cjson Item Double) where
  update_address_same :
      (m : Mapping) (addr datatype : Item) (order_it : Option Item) (val : Item) (s : Server W)
      → IsPlainly s m
      → shown (update_address c addr datatype order_it val s)
        ≡ reported (session s) (update_mapping c s.backend m addr datatype order_it val)
  unfolding update_address update_mapping update_checked update_table
  update_address_same m addr datatype order_it val s p =
      let config = s.settings.config in
      let a = c.valueint addr in
      let index : a -ℤ config.holding_regs_start ≡ a = ap (λ i. a -ℤ i) p.starts ∙ minus_zero a in
      let range : is_out_of_range a config.holding_regs_start config.nb_holding_regs
          ≡ ok (ltb_ℤ a (pos 0) || leb_ℤ (pos p.count) a) =
        rw (p.starts, p.counts) (is_out_of_range_lem a p.count p.fits_int) in
      let checked : Bool → Result (Server W) =
        λ out. update_checked c out addr datatype order_it val s in
      elim (Bool-cases (ltb_ℤ a (pos 0) || leb_ℤ (pos p.count) a)) [
        | inl out ↦
            let outside : (ltb_ℤ a (pos 0) || leb_ℤ m.nb_registers a) ≡ true = rw p.sized out in
            ap (λ r. shown (r >>= checked)) (range ∙ ap ok out)
            ∙ rw outside (ap ok (session-print s (address_out_of_range a)))
        | inr inside ↦
            let within : (ltb_ℤ a (pos 0) || leb_ℤ m.nb_registers a) ≡ false = rw p.sized inside in
            ap (λ r. shown (r >>= checked)) (range ∙ ap ok inside)
            ∙ ap (λ r. shown (deref r >>= λ t. update_table c t addr datatype order_it val s))
                p.here
            ∙ rw (index, within)
                (bind_both (deref (c.valuestring datatype)) _ _ _ _
                  (λ text. write_same c m a text order_it val s))
      ]

  update_backend_lem :
      (m : Mapping) (addr datatype : Item) (order_it : Option Item) (val : Item) (s : Server W)
      → s.backend.mapping ≡ some m
      → update_backend c (some s.backend) addr datatype order_it val
        ≡ update_mapping c s.backend m addr datatype order_it val
  unfolding update_backend
  update_backend_lem m addr datatype order_it val s here =
      ap
        (λ t. elim t [
          | none ↦ refused c (some s.backend)
          | some m' ↦ update_mapping c s.backend m' addr datatype order_it val
        ])
        here

  update_command_same :
      (m : Mapping) (type addr datatype order_it val : Option Item) (s : Server W)
      → IsPlainly s m
      → shown (update_command c type addr datatype order_it val s)
        ≡ reported (session s) (update_items c (some s.backend) type addr datatype order_it val)
  unfolding update_command update_items
  update_command_same m type (some addr) (some datatype) order_it (some val) s p =
      elim (Bool-cases (test c c.is_string type && (c.is_number addr && c.is_string datatype))) [
        | inl good ↦ rw good (
            update_address_same m addr datatype order_it val s p
            ∙ ap (reported (session s))
                (sym (update_backend_lem m addr datatype order_it val s p.here)))
        | inr bad ↦ rw bad (sym (reported_nothing (session s)))
      ]
  update_command_same m type none datatype order_it val s p = sym (reported_nothing (session s))
  update_command_same m type (some addr) none order_it val s p = sym (reported_nothing (session s))
  update_command_same m type (some addr) (some datatype) order_it none s p =
      sym (reported_nothing (session s))

  update_root_same :
      (m : Mapping) (json : List ℕ) (root : Item) (s : Server W)
      → c.parse json ≡ some root
      → IsPlainly s m
      → shown (update_root c root s) ≡ process_update c json (session s)
  unfolding json_command_update_data
  update_root_same m json root s good p =
      rw (json_command_update_data, good) (update_command_same m _ _ _ _ _ s p)

  run_cmd_same :
      (m : Mapping) (json cmd : List ℕ) (root : Item) (s : Server W)
      → c.parse json ≡ some root
      → IsPlainly s m
      → shown (run_cmd c cmd root s) ≡ process_cmd c cmd json (session s)
  unfolding run_cmd process_cmd
  run_cmd_same m json cmd root s good p = elim (Bool-cases (str_eq cmd (codes "stop"))) [
    | inl stop ↦
        rw stop
          (ap ok (session-print (record s { state = state_stopped; running = false }) stopping))
    | inr a ↦ elim (Bool-cases (str_eq cmd (codes "start"))) [
      | inl start ↦ rw (a, start) (by_state s.state)
      | inr b ↦ elim (Bool-cases (str_eq cmd (codes "status"))) [
        | inl status ↦ rw (a, b, status) (ap ok (session-print s (status_is s.state)))
        | inr d ↦ rw (a, b, d) (update_root_same m json root s good p)
      ]
    ]
  ]
    where
      by_state :
          (st : ServerState)
          → shown (
              ok (elim st [
                | state_running ↦ record s { printed = s.printed ++ already_running ∷ [] }
                | state_stopped ↦ record s {
                  state = state_running;
                  printed = s.printed ++ starting ∷ [];
                }
              ]))
            ≡ ok (elim st [
              | state_running ↦ record (session s) {
                printed = (session s).printed ++ already_running ∷ [];
              }
              | state_stopped ↦ record (session s) {
                state = state_running;
                printed = (session s).printed ++ starting ∷ [];
              }
            ])
      by_state state_running = ap ok (session-print s already_running)
      by_state state_stopped = ap ok (session-print (record s { state = state_running }) starting)

  -- Where the holding registers of the settings start at address 0, and a table is there of the
  -- size that the settings name, within int: process_json of json-modbus-server.c and
  -- json_command_process do the same to the registers, the state and the flag, print the same lines
  -- but for the wording of a refused address, and fault alike, whatever the text.
  pub process_json_same :
      (m : Mapping) (json : List ℕ) (s : Server W)
      → IsPlainly s m
      → (process_json c json s >>= λ s'. ok (session s')) ≡ json_command_process c json (session s)
  unfolding process_json json_command_process
  process_json_same m json s p = elim (Option-cases (c.parse json)) [
    | inl bad ↦ rw (process_json, json_command_process, bad) refl
    | inr (root, good) ↦ elim (Option-cases (c.object_item_case_sensitive root (codes "cmd"))) [
      | inl absent ↦
          rw (process_json, json_command_process, good, absent)
            (update_root_same m json root s good p)
      | inr (cmd, there) ↦ elim (Bool-cases (c.is_string cmd)) [
        | inl string ↦ elim (Option-cases (c.valuestring cmd)) [
          | inl null ↦ rw (process_json, json_command_process, good, there, string, null) refl
          | inr (text, is_text) ↦
              rw (process_json, json_command_process, good, there, string, is_text)
                (run_cmd_same m json text root s good p)
        ]
        | inr other ↦
            rw (process_json, json_command_process, good, there, other)
              (update_root_same m json root s good p)
      ]
    ]
  ]
