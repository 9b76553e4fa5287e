-- ===== src/Legacy/Command/Faults.antt =====
-- The lines that `process_json` of json-modbus-server.c can handle in a server with tables: all but
-- the updates that write past the end of the registers.
use modbus_server.Prelude.{
  ℕ, ◌+◌, ◌-◌, not, ◌^◌, ◌<◌, ◌≡◌, refl, ap, ◌∙◌, ◌⊎◌, inl, inr, Bool, true, false, ◌&&◌, ◌||◌,
  List, [], ◌∷◌, ◌++◌, Option, none, some, arith, length, Bool-cases, Option-cases, if_cases, ltb,
}
use modbus_server.Prelude.Int.{ℤ, pos, negsuc, ltb_ℤ, leb_ℤ, ◌+ℤ◌, ◌-ℤ◌}
use modbus_server.Clib.Fault.{Result, ok, ◌>>=◌, deref}
use modbus_server.Clib.Text.{codes, str_eq}
use modbus_server.Foreign.Cjson.{Cjson, HasTexts, test}
use modbus_server.Foreign.Mapping.{Mapping, IsSized}
use modbus_server.JsonCommand.{order_text, updated}
use modbus_server.JsonCommand.Values.{IsWide}
use modbus_server.JsonCommand.Widths.{write_value-succeeds}
use modbus_server.JsonCommand.Faults.{Ends, Outlives}
use modbus_server.Legacy.{Server}
use modbus_server.Legacy.Words.{parse_byte_order}
use modbus_server.Legacy.Command.{
  int_add, is_out_of_range, update_table, update_checked, update_address, update_command, run_cmd,
  process_json,
}
use modbus_server.Legacy.Command.Changes.{write_typed_same}

-- The tables hold the holding registers that the settings name.
pub record IsServing {W : Type 0} (s : Server W) (m : Mapping) : Type 0 where
  pub first : ℕ
  pub here : s.backend.mapping ≡ some m
  pub starts : s.settings.config.holding_regs_start ≡ pos first
  pub counts : s.settings.config.nb_holding_regs ≡ pos (length m.tab_registers)
  pub sized : IsSized m
  pub fits_int : first + length m.tab_registers < 2 ^ 31

range_lem :
    (a : ℤ) (first n : ℕ)
    → first + n < 2 ^ 31
    → ((is_out_of_range a (pos first) (pos n) ≡ ok true))
      ⊎ ((is_out_of_range a (pos first) (pos n) ≡ ok false)
          × ((k : ℕ) × (a ≡ pos (first + k)) × (k < n)))
unfolding is_out_of_range int_add ◌+ℤ◌
range_lem (negsuc a) first n h = inl (ground arith)
range_lem (pos a) first n h = elim (Bool-cases (ltb a first || not (ltb a (first + n)))) [
  | inl out ↦ inl (ground arith)
  | inr inside ↦ inr (ground arith, (a - first, ground arith, ground arith))
]

index_lem : (first k : ℕ) → pos (first + k) -ℤ pos first ≡ pos k
unfolding ◌-ℤ◌
index_lem first k = ground arith

module _ {Item Double W : Type 0} (c : Cjson Item Double) where
  update_table-Ends :
      (m : Mapping) (addr datatype : Item) (order_it : Option Item) (val : Item) (s : Server W)
      {t : List ℕ} (k : ℕ)
      → IsSized m
      → c.valuestring datatype ≡ some t
      → c.valueint addr -ℤ s.settings.config.holding_regs_start ≡ pos k
      → k < length m.tab_registers
      → Ends (update_table c m addr datatype order_it val s)
        ⊎ ((c.is_number val ≡ true) × IsWide t × (k + 1 ≡ length m.tab_registers))
  unfolding update_table
  update_table-Ends m addr datatype order_it val s {t} k sized text index inside =
      let bo = parse_byte_order (order_text c order_it) in
      let regs = m.tab_registers in
      let within : (ltb_ℤ (pos k) (pos 0) || leb_ℤ m.nb_registers (pos k)) ≡ false =
        rw sized (ground arith) in
      elim (write_value-succeeds c t val bo k regs inside) [
        | inl (r, run) ↦
            let after : Server W = record s {
              backend = record s.backend { mapping = some (record m { tab_registers = r }) };
              printed = s.printed ++ updated (c.valueint addr) t ∷ [];
            } in
            inl
              (after, rw (index, within, text, write_typed_same c t val bo (pos k) regs, run) refl)
        | inr overrun ↦ inr overrun
      ]

  update_address-Ends :
      (m : Mapping) (addr datatype : Item) (order_it : Option Item) (val : Item) (s : Server W)
      {t : List ℕ} (p : IsServing s m)
      → c.valuestring datatype ≡ some t
      → Ends (update_address c addr datatype order_it val s)
        ⊎ ((c.is_number val ≡ true)
            × IsWide t
            × (c.valueint addr +ℤ pos 1 ≡ pos (p.first + length m.tab_registers)))
  unfolding update_address update_checked ◌+ℤ◌
  update_address-Ends m addr datatype order_it val s p text =
      let config = s.settings.config in
      let a = c.valueint addr in
      let n = length m.tab_registers in
      let Range : Bool → Type 0 =
        λ out. is_out_of_range a config.holding_regs_start config.nb_holding_regs ≡ ok out in
      let checked : Bool → Result (Server W) =
        λ out. update_checked c out addr datatype order_it val s in
      elim (range_lem a p.first n p.fits_int) [
        | inl out ↦
            let range : Range true = rw (p.starts, p.counts) out in
            inl (_, ap (λ r. r >>= checked) range)
        | inr (inside, (k, at, lt)) ↦
            let range : Range false = rw (p.starts, p.counts) inside in
            let index : a -ℤ config.holding_regs_start ≡ pos k =
              rw (at, p.starts) (index_lem p.first k) in
            let reached =
              ap (λ r. r >>= checked) range
              ∙ ap (λ r. deref r >>= λ t. update_table c t addr datatype order_it val s) p.here in
            elim (update_table-Ends m addr datatype order_it val s k p.sized text index lt) [
              | inl (s', e) ↦ inl (s', reached ∙ e)
              | inr (number, wide, last) ↦ inr (number, wide, rw at (ground arith))
            ]
      ]

  update_command-Outlives :
      (m : Mapping) {json : List ℕ} (root : Item) (s : Server W)
      (type addr datatype order_it val : Option Item)
      → HasTexts c
      → (p : IsServing s m) → c.parse json ≡ some root
      → c.object_item_case_sensitive root (codes "address") ≡ addr
      → c.object_item_case_sensitive root (codes "datatype") ≡ datatype
      → c.object_item_case_sensitive root (codes "value") ≡ val
      → Outlives c json
          (p.first + length m.tab_registers)
          (update_command c type addr datatype order_it val s)
  unfolding update_command
  update_command-Outlives m root s type (some addr) (some datatype) order_it (some val) texts p
        parsed ea ed ev =
      elim (Bool-cases (test c c.is_string type && (c.is_number addr && c.is_string datatype))) [
        | inr bad ↦ inl (s, rw bad refl)
        | inl good ↦
            let (t, text) = texts datatype (ground arith) in
            elim (update_address-Ends m addr datatype order_it val s p text) [
              | inl (s', e) ↦ inl (s', rw good e)
              | inr (number, wide, last) ↦ inr (record {
                root = root;
                addr = addr;
                datatype = datatype;
                val = val;
                t = t;
                parsed = parsed;
                addr_at = ea;
                datatype_at = ed;
                value_at = ev;
                address = last;
                text = text;
                wide = wide;
                number = number;
              })
            ]
      ]
  update_command-Outlives m root s type none datatype order_it val texts p parsed ea ed ev =
      inl (s, refl)
  update_command-Outlives m root s type (some addr) none order_it val texts p parsed ea ed ev =
      inl (s, refl)
  update_command-Outlives m root s type (some addr) (some datatype) order_it none texts p parsed ea
        ed ev =
      inl (s, refl)

  run_cmd-Outlives :
      (m : Mapping) {json : List ℕ} (cmd : List ℕ) (root : Item) (s : Server W)
      → HasTexts c
      → (p : IsServing s m) → c.parse json ≡ some root
      → Outlives c json (p.first + length m.tab_registers) (run_cmd c cmd root s)
  unfolding run_cmd
  run_cmd-Outlives m {json} cmd root s texts p parsed =
      let Good = Outlives c json (p.first + length m.tab_registers) in
      if_cases Good (str_eq cmd (codes "stop")) (λ stop. inl (_, refl))
        (λ a.
          if_cases Good (str_eq cmd (codes "start")) (λ start. inl (_, refl))
            (λ b.
              if_cases Good (str_eq cmd (codes "status")) (λ status. inl (_, refl))
                (λ d. update_command-Outlives m root s _ _ _ _ _ texts p parsed refl refl refl)))

  -- Where cJSON gives every string item a text, and the table of the server has the size that the
  -- settings name, with addresses within int: process_json of json-modbus-server.c handles a line
  -- without a fault, unless the line is an update with a number of two words for the last register.
  pub process_json-Outlives :
      (m : Mapping) (json : List ℕ) (s : Server W)
      → HasTexts c
      → (p : IsServing s m)
      → Outlives c json (p.first + length m.tab_registers) (process_json c json s)
  unfolding process_json
  process_json-Outlives m json s texts p = elim (Option-cases (c.parse json)) [
    | inl bad ↦ inl (s, rw (process_json, bad) refl)
    | inr (root, good) ↦
        let plain = update_command-Outlives m root s _ _ _ _ _ texts p good refl refl refl in
        elim (Option-cases (c.object_item_case_sensitive root (codes "cmd"))) [
          | inl absent ↦ rw (process_json, good, absent) plain
          | inr (cmd, there) ↦ elim (Bool-cases (c.is_string cmd)) [
            | inl string ↦
                let (text, is_text) = texts cmd string in
                rw (process_json, good, there, string, is_text)
                  (run_cmd-Outlives m text root s texts p good)
            | inr other ↦ rw (process_json, good, there, other) plain
          ]
        ]
  ]
