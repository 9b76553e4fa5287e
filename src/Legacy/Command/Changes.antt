-- ===== src/Legacy/Command/Changes.antt =====
-- What a data update of json-modbus-server.c does to the server, and why.
use modbus_server.Prelude.{
  ℕ, none, ◌≡◌, refl, sym, ◌∙◌, inl, inr, Bool, true, false, ◌&&◌, ◌||◌, List, [], ◌∷◌, ◌++◌,
  Option, some, arith, length, Bool-cases, ◌⊎◌,
}
use modbus_server.Prelude.Int.{ℤ, pos, ltb_ℤ, leb_ℤ, ◌+ℤ◌, ◌-ℤ◌}
use modbus_server.Clib.Fault.{ok, bind-ok, deref, deref-eq-ok}
use modbus_server.Clib.Text.{codes}
use modbus_server.Clib.Memory.{IsWords}
use modbus_server.ByteOrder.{ByteOrder}
use modbus_server.Foreign.Cjson.{Cjson, test}
use modbus_server.Foreign.Mapping.{Mapping}
use modbus_server.JsonCommand.{
  Reply, index_out_of_bounds, address_out_of_range, updated, order_text, write_value,
}
use modbus_server.JsonCommand.Values.{write_value-length}
use modbus_server.JsonCommand.Ranges.{write_value-IsWords}
use modbus_server.Legacy.{Server}
use modbus_server.Legacy.Words.{parse_byte_order, write_registers_same}
use modbus_server.Legacy.Command.{
  int_add, is_out_of_range, write_typed, update_table, update_checked, update_address,
  update_command, update_root,
}

module _ {Item Double : Type 0} (c : Cjson Item Double) where
  -- Whether the items are there that an update names, each of its kind.
  abbrev names_update : Option Item → Option Item → Option Item → Option Item → Bool
  names_update type addr datatype none = false
  names_update type addr datatype (some _) =
      test c c.is_string type && (test c c.is_number addr && test c c.is_string datatype)

  abbrev pub is_update : Item → Bool
  is_update root =
      let item = c.object_item_case_sensitive root in
      names_update (item (codes "type")) (item (codes "address")) (item (codes "datatype"))
        (item (codes "value"))

-- Whether an address is none of the holding registers that the settings name.
abbrev pub is_outside : {W : Type 0} → Server W → ℤ → Bool
is_outside s a =
    let config = s.settings.config in
    ltb_ℤ a config.holding_regs_start
    || leb_ℤ (config.holding_regs_start +ℤ config.nb_holding_regs) a

-- Why an update is refused, and with which line: its address is none of those of the settings, which
-- the line names, or it is not in the table.
abbrev pub IsRefusal :
    {Item Double W : Type 0} → Cjson Item Double → Item → Server W → Reply → Type 0
IsRefusal {Item} c root s line =
    (is_update c root ≡ true)
    × (addr : Item) × (c.object_item_case_sensitive root (codes "address") ≡ some addr)
    × (((is_outside s (c.valueint addr) ≡ true) × (line ≡ address_out_of_range (c.valueint addr)))
        ⊎ ((m : Mapping) × (is_outside s (c.valueint addr) ≡ false)
            × (s.backend.mapping ≡ some m)
            × (let idx = c.valueint addr -ℤ s.settings.config.holding_regs_start in
                (ltb_ℤ idx (pos 0) || leb_ℤ m.nb_registers idx) ≡ true)
            × (line ≡ index_out_of_bounds)))

-- The update is one of the address `a` with the datatype `t`, inside the settings and the table `m`,
-- whose registers are `r` after the write of its value in its byte order.
pub record IsWrite {Item Double W : Type 0} (c : Cjson Item Double) (root : Item) (s : Server W)
    (m : Mapping) (r : List ℕ) (a : ℤ) (t : List ℕ) : Type 0 where
  pub addr : Item
  pub datatype : Item
  pub val : Item
  pub shape : is_update c root ≡ true
  pub addr_at : c.object_item_case_sensitive root (codes "address") ≡ some addr
  pub datatype_at : c.object_item_case_sensitive root (codes "datatype") ≡ some datatype
  pub value_at : c.object_item_case_sensitive root (codes "value") ≡ some val
  pub address : c.valueint addr ≡ a
  pub text : c.valuestring datatype ≡ some t
  pub inside : is_outside s a ≡ false
  pub here : s.backend.mapping ≡ some m
  pub in_table :
      (let idx = a -ℤ s.settings.config.holding_regs_start in
        (ltb_ℤ idx (pos 0) || leb_ℤ m.nb_registers idx) ≡ false)
  pub wrote :
      write_value c t val
        (parse_byte_order (order_text c (c.object_item_case_sensitive root (codes "byte_order"))))
        (a -ℤ s.settings.config.holding_regs_start)
        m.tab_registers
      ≡ ok r
  pub same_length : length r ≡ length m.tab_registers
  pub words : IsWords m.tab_registers → IsWords r

-- What a data update does to a server.
pub data Change {Item Double W : Type 0} (c : Cjson Item Double) (root : Item) (s s' : Server W)
    : Type 0 where
  -- It names no update, and does nothing.
  ignored : is_update c root ≡ false → s' ≡ s → Change c root s s'
  -- It is refused with an error line.
  refused :
      (line : Reply)
      → IsRefusal c root s line
      → s' ≡ record s { printed = s.printed ++ line ∷ [] }
      → Change c root s s'
  -- It writes to the register table, and reports the address and the datatype.
  written :
      (m : Mapping) (r : List ℕ) (a : ℤ) (t : List ℕ)
      → IsWrite c root s m r a t
      → s' ≡ record s {
        backend = record s.backend { mapping = some (record m { tab_registers = r }) };
        printed = s.printed ++ updated a t ∷ [];
      }
      → Change c root s s'

module _ {Item Double : Type 0} (c : Cjson Item Double) where
  -- Both programs write a value in the same way.
  pub write_typed_same :
      (t : List ℕ) (val : Item) (bo : ByteOrder) (idx : ℤ) (regs : List ℕ)
      → write_typed c t val bo idx regs ≡ write_value c t val bo idx regs
  unfolding write_typed write_value
  write_typed_same t val bo idx regs = grind (arith, write_registers_same)

-- The check of an address that does not overflow.
is_out_of_range-ok :
    (a start nb : ℤ) {out : Bool}
    → is_out_of_range a start nb ≡ ok out
    → (ltb_ℤ a start || leb_ℤ (start +ℤ nb) a) ≡ out
unfolding is_out_of_range int_add
is_out_of_range-ok a start nb e = ground arith

module _ {Item Double W : Type 0} (c : Cjson Item Double) where
  update_table-Change :
      (m : Mapping) (root addr datatype val : Item) (s : Server W) {s' : Server W}
      → is_update c root ≡ true
      → c.object_item_case_sensitive root (codes "address") ≡ some addr
      → c.object_item_case_sensitive root (codes "datatype") ≡ some datatype
      → c.object_item_case_sensitive root (codes "value") ≡ some val
      → is_outside s (c.valueint addr) ≡ false
      → s.backend.mapping ≡ some m
      → update_table c m addr datatype
          (c.object_item_case_sensitive root (codes "byte_order"))
          val
          s
        ≡ ok s'
      → Change c root s s'
  unfolding update_table
  update_table-Change m root addr datatype val s {s'} shape ea ed ev inside here e =
      let a = c.valueint addr in
      let idx = a -ℤ s.settings.config.holding_regs_start in
      let bo =
        parse_byte_order (order_text c (c.object_item_case_sensitive root (codes "byte_order"))) in
      elim (Bool-cases (ltb_ℤ idx (pos 0) || leb_ℤ m.nb_registers idx)) [
        | inl out ↦
            refused index_out_of_bounds (shape, addr, ea, inr (m, inside, here, out, refl))
              (ground arith)
        | inr in_table ↦
            let e1 = rw in_table at e in
            let (t, is_text, e2) = bind-ok (deref (c.valuestring datatype)) _ e1 in
            let (r, ran, e3) = bind-ok (write_typed c t val bo idx m.tab_registers) _ e2 in
            let wrote = sym (write_typed_same c t val bo idx m.tab_registers) ∙ ran in
            written m r a t
              (record {
                addr = addr;
                datatype = datatype;
                val = val;
                shape = shape;
                addr_at = ea;
                datatype_at = ed;
                value_at = ev;
                address = refl;
                text = deref-eq-ok (c.valuestring datatype) is_text;
                inside = inside;
                here = here;
                in_table = in_table;
                wrote = wrote;
                same_length = write_value-length c t val bo idx m.tab_registers wrote;
                words = λ words. write_value-IsWords c t val bo idx m.tab_registers words wrote;
              })
              (cc)
      ]

  update_checked-Change :
      (out : Bool) (root addr datatype val : Item) (s : Server W) {s' : Server W}
      → is_update c root ≡ true
      → c.object_item_case_sensitive root (codes "address") ≡ some addr
      → c.object_item_case_sensitive root (codes "datatype") ≡ some datatype
      → c.object_item_case_sensitive root (codes "value") ≡ some val
      → is_outside s (c.valueint addr) ≡ out
      → update_checked c out addr datatype
          (c.object_item_case_sensitive root (codes "byte_order"))
          val
          s
        ≡ ok s'
      → Change c root s s'
  unfolding update_checked
  update_checked-Change true root addr datatype val s shape ea ed ev outside e =
      refused (address_out_of_range (c.valueint addr)) (shape, addr, ea, inl (outside, refl))
        (ground arith)
  update_checked-Change false root addr datatype val s shape ea ed ev inside e =
      let (m, there, e') = bind-ok (deref s.backend.mapping) _ e in
      update_table-Change m root addr datatype val s shape ea ed ev inside
        (deref-eq-ok s.backend.mapping there) e'

  update_command-Change :
      (root : Item) (type addr datatype val : Option Item) (s : Server W) {s' : Server W}
      → c.object_item_case_sensitive root (codes "type") ≡ type
      → c.object_item_case_sensitive root (codes "address") ≡ addr
      → c.object_item_case_sensitive root (codes "datatype") ≡ datatype
      → c.object_item_case_sensitive root (codes "value") ≡ val
      → update_command c type addr datatype
          (c.object_item_case_sensitive root (codes "byte_order"))
          val
          s
        ≡ ok s'
      → Change c root s s'
  unfolding update_command update_address
  update_command-Change root type (some addr) (some datatype) (some val) s et ea ed ev e =
      elim (Bool-cases (test c c.is_string type && (c.is_number addr && c.is_string datatype))) [
        | inl good ↦
            let config = s.settings.config in
            let (out, range, e') =
              bind-ok
                (is_out_of_range (c.valueint addr) config.holding_regs_start config.nb_holding_regs)
                _ (rw good at e) in
            update_checked-Change out root addr datatype val s (rw (et, ea, ed, ev) (ground arith))
              ea ed ev
              (is_out_of_range-ok (c.valueint addr) config.holding_regs_start config.nb_holding_regs
                range)
              e'
        | inr bad ↦ ignored (rw (et, ea, ed, ev) (ground arith)) (ground arith)
      ]
  update_command-Change root type none datatype val s et ea ed ev e =
      ignored (rw (et, ea, ed, ev) (ground arith)) (ground arith)
  update_command-Change root type (some addr) none val s et ea ed ev e =
      ignored (rw (et, ea, ed, ev) (ground arith)) (ground arith)
  update_command-Change root type (some addr) (some datatype) none s et ea ed ev e =
      ignored (rw (et, ea, ed, ev) (ground arith)) (ground arith)

  pub update_root-Change :
      (root : Item) (s : Server W) {s' : Server W}
      → update_root c root s ≡ ok s'
      → Change c root s s'
  update_root-Change root s e = update_command-Change root _ _ _ _ s refl refl refl refl e
