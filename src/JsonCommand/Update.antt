-- ===== src/JsonCommand/Update.antt =====
-- `json_command_update_data`: what it writes, when it refuses, and where it leaves the table.
use modbus_server.Prelude.{
  ℕ, ◌+◌, ◌≤◌, ◌<◌, ◌≡◌, ◌≢◌, refl, ◌∙◌, ◌⊎◌, inl, inr, true, ◌&&◌, ◌||◌, List, [], ◌∷◌, Option,
  none, some, arith, length, Bool-cases, Option-cases,
}
use modbus_server.Prelude.Int.{ℤ, pos, minus_one, ltb_ℤ, leb_ℤ, ◌≤ℤ◌}
use modbus_server.Clib.Fault.{ok, fault, out_of_bounds, bind-ok, deref}
use modbus_server.Clib.Text.{codes}
use modbus_server.ByteOrder.{ByteOrder, parse_byte_order}
use modbus_server.ByteOrder.Layout.{Written}
use modbus_server.Foreign.Cjson.{Cjson, test}
use modbus_server.Foreign.Mapping.{Mapping, IsSized}
use modbus_server.Backend.{Backend}
use modbus_server.JsonCommand.{
  Updated, updated, index_out_of_bounds_at, write_value, order_text, update_mapping, update_backend,
  update_items, json_command_update_data,
}
use modbus_server.Clib.Memory.{IsWords}
use modbus_server.JsonCommand.Values.{
  written_words, write_value_lem, write_value_outside, IsWide, length-written_words,
  write_value-length,
}
use modbus_server.JsonCommand.Ranges.{write_value-IsWords}

-- The text is a data update: of the value `val` as a `t` at the address `a` under the order `bo`.
pub record IsUpdate {Item Double : Type 0} (c : Cjson Item Double) (json t : List ℕ) (a : ℤ)
    (bo : ByteOrder) (val : Item) : Type 0 where
  pub root : Item
  pub type : Item
  pub addr : Item
  pub datatype : Item
  pub order_it : Option Item
  pub parsed : c.parse json ≡ some root
  pub type_at : c.object_item_case_sensitive root (codes "type") ≡ some type
  pub addr_at : c.object_item_case_sensitive root (codes "address") ≡ some addr
  pub datatype_at : c.object_item_case_sensitive root (codes "datatype") ≡ some datatype
  pub order_at : c.object_item_case_sensitive root (codes "byte_order") ≡ order_it
  pub value_at : c.object_item_case_sensitive root (codes "value") ≡ some val
  pub type_string : c.is_string type ≡ true
  pub addr_number : c.is_number addr ≡ true
  pub datatype_string : c.is_string datatype ≡ true
  pub address : c.valueint addr ≡ a
  pub text : c.valuestring datatype ≡ some t
  pub order : parse_byte_order (order_text c order_it) ≡ bo

-- What a call that returns has done to the backend it was given, by its status.
abbrev pub Keeps : Option Backend → Updated → Type 0
Keeps backend u =
    ((u.status ≡ minus_one) × (u.backend ≡ backend))
    ⊎ ((b : Backend) × (m : Mapping) × (r : List ℕ) × (u.status ≡ pos 0)
        × (backend ≡ some b)
        × (b.mapping ≡ some m)
        × (u.backend ≡ some (record b { mapping = some (record m { tab_registers = r }) }))
        × (length r ≡ length m.tab_registers)
        × (IsWords m.tab_registers → IsWords r))

module _ {Item Double : Type 0} (c : Cjson Item Double) where
  -- A well-formed command reaches the check of the index.
  update_data-mapping :
      {json t : List ℕ} {a : ℤ} {bo : ByteOrder} {val : Item} (b : Backend) (m : Mapping)
      (u : IsUpdate c json t a bo val)
      → b.mapping ≡ some m
      → json_command_update_data c json (some b)
        ≡ update_mapping c b m u.addr u.datatype u.order_it val
  unfolding json_command_update_data
  update_data-mapping b m u e = ground arith

  -- A well-formed data update whose address is in the table of a sized mapping, and whose words
  -- fit, returns 0, writes the words of the value in the given order from that register on and
  -- nothing else, and reports the address and the datatype.
  pub update_data_writes :
      {json t : List ℕ} {bo : ByteOrder} {val : Item} (s : ℕ) (b : Backend) (m : Mapping)
      → IsUpdate c json t (pos s) bo val
      → b.mapping ≡ some m
      → IsSized m
      → s < length m.tab_registers
      → s + length (written_words c t val bo) ≤ length m.tab_registers
      → (r : List ℕ) × (json_command_update_data c json (some b)
          ≡ ok (record {
            status = pos 0;
            backend = some (record b { mapping = some (record m { tab_registers = r }) });
            printed = updated (pos s) t ∷ [];
          }))
        × Written s (written_words c t val bo) m.tab_registers r
  unfolding update_mapping
  update_data_writes {t} {bo} {val} s b m u e sized inside fits =
      let (r, run, w) = write_value_lem c t val bo s m.tab_registers fits in
      (r, update_data-mapping b m u e ∙ rw (u.address, u.text, u.order, sized) (ground arith), w)

  -- A well-formed update with a number for a 32-bit or float datatype at the last register of a
  -- sized mapping writes outside the table.
  pub update_data_overruns :
      {json t : List ℕ} {bo : ByteOrder} {val : Item} (s : ℕ) (b : Backend) (m : Mapping)
      → IsUpdate c json t (pos s) bo val
      → b.mapping ≡ some m
      → IsSized m
      → c.is_number val ≡ true
      → IsWide t
      → s + 1 ≡ length m.tab_registers
      → json_command_update_data c json (some b) ≡ fault out_of_bounds
  unfolding update_mapping
  update_data_overruns {t} {bo} {val} s b m u e sized number wide last =
      update_data-mapping b m u e
      ∙ rw (u.address, u.text, u.order, sized)
          (ground (
            arith,
            write_value_outside c t val bo s m.tab_registers,
            length-written_words c t val bo number wide,
          ))

  -- A well-formed data update for an address outside the table of a sized mapping returns -1,
  -- leaves the backend as it was and prints the error with the address.
  pub update_data_refuses :
      {json t : List ℕ} {a : ℤ} {bo : ByteOrder} {val : Item} (b : Backend) (m : Mapping)
      → IsUpdate c json t a bo val
      → b.mapping ≡ some m
      → IsSized m
      → ¬ ((pos 0 ≤ℤ a) × (a ≤ℤ pos (length m.tab_registers)) × (a ≢ pos (length m.tab_registers)))
      → json_command_update_data c json (some b)
        ≡ ok (record {
          status = minus_one;
          backend = some b;
          printed = index_out_of_bounds_at a ∷ [];
        })
  unfolding update_mapping
  update_data_refuses {a} b m u e sized out =
      update_data-mapping b m u e ∙ rw (u.address, sized) (ground arith)

  update_mapping-Keeps :
      (b : Backend) (m : Mapping) (addr datatype : Item) (order_it : Option Item) (val : Item)
      {u : Updated}
      → b.mapping ≡ some m
      → update_mapping c b m addr datatype order_it val ≡ ok u
      → Keeps (some b) u
  unfolding update_mapping
  update_mapping-Keeps b m addr datatype order_it val here e =
      elim (Bool-cases
        (ltb_ℤ (c.valueint addr) (pos 0) || leb_ℤ m.nb_registers (c.valueint addr))) [
          | inl out ↦ inl (ground arith)
          | inr inside ↦
              let e1 = rw inside at e in
              let (t, _, e2) = bind-ok (deref (c.valuestring datatype)) _ e1 in
              let (r, wrote, e3) =
                bind-ok
                  (write_value c t val (parse_byte_order (order_text c order_it)) (c.valueint addr)
                    m.tab_registers)
                  _ e2 in
              inr (
                b,
                m,
                r,
                cc,
                refl,
                here,
                cc,
                write_value-length c t val _ (c.valueint addr) m.tab_registers wrote,
                λ words.
                    write_value-IsWords c t val _ (c.valueint addr) m.tab_registers words wrote,
              )
        ]

  update_backend-Keeps :
      (backend : Option Backend) (addr datatype : Item) (order_it : Option Item) (val : Item)
      {u : Updated}
      → update_backend c backend addr datatype order_it val ≡ ok u
      → Keeps backend u
  unfolding update_backend
  update_backend-Keeps none addr datatype order_it val e = inl (ground arith)
  update_backend-Keeps (some b) addr datatype order_it val e = elim (Option-cases b.mapping) [
    | inl missing ↦ inl (ground arith)
    | inr (m, here) ↦ update_mapping-Keeps b m addr datatype order_it val here (rw here at e)
  ]

  update_items-Keeps :
      (backend : Option Backend) (type addr datatype order_it val : Option Item) {u : Updated}
      → update_items c backend type addr datatype order_it val ≡ ok u
      → Keeps backend u
  unfolding update_items
  update_items-Keeps backend type (some addr) (some datatype) order_it (some val) e =
      elim (Bool-cases (test c c.is_string type && (c.is_number addr && c.is_string datatype))) [
        | inl good ↦ update_backend-Keeps backend addr datatype order_it val (rw good at e)
        | inr bad ↦ inl (ground arith)
      ]
  update_items-Keeps backend type _ _ order_it _ e = inl (ground arith)

  -- A data update that returns, for any text and backend, has status -1 and has changed nothing, or
  -- has status 0 and has changed the contents of the register table alone, not its length, and
  -- 16-bit words in it stay 16-bit words.
  pub update_data-Keeps :
      (json : List ℕ) (backend : Option Backend) {u : Updated}
      → json_command_update_data c json backend ≡ ok u
      → Keeps backend u
  unfolding json_command_update_data
  update_data-Keeps json backend e = elim (Option-cases (c.parse json)) [
    | inl bad ↦ inl (ground arith)
    | inr (root, good) ↦
        update_items-Keeps backend _ _ _ _ _ (rw (good, json_command_update_data) at e)
  ]
