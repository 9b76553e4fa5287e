-- ===== src/JsonCommand/Faults.antt =====
-- The lines that json_command.c can handle: all but the updates that write past the end of the
-- registers.
use modbus_server.Prelude.{
  ℕ, ◌<◌, ◌≡◌, refl, sym, ap, ◌⊎◌, inl, inr, true, false, ◌&&◌, ◌||◌, List, [], ◌∷◌, ◌++◌, Option,
  none, some, arith, length, Bool-cases, Option-cases, if_cases, if◌then◌else◌,
}
use modbus_server.Prelude.Int.{ℤ, pos, negsuc, minus_one, ltb_ℤ, leb_ℤ, ◌+ℤ◌}
use modbus_server.Clib.Fault.{Result, ok, ◌>>=◌, deref}
use modbus_server.Clib.Text.{codes, str_eq}
use modbus_server.Foreign.Cjson.{Cjson, HasTexts, test}
use modbus_server.Foreign.Mapping.{Mapping, IsSized}
use modbus_server.Backend.{Backend}
use modbus_server.ByteOrder.{parse_byte_order}
use modbus_server.JsonCommand.{
  Session, Updated, updated, write_value, index_out_of_bounds_at, order_text, update_mapping,
  update_backend, update_items, json_command_update_data, process_update, process_cmd,
  json_command_process,
}
use modbus_server.JsonCommand.Values.{IsWide}
use modbus_server.JsonCommand.Widths.{write_value-succeeds}

-- The text is an update with a number of two words for the address just before `next`.
pub record IsOverrun {Item Double : Type 0} (c : Cjson Item Double) (json : List ℕ) (next : ℕ)
    : Type 0 where
  pub root : Item
  pub addr : Item
  pub datatype : Item
  pub val : Item
  pub t : List ℕ
  pub parsed : c.parse json ≡ some root
  pub addr_at : c.object_item_case_sensitive root (codes "address") ≡ some addr
  pub datatype_at : c.object_item_case_sensitive root (codes "datatype") ≡ some datatype
  pub value_at : c.object_item_case_sensitive root (codes "value") ≡ some val
  pub address : c.valueint addr +ℤ pos 1 ≡ pos next
  pub text : c.valuestring datatype ≡ some t
  pub wide : IsWide t
  pub number : c.is_number val ≡ true

-- The table, where there is one, has that many registers and says so.
abbrev pub HasSize : ℕ → Option Backend → Type 0
HasSize n none = Unit
HasSize n (some b) = (m : Mapping) → b.mapping ≡ some m → IsSized m × (length m.tab_registers ≡ n)

inside_lem :
    (a : ℤ) (n : ℕ) → (ltb_ℤ a (pos 0) || leb_ℤ (pos n) a) ≡ false → (k : ℕ) × (a ≡ pos k) × (k < n)
inside_lem (negsuc a) n h = absurd (ground arith)
inside_lem (pos a) n h = (a, refl, ground arith)

-- A run that ends without a fault.
abbrev pub Ends : {A : Type 0} → Result A → Type 0
Ends {A} r = (x : A) × (r ≡ ok x)

module _ {Item Double : Type 0} (c : Cjson Item Double) where
  -- A line whose run ends without a fault, or which writes past the end of the table.
  abbrev pub Outlives : {A : Type 0} → List ℕ → ℕ → Result A → Type 0
  Outlives json next r = Ends r ⊎ IsOverrun c json next

  update_mapping-Ends :
      (b : Backend) (m : Mapping) (addr datatype : Item) (order_it : Option Item) (val : Item)
      {t : List ℕ}
      → IsSized m
      → c.valuestring datatype ≡ some t
      → Ends (update_mapping c b m addr datatype order_it val)
        ⊎ ((c.is_number val ≡ true)
            × IsWide t
            × (c.valueint addr +ℤ pos 1 ≡ pos (length m.tab_registers)))
  unfolding update_mapping ◌+ℤ◌
  update_mapping-Ends b m addr datatype order_it val {t} sized text =
      let a = c.valueint addr in
      let bo = parse_byte_order (order_text c order_it) in
      elim (Bool-cases (ltb_ℤ a (pos 0) || leb_ℤ m.nb_registers a)) [
        | inl out ↦ inl (
          _,
          ap
              (λ o.
                if o
                then ok (record {
                  status = minus_one;
                  backend = some b;
                  printed = index_out_of_bounds_at a ∷ [];
                })
                else (deref (c.valuestring datatype) >>= λ t'.
                    write_value c t' val bo a m.tab_registers >>= λ regs. ok (record {
                      status = pos 0;
                      backend =
                          some (record b { mapping = some (record m { tab_registers = regs }) });
                      printed = updated a t' ∷ [];
                    })))
              out,
        )
        | inr inside ↦
            let (k, at, lt) = inside_lem a (length m.tab_registers) (rw sized at inside) in
            elim (write_value-succeeds c t val bo k m.tab_registers lt) [
              | inl (r, run) ↦
                  let after : Updated = record {
                    status = pos 0;
                    backend = some (record b { mapping = some (record m { tab_registers = r }) });
                    printed = updated a t ∷ [];
                  } in
                  inl (after, rw (inside, text, at, run) refl)
              | inr (number, wide, last) ↦ inr (number, wide, rw at (ground arith))
            ]
      ]

  update_backend-Ends :
      (n : ℕ) (backend : Option Backend) (addr datatype : Item) (order_it : Option Item)
      (val : Item) {t : List ℕ}
      → HasSize n backend
      → c.valuestring datatype ≡ some t
      → Ends (update_backend c backend addr datatype order_it val)
        ⊎ ((c.is_number val ≡ true) × IsWide t × (c.valueint addr +ℤ pos 1 ≡ pos n))
  unfolding update_backend
  update_backend-Ends n none addr datatype order_it val size text = inl (_, refl)
  update_backend-Ends n (some b) addr datatype order_it val {t} size text =
      elim (Option-cases b.mapping) [
        | inl absent ↦ rw absent (inl (_, refl))
        | inr (m, here) ↦
            let (sized, count) = size m here in
            rw (here, sym count) (update_mapping-Ends b m addr datatype order_it val sized text)
      ]

  update_items-Outlives :
      (n : ℕ) {json : List ℕ} (backend : Option Backend) (root : Item)
      (type addr datatype order_it val : Option Item)
      → HasTexts c
      → HasSize n backend
      → c.parse json ≡ some root
      → c.object_item_case_sensitive root (codes "address") ≡ addr
      → c.object_item_case_sensitive root (codes "datatype") ≡ datatype
      → c.object_item_case_sensitive root (codes "value") ≡ val
      → Outlives json n (update_items c backend type addr datatype order_it val)
  unfolding update_items
  update_items-Outlives n backend root type (some addr) (some datatype) order_it (some val) texts
        size parsed ea ed ev =
      elim (Bool-cases (test c c.is_string type && (c.is_number addr && c.is_string datatype))) [
        | inr bad ↦ rw bad (inl (_, refl))
        | inl good ↦
            let (t, text) = texts datatype (ground arith) in
            elim (update_backend-Ends n backend addr datatype order_it val size text) [
              | inl (u, e) ↦ inl (u, rw good e)
              | inr (number, wide, last) ↦ inr (record {
                root = root;
                addr = addr;
                datatype = datatype;
                val = val;
                t = t;
                parsed = parsed;
                addr_at = ea;
                datatype_at = ed;
                value_at = ev;
                address = last;
                text = text;
                wide = wide;
                number = number;
              })
            ]
      ]
  update_items-Outlives n backend root type none datatype order_it val texts size parsed ea ed ev =
      inl (_, refl)
  update_items-Outlives n backend root type (some addr) none order_it val texts size parsed ea ed
        ev =
      inl (_, refl)
  update_items-Outlives n backend root type (some addr) (some datatype) order_it none texts size
        parsed ea ed ev =
      inl (_, refl)

  -- Where cJSON gives every string item a text, and the table of the backend, if there is one, has
  -- as many registers as it says: json_command_update_data handles a text without a fault, unless
  -- the text is an update with a number of two words for the last register.
  pub update_data-Outlives :
      (n : ℕ) (json : List ℕ) (backend : Option Backend)
      → HasTexts c
      → HasSize n backend
      → Outlives json n (json_command_update_data c json backend)
  unfolding json_command_update_data
  update_data-Outlives n json backend texts size = elim (Option-cases (c.parse json)) [
    | inl bad ↦ rw (json_command_update_data, bad) (inl (_, refl))
    | inr (root, good) ↦
        rw (json_command_update_data, good)
          (update_items-Outlives n backend root _ _ _ _ _ texts size good refl refl refl)
  ]

  process_update-Outlives :
      (n : ℕ) (json : List ℕ) (s : Session)
      → HasTexts c
      → HasSize n s.backend
      → Outlives json n (process_update c json s)
  process_update-Outlives n json s texts size =
      elim (update_data-Outlives n json s.backend texts size) [
        | inl (u, run) ↦
            inl (record s { backend = u.backend; printed = s.printed ++ u.printed }, rw run refl)
        | inr overrun ↦ inr overrun
      ]

  process_cmd-Outlives :
      (n : ℕ) (cmd json : List ℕ) (s : Session)
      → HasTexts c
      → HasSize n s.backend
      → Outlives json n (process_cmd c cmd json s)
  unfolding process_cmd
  process_cmd-Outlives n cmd json s texts size =
      let Good = Outlives json n in
      if_cases Good (str_eq cmd (codes "stop")) (λ stop. inl (_, refl))
        (λ a.
          if_cases Good (str_eq cmd (codes "start")) (λ start. inl (_, refl))
            (λ b.
              if_cases Good (str_eq cmd (codes "status")) (λ status. inl (_, refl))
                (λ d. process_update-Outlives n json s texts size)))

  -- Where cJSON gives every string item a text, and the table of the backend, if there is one, has
  -- as many registers as it says: json_command_process handles a line without a fault, whatever the
  -- state and with or without a backend or table, unless the line is an update with a number of two
  -- words for the last register.
  pub json_command_process-Outlives :
      (n : ℕ) (json : List ℕ) (s : Session)
      → HasTexts c
      → HasSize n s.backend
      → Outlives json n (json_command_process c json s)
  unfolding json_command_process
  json_command_process-Outlives n json s texts size =
      let plain = process_update-Outlives n json s texts size in
      elim (Option-cases (c.parse json)) [
        | inl bad ↦ inl (s, rw (json_command_process, bad) refl)
        | inr (root, good) ↦ elim (Option-cases (c.object_item_case_sensitive root (codes "cmd"))) [
          | inl absent ↦ rw (json_command_process, good, absent) plain
          | inr (cmd, there) ↦ elim (Bool-cases (c.is_string cmd)) [
            | inl string ↦
                let (text, is_text) = texts cmd string in
                rw (json_command_process, good, there, string, is_text)
                  (process_cmd-Outlives n text json s texts size)
            | inr other ↦ rw (json_command_process, good, there, other) plain
          ]
        ]
      ]
