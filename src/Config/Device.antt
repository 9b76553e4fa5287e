-- ===== src/Config/Device.antt =====
-- The buffer of 64 bytes for the name of the serial device in config_loader.c.
use modbus_server.Prelude.{
  ℕ, zero, suc, ◌+◌, ◌-◌, ◌≤◌, ◌≡◌, refl, ap, subst, ◌∙◌, inl, inr, List, [], ◌∷◌, ◌++◌, Option,
  none, some, arith, length, get_elem?, take, drop, replicate, length-append, length-take,
  length-drop, length-replicate, Bool-cases, Option-cases,
}
use mathlib.Core.List.{append_assoc}
use modbus_server.Prelude.Int.{ℤ}
use modbus_server.Clib.Fault.{ok, bind-ok}
use modbus_server.Clib.Text.{codes, str_copy, str_copy_n, until_nul}
use modbus_server.Foreign.Cjson.{Cjson}
use modbus_server.Config.{
  ModbusConfig, set_defaults, string_item, parse_mode, parse_serial_object, parse_serial,
  parse_ranges, parse_config, config_load,
}

get_elem?-append :
    (xs ys : List ℕ) (i : ℕ) → length xs ≤ i → get_elem? (xs ++ ys) i ≡ get_elem? ys (i - length xs)
get_elem?-append [] ys i h = ap (get_elem? ys) (omega arith)
get_elem?-append (x ∷ xs) ys zero h = absurd (omega arith)
get_elem?-append (x ∷ xs) ys (suc i) h =
    get_elem?-append xs ys i (omega arith) ∙ ap (get_elem? ys) (omega arith)

suc-eq : (n i : ℕ) → suc (n + i) ≡ suc n + i
suc-eq n i = omega arith

get_elem?-drop : (n : ℕ) (xs : List ℕ) (i : ℕ) → get_elem? (drop n xs) i ≡ get_elem? xs (n + i)
get_elem?-drop zero xs i = ap (get_elem? xs) (omega arith)
get_elem?-drop (suc n) [] i = refl
get_elem?-drop (suc n) (x ∷ xs) i = get_elem?-drop n xs i ∙ ap (get_elem? (x ∷ xs)) (suc-eq n i)

-- Two buffers of 64 bytes with the same last byte.
pub record IsKept (old new : List ℕ) : Type 0 where
  pub size : length new ≡ 64
  pub last : get_elem? new 63 ≡ get_elem? old 63

-- What is put before the last byte leaves it alone.
tail-IsKept :
    (n : ℕ) (old buf front : List ℕ)
    → n ≤ 63
    → length front ≡ n
    → IsKept old buf
    → IsKept old (front ++ drop n buf)
tail-IsKept n old buf front h size k = record {
  size = omega (arith, length-append front (drop n buf), length-drop n buf, k.size);
  last =
      get_elem?-append front (drop n buf) 63 (omega arith)
      ∙ ap (get_elem? (drop n buf)) {y = 63 - n} (omega arith)
      ∙ get_elem?-drop n buf (63 - n)
      ∙ ap (get_elem? buf) {y = 63} (omega arith)
      ∙ k.last;
}

pub str_copy_n-IsKept : (old buf s : List ℕ) → IsKept old buf → IsKept old (str_copy_n buf s 63)
unfolding str_copy_n
str_copy_n-IsKept old buf s k =
    let pad : List ℕ = replicate (63 - length s) 0 in
    subst (IsKept old) (append_assoc (take 63 s) pad (drop 63 buf)) (
      tail-IsKept 63 old buf (take 63 s ++ pad) (omega arith)
        (omega (
          arith,
          length-append (take 63 s) pad,
          length-take 63 s,
          length-replicate {A = ℕ} (63 - length s) 0,
        ))
        k)

module _ {Item Double : Type 0} (c : Cjson Item Double) where
  parse_serial_object-IsKept :
      (j : Item) (old : List ℕ) (config : ModbusConfig) {r : ModbusConfig}
      → parse_serial_object c j config ≡ ok r
      → IsKept old config.serial_device
      → IsKept old r.serial_device
  unfolding parse_serial_object
  parse_serial_object-IsKept j old config e k =
      let (device, _, e1) = bind-ok (string_item c j (codes "device")) _ e in
      let (parity, _, e2) = bind-ok (string_item c j (codes "parity")) _ e1 in
      elim (Option-cases device) [
        | inl absent ↦ subst (IsKept old) (ground arith) k
        | inr (s, there) ↦
            subst (IsKept old) (ground arith) (str_copy_n-IsKept old config.serial_device s k)
      ]

  parse_serial-IsKept :
      (root : Item) (old : List ℕ) (config : ModbusConfig) {r : ModbusConfig}
      → parse_serial c root config ≡ ok r
      → IsKept old config.serial_device
      → IsKept old r.serial_device
  unfolding parse_serial
  parse_serial-IsKept root old config e k =
      elim (Option-cases (c.object_item root (codes "serial"))) [
        | inl absent ↦ subst (IsKept old) (ground arith) k
        | inr (j, there) ↦ elim (Bool-cases (c.is_object j)) [
          | inl object ↦
              parse_serial_object-IsKept j old config (rw (there, parse_serial, object) at e) k
          | inr other ↦ subst (IsKept old) (ground arith) k
        ]
      ]

  parse_config-IsKept :
      (root : Item) (old : List ℕ) (config : ModbusConfig) {r : ModbusConfig}
      → parse_config c root config ≡ ok r
      → IsKept old config.serial_device
      → IsKept old r.serial_device
  unfolding parse_config parse_mode parse_ranges
  parse_config-IsKept root old config e k =
      let (m, mode, e1) = bind-ok (parse_mode c root config) _ e in
      let (_, _, e0) = bind-ok (string_item c root (codes "mode")) _ mode in
      let (s, serial, e2) = bind-ok (parse_serial c root _) _ e1 in
      subst (IsKept old) (ground arith)
        (parse_serial-IsKept root old _ serial (subst (IsKept old) (ground arith) k))

  set_defaults-IsKept :
      (config : ModbusConfig)
      → length config.serial_device ≡ 64
      → IsKept config.serial_device (set_defaults config).serial_device
  unfolding set_defaults str_copy
  set_defaults-IsKept config size =
      let old = config.serial_device in
      tail-IsKept 13 old old (codes "/dev/ttyUSB0" ++ 0 ∷ []) (omega arith) refl
        (record { size = size; last = refl })

  -- For a buffer of 64 bytes, a config_load that returns, whatever the file, keeps the size of the
  -- buffer for the device and leaves its last byte as the caller had it.
  pub config_load-IsKept :
      (file : Option (List ℕ)) (config : ModbusConfig) {r : ℤ × ModbusConfig}
      → config_load c file config ≡ ok r
      → length config.serial_device ≡ 64
      → IsKept config.serial_device r.1.serial_device
  unfolding config_load
  config_load-IsKept none config e size =
      subst (IsKept config.serial_device) (ground arith) (set_defaults-IsKept config size)
  config_load-IsKept (some file) config e size =
      elim (Option-cases (c.parse (until_nul (take 2047 file)))) [
        | inl bad ↦
            subst (IsKept config.serial_device) (ground arith) (set_defaults-IsKept config size)
        | inr (root, good) ↦
            let (loaded, run, e') =
              bind-ok (parse_config c root (set_defaults config)) _ (rw (good, config_load) at e) in
            subst (IsKept config.serial_device) (ground arith) (
              parse_config-IsKept root config.serial_device (set_defaults config) run
                (set_defaults-IsKept config size))
      ]
