-- ===== src/ByteOrder/Parsing.antt =====
-- How a byte order is named, for `parse_byte_order` of byte_order.c.
use modbus_server.Prelude.{ℕ, ◌≡◌, ◌≢◌, ◌↔◌, true, List, map, some, arith}
use modbus_server.Clib.Text.{codes, str_eq_iff, to_lower, str_case_eq}
use modbus_server.ByteOrder.{ByteOrder, order_le, order_be, order_swap, parse_byte_order}

-- The order that a text in small letters names.
abbrev pub Names : ByteOrder → List ℕ → Type 0
Names order_le t = (t ≢ codes "be") × (t ≢ codes "swap")
Names order_be t = t ≡ codes "be"
Names order_swap t = t ≡ codes "swap"

case_eq-lower : (s : List ℕ) → (str_case_eq s (codes "BE") ≡ true) ↔ (map to_lower s ≡ codes "be")
unfolding str_case_eq to_lower
case_eq-lower s = str_eq_iff _ _

swap_eq-lower :
    (s : List ℕ) → (str_case_eq s (codes "SWAP") ≡ true) ↔ (map to_lower s ≡ codes "swap")
unfolding str_case_eq to_lower
swap_eq-lower s = str_eq_iff _ _

le_eq-lower : (s : List ℕ) → (str_case_eq s (codes "LE") ≡ true) ↔ (map to_lower s ≡ codes "le")
unfolding str_case_eq to_lower
le_eq-lower s = str_eq_iff _ _

-- A text parses to an order exactly where its small-letter form names it: "be", "swap", and every
-- other text for little endian.
pub parse_byte_order-Names :
    (s : List ℕ) (o : ByteOrder) → (parse_byte_order (some s) ≡ o) ↔ Names o (map to_lower s)
unfolding parse_byte_order
parse_byte_order-Names s order_le = ground (arith, case_eq-lower s, swap_eq-lower s, le_eq-lower s)
parse_byte_order-Names s order_be = ground (arith, case_eq-lower s, swap_eq-lower s, le_eq-lower s)
parse_byte_order-Names s order_swap =
    ground (arith, case_eq-lower s, swap_eq-lower s, le_eq-lower s)
