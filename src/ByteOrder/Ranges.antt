-- ===== src/ByteOrder/Ranges.antt =====
-- The words that `write_registers` of byte_order.c puts into the register array: 16 bits each.
use modbus_server.Prelude.{
  ℕ, true, false, zero, suc, ◌+◌, ◌≡◌, ◌&&◌, Bool, List, ◌==◌, if◌then◌else◌, subst,
}
use modbus_server.Prelude.Int.{ℤ, pos, ◌+ℤ◌}
use modbus_server.Clib.Fault.{Result, ok, bind-ok, Holds}
use modbus_server.Clib.Memory.{load, store, IsWords, load-IsWord, store-IsWords}
use modbus_server.ByteOrder.{
  ByteOrder, swap_words, exchange, copy_words, is_swap, is_be, write_registers,
}
use modbus_server.ByteOrder.Words.{swap_bytes, swap_bytes-lt}

swap_words-IsWords :
    (left i : ℕ) (words : List ℕ) {r : List ℕ}
    → IsWords words
    → swap_words left i words ≡ ok r
    → IsWords r
unfolding swap_words
swap_words-IsWords zero i words h e = subst (Holds IsWords) e h
swap_words-IsWords (suc left) i words h e =
    let (w, got, e') = bind-ok (load words (pos i)) _ e in
    let (words', put, rest) = bind-ok (store words (pos i) (swap_bytes w)) _ e' in
    let word = swap_bytes-lt w (load-IsWord words (pos i) h got) in
    swap_words-IsWords left (i + 1) words' (store-IsWords words (pos i) _ h word put) rest

exchange-IsWords : (words : List ℕ) {r : List ℕ} → IsWords words → exchange words ≡ ok r → IsWords r
unfolding exchange
exchange-IsWords words h e =
    let (tmp, got, e1) = bind-ok (load words (pos 0)) _ e in
    let (second, got', e2) = bind-ok (load words (pos 1)) _ e1 in
    let (words', put, e3) = bind-ok (store words (pos 0) second) _ e2 in
    let h' = store-IsWords words (pos 0) second h (load-IsWord words (pos 1) h got') put in
    store-IsWords words' (pos 1) tmp h' (load-IsWord words (pos 0) h got) e3

copy_words-IsWords :
    (left i : ℕ) (start : ℤ) (words regs : List ℕ) {r : List ℕ}
    → IsWords words
    → IsWords regs
    → copy_words left i start words regs ≡ ok r
    → IsWords r
unfolding copy_words
copy_words-IsWords zero i start words regs hw hr e = subst (Holds IsWords) e hr
copy_words-IsWords (suc left) i start words regs hw hr e =
    let (w, got, e') = bind-ok (load words (pos i)) _ e in
    let (regs', put, rest) = bind-ok (store regs (start +ℤ pos i) w) _ e' in
    let hr' = store-IsWords regs (start +ℤ pos i) w hr (load-IsWord words (pos i) hw got) put in
    copy_words-IsWords left (i + 1) start words regs' hw hr' rest

-- A step that is left out keeps the words too.
step-IsWords :
    (on : Bool) (step : Result (List ℕ)) (words : List ℕ) {r : List ℕ}
    → IsWords words
    → ((r' : List ℕ) → step ≡ ok r' → IsWords r')
    → (if on then step else ok words) ≡ ok r
    → IsWords r
step-IsWords true step words {r} h kept e = kept r e
step-IsWords false step words h kept e = subst (Holds IsWords) e h

-- Words go in and words are there: a call that returns leaves no register out of its type.
pub write_registers-IsWords :
    (start : ℤ) (words : List ℕ) (count : ℕ) (o : ByteOrder) (regs : List ℕ) {r : List ℕ}
    → IsWords words
    → IsWords regs
    → write_registers start words count o regs ≡ ok r
    → IsWords r
unfolding write_registers
write_registers-IsWords start words count o regs hw hr e =
    let (swapped, run, e') =
      bind-ok (if is_swap o then swap_words count 0 words else ok words) _ e in
    let (ordered, run', e'') =
      bind-ok (if is_be o && count == 2 then exchange swapped else ok swapped) _ e' in
    let hs =
      step-IsWords (is_swap o) _ words hw (λ r q. swap_words-IsWords count 0 words hw q) run in
    let ho =
      step-IsWords (is_be o && count == 2) _ swapped hs (λ r q. exchange-IsWords swapped hs q)
        run' in
    copy_words-IsWords count 0 start ordered regs ho hr e''
