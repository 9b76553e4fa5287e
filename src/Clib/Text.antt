-- ===== src/Clib/Text.antt =====
-- C strings as lists of bytes without the terminating zero, and the library's functions on them.
use Prim.Native.Char.{code}
use Prim.Native.String.{String}
use modbus_server.Prelude.{
  ℕ, ◌+◌, ◌≡◌, ◌↔◌, Bool, true, false, ◌&&◌, ◌||◌, List, [], ◌∷◌, ◌++◌, ◌-◌, map, arith, length,
  take, drop, replicate, leb, ◌==◌, if◌then◌else◌,
}

-- The bytes of a literal.
abbrev pub codes : String → List ℕ
codes String.[] = []
codes (String.◌∷◌ c s) = code c ∷ codes s

-- `strcmp(s, t) == 0`
unfoldable pub str_eq : List ℕ → List ℕ → Bool
str_eq [] [] = true
str_eq [] (_ ∷ _) = false
str_eq (_ ∷ _) [] = false
str_eq (a ∷ s) (b ∷ t) = a == b && str_eq s t

-- `tolower` in the C locale.
unfoldable pub to_lower : ℕ → ℕ
to_lower c = if leb b'A' c && leb c b'Z' then c + 32 else c

-- `strcasecmp(s, t) == 0`
unfoldable pub str_case_eq : List ℕ → List ℕ → Bool
unfolding str_eq to_lower
str_case_eq s t = str_eq (map to_lower s) (map to_lower t)

-- Whether `s` begins with `t`.
unfoldable pub has_prefix : List ℕ → List ℕ → Bool
has_prefix s [] = true
has_prefix [] (_ ∷ _) = false
has_prefix (a ∷ s) (b ∷ t) = a == b && has_prefix s t

-- `strstr(s, t) != NULL`
unfoldable pub contains_str : List ℕ → List ℕ → Bool
unfolding has_prefix
contains_str [] t = has_prefix [] t
contains_str (a ∷ s) t = has_prefix (a ∷ s) t || contains_str s t

pub str_eq_iff : (s t : List ℕ) → (str_eq s t ≡ true) ↔ (s ≡ t)
unfolding str_eq
str_eq_iff [] [] = ground arith
str_eq_iff [] (_ ∷ _) = ground arith
str_eq_iff (_ ∷ _) [] = ground arith
str_eq_iff (a ∷ s) (b ∷ t) = ground (arith, str_eq_iff s t)

pub to_lower_idem : (c : ℕ) → to_lower (to_lower c) ≡ to_lower c
unfolding to_lower
to_lower_idem c = ground arith

-- The string that begins at the start of a buffer: up to its first zero byte.
unfoldable pub until_nul : List ℕ → List ℕ
until_nul [] = []
until_nul (b ∷ bs) = if b == 0 then [] else b ∷ until_nul bs

-- Whether the buffer holds a zero byte, so that it can be read as a string.
unfoldable pub has_nul : List ℕ → Bool
has_nul [] = false
has_nul (b ∷ bs) = b == 0 || has_nul bs

-- `strcpy(buf, s)` into a buffer that has room for it.
unfoldable pub str_copy : List ℕ → List ℕ → List ℕ
str_copy buf s = s ++ 0 ∷ drop (length s + 1) buf

-- `strncpy(buf, s, n)` into a buffer of at least `n` bytes: padded with zeros, or cut off at `n`
-- bytes with no zero behind them.
unfoldable pub str_copy_n : List ℕ → List ℕ → ℕ → List ℕ
str_copy_n buf s n = take n s ++ (replicate (n - length s) 0 ++ drop n buf)

-- `s[0]`
unfoldable pub first_byte : List ℕ → ℕ
first_byte [] = 0
first_byte (b ∷ _) = b
