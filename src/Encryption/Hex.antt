-- ===== src/Encryption/Hex.antt =====
-- `str.strip`, `len` and `bytes.fromhex` of Python, as src/elke27_lib/encryption_loop.py uses them;
-- of the white space of Unicode only the ASCII characters are stripped.
use Prim.Native.Char.{Char, code}
use Prim.Native.String.{String, [], ◌∷◌}
use mathlib.Core.List
use elke.Base.{
  ℕ, zero, suc, ◌+◌, ◌-◌, ◌*◌, Bool, true, false, ◌&&◌, ◌||◌, Option, none, some, leb, ◌==◌,
  if◌then◌else◌,
}
use elke.Base.Bytes.{Bytes}

abbrev pub count : String → ℕ
count [] = zero
count (c ∷ s) = suc (count s)

abbrev is_space : Char → Bool
is_space c =
    code c == 32 || (leb 9 (code c) && leb (code c) 13) || (leb 28 (code c) && leb (code c) 31)

-- `bytes.fromhex` skips the six ASCII spaces alone.
abbrev is_hex_space : Char → Bool
is_hex_space c = code c == 32 || (leb 9 (code c) && leb (code c) 13)

abbrev lstrip : String → String
lstrip [] = []
lstrip (c ∷ s) = let rest = lstrip s in if is_space c then rest else c ∷ s

abbrev or_drop : Char → String → String
or_drop c [] = if is_space c then [] else c ∷ []
or_drop c (d ∷ s) = c ∷ d ∷ s

abbrev rstrip : String → String
rstrip [] = []
rstrip (c ∷ s) = or_drop c (rstrip s)

unfoldable pub strip : String → String
strip s = rstrip (lstrip s)

abbrev pub hex_digit : Char → Option ℕ
hex_digit c =
    let n = code c in
    if leb 48 n && leb n 57
    then some (n - 48)
    else if leb 97 n && leb n 102
    then some (n - 87)
    else if leb 65 n && leb n 70
    then some (n - 55)
    else none

abbrev hex_pair : Option ℕ → Option ℕ → Option Bytes → Option Bytes
hex_pair (some hi) (some lo) (some bs) = some (List.◌∷◌ (hi * 16 + lo) bs)
hex_pair _ _ _ = none

-- Spaces may stand between the pairs of digits.
unfoldable pub from_hex : String → Option Bytes
from_hex [] = some List.[]
from_hex (c ∷ []) = if is_hex_space c then some List.[] else none
from_hex (c ∷ d ∷ s) = elim (is_hex_space c) [
  | true ↦ from_hex (d ∷ s)
  | false ↦ hex_pair (hex_digit c) (hex_digit d) (from_hex s)
]
