-- ===== src/Dispatch/IntText.antt =====
-- `int(s)` of Python, as a test whether the text is accepted: white space, a sign, and digits with
-- single underscores between them. Of the digits and spaces of Unicode only the ASCII ones are read.
use Prim.Native.Char.{Char, code}
use Prim.Native.String.{String, [], ◌∷◌}
use text.Mathlib.Text.{◌==◌ as str_eq}
use elke.Base.{
  ℕ, ◌+◌, ◌-◌, ◌*◌, Option, none, some, Bool, true, false, ◌&&◌, ◌||◌, leb, ◌==◌, if◌then◌else◌,
}

abbrev is_digit : Char → Bool
is_digit c = leb 48 (code c) && leb (code c) 57

abbrev is_space : Char → Bool
is_space c =
    code c == 32 || (leb 9 (code c) && leb (code c) 13) || (leb 28 (code c) && leb (code c) 31)

abbrev all_space : String → Bool
all_space [] = true
all_space (c ∷ s) = is_space c && all_space s

-- `after_digit` tells whether an underscore, or the end, may follow.
abbrev digits : Bool → String → Bool
digits after_digit [] = after_digit
digits after_digit (c ∷ s) =
    let rest = digits (is_digit c) s in
    if is_digit c || (code c == 95 && after_digit) then rest else after_digit && all_space (c ∷ s)

-- The natural number that the text of a float stands for, if it is one: its digits and `.0`, as
-- Python writes it below 10 ** 16.
abbrev read_whole : ℕ → String → Option ℕ
read_whole n [] = none
read_whole n (c ∷ s) =
    let rest = read_whole (n * 10 + (code c - 48)) s in
    if is_digit c then rest else if code c == 46 && str_eq s "0" then some n else none

abbrev pub whole_value : String → Option ℕ
whole_value text = read_whole 0 text

unfoldable pub is_int_text : String → Bool
is_int_text [] = false
is_int_text (c ∷ s) =
    let rest = is_int_text s in
    if is_space c
    then rest
    else if code c == 43 || code c == 45
    then digits false s
    else digits false (c ∷ s)
