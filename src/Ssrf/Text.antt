-- ===== src/Ssrf/Text.antt =====
-- The operations on strings that src/backend/lib/ssrf.ts uses. Case is that of ASCII, the alphabet
-- of the hosts of a parsed URL and of addresses.
use yurucommu_core.Base.{
  ℕ, ◌+◌, ◌-◌, ◌*◌, ◌/◌, ◌%◌, Bool, true, false, ◌&&◌, ◌||◌, Option, none, some, List, [], ◌∷◌, map,
  JsString, js, if◌then◌else◌, ltb, leb, ◌==◌, between, any, starts_with, str_eq, drop,
}

-- `s.split(c)`, for a separator of one code unit
unfoldable pub split : ℕ → JsString → List JsString
split c [] = [] ∷ []
split c (x ∷ s) = let rest = split c s in if x == c then [] ∷ rest else first x rest
  where
    first : ℕ → List JsString → List JsString
    first y [] = (y ∷ []) ∷ []
    first y (w ∷ ws) = (y ∷ w) ∷ ws

abbrev pub includes_unit : ℕ → JsString → Bool
includes_unit c s = any (λ x. x == c) s

unfoldable pub ends_with : JsString → JsString → Bool
ends_with [] p = str_eq [] p
ends_with (x ∷ s) p = str_eq (x ∷ s) p || ends_with s p

abbrev pub lower_unit : ℕ → ℕ
lower_unit x = if between 65 90 x then x + 32 else x

abbrev pub to_lower_case : JsString → JsString
to_lower_case s = map lower_unit s

-- `/\d/`
abbrev pub is_digit : ℕ → Bool
is_digit x = between 48 57 x

-- `Number(s)` of decimal digits, and of `acc` before them
abbrev pub decimal_from : ℕ → JsString → ℕ
decimal_from acc [] = acc
decimal_from acc (x ∷ s) = decimal_from (acc * 10 + (x - 48)) s

-- The decimal digits of a number below 1000.
unfoldable pub show_byte : ℕ → JsString
show_byte n =
    if ltb n 10
    then (48 + n) ∷ []
    else if ltb n 100
    then (48 + n / 10) ∷ (48 + n % 10) ∷ []
    else (48 + n / 100) ∷ (48 + n / 10 % 10) ∷ (48 + n % 10) ∷ []

-- `/[0-9a-f]/`
abbrev pub is_hex_digit : ℕ → Bool
is_hex_digit x = between 48 57 x || between 97 102 x

abbrev pub hex_value : ℕ → ℕ
hex_value x = if leb x 57 then x - 48 else x - 87

-- `parseInt(s, 16)` of hex digits
abbrev pub hex_from : ℕ → JsString → ℕ
hex_from acc [] = acc
hex_from acc (x ∷ s) = hex_from (acc * 16 + hex_value x) s

abbrev pub hex_digit : ℕ → ℕ
hex_digit n = if ltb n 10 then 48 + n else 87 + n

-- `n.toString(16)`, of a number below 65536
unfoldable pub show_hextet : ℕ → JsString
show_hextet n =
    if ltb n 16
    then hex_digit n ∷ []
    else if ltb n 256
    then hex_digit (n / 16) ∷ hex_digit (n % 16) ∷ []
    else if ltb n 4096
    then hex_digit (n / 256) ∷ hex_digit (n / 16 % 16) ∷ hex_digit (n % 16) ∷ []
    else hex_digit (n / 4096)
      ∷ hex_digit (n / 256 % 16)
      ∷ hex_digit (n / 16 % 16)
      ∷ hex_digit (n % 16)
      ∷ []

-- `s.slice(0, s.indexOf(c))`, or all of it
unfoldable pub before_unit : ℕ → JsString → JsString
before_unit c [] = []
before_unit c (x ∷ s) = let rest = before_unit c s in if x == c then [] else x ∷ rest

-- `.replace(/^\[|\]$/g, "")`
unfoldable pub strip_brackets : JsString → JsString
strip_brackets s = tail_off (head_off s)
  where
    head_off : JsString → JsString
    head_off [] = []
    head_off (x ∷ t) = if x == 91 then t else x ∷ t

    tail_off : JsString → JsString
    tail_off [] = []
    tail_off (x ∷ []) = if x == 93 then [] else x ∷ []
    tail_off (x ∷ y ∷ t) = x ∷ tail_off (y ∷ t)

-- What stands before the first "::", and after it.
unfoldable pub at_double_colon : JsString → Option (JsString × JsString)
at_double_colon [] = none
at_double_colon (x ∷ s) =
    if starts_with (x ∷ s) (js "::") then some ([], drop 1 s) else later (at_double_colon s)
  where
    later : Option (JsString × JsString) → Option (JsString × JsString)
    later none = none
    later (some p) = some (x ∷ p.0, p.1)

-- The string up to its last ":", which it includes, and after it.
unfoldable pub at_last_colon : JsString → Option (JsString × JsString)
at_last_colon [] = none
at_last_colon (x ∷ s) = later (at_last_colon s)
  where
    later : Option (JsString × JsString) → Option (JsString × JsString)
    later none = if x == 58 then some (x ∷ [], s) else none
    later (some p) = some (x ∷ p.0, p.1)

-- `s.trim()`, of the white space of ASCII
abbrev pub is_space : ℕ → Bool
is_space x = between 9 13 x || x == 32

unfoldable pub trim_start : JsString → JsString
trim_start [] = []
trim_start (x ∷ s) = let rest = trim_start s in if is_space x then rest else x ∷ s

unfoldable pub trim_end : JsString → JsString
trim_end [] = []
trim_end (x ∷ s) = let rest = trim_end s in if is_space x && empty rest then [] else x ∷ rest
  where
    empty : JsString → Bool
    empty [] = true
    empty (_ ∷ _) = false

abbrev pub trim : JsString → JsString
trim s = trim_end (trim_start s)
