-- ===== src/Ssrf/Ipv4.antt =====
-- The dotted addresses of src/backend/lib/ssrf.ts.
use yurucommu_core.Base.{
  ℕ, ◌<◌, ◌≡◌, Bool, true, false, ◌&&◌, ◌||◌, Option, none, some, List, [], ◌∷◌, ◌++◌, JsString,
  if◌then◌else◌, leb, ◌==◌, between, length, all, arith,
}
use yurucommu_core.Ssrf.Text.{split, is_digit, decimal_from, show_byte}

pub record Octets : Type 0 where
  pub a : ℕ
  pub b : ℕ
  pub c : ℕ
  pub d : ℕ

-- `/^\d{1,3}$/`
abbrev pub is_octet_text : JsString → Bool
is_octet_text s = between 1 3 (length s) && all is_digit s

abbrev pub octets_of : ℕ → ℕ → ℕ → ℕ → Option Octets
octets_of a b c d =
    if leb a 255 && leb b 255 && leb c 255 && leb d 255
    then some (record { a = a; b = b; c = c; d = d })
    else none

unfoldable pub parse_parts : List JsString → Option Octets
parse_parts (w ∷ x ∷ y ∷ z ∷ []) =
    if is_octet_text w && is_octet_text x && is_octet_text y && is_octet_text z
    then octets_of (decimal_from 0 w) (decimal_from 0 x) (decimal_from 0 y) (decimal_from 0 z)
    else none
parse_parts _ = none

unfoldable pub parse_ipv4 : JsString → Option Octets
parse_ipv4 hostname = parse_parts (split 46 hostname)

unfoldable pub is_private_octets : Octets → Bool
is_private_octets o =
    o.a == 0
    || (o.a == 10
        || (o.a == 127
            || (o.a == 169 && o.b == 254
                || (o.a == 172 && between 16 31 o.b
                    || (o.a == 192 && o.b == 168
                        || (o.a == 100 && between 64 127 o.b
                            || (o.a == 192 && (o.b == 0 && o.c == 0)
                                || (o.a == 192 && (o.b == 0 && o.c == 2)
                                    || (o.a == 198 && (o.b == 18 || o.b == 19)
                                        || (o.a == 198 && (o.b == 51 && o.c == 100)
                                            || (o.a == 203 && (o.b == 0 && o.c == 113)
                                                || leb 224 o.a)))))))))))

unfoldable pub is_private_ipv4 : JsString → Bool
is_private_ipv4 hostname = judged (parse_ipv4 hostname)
  where
    judged : Option Octets → Bool
    judged none = false
    judged (some o) = is_private_octets o

-- `${a}.${b}.${c}.${d}`
abbrev pub show_octets : ℕ → ℕ → ℕ → ℕ → JsString
show_octets a b c d =
    show_byte a ++ (46 ∷ (show_byte b ++ (46 ∷ (show_byte c ++ (46 ∷ show_byte d)))))

split_digits :
    (n : ℕ) (rest : JsString)
    → n < 256
    → split 46 (show_byte n ++ (46 ∷ rest)) ≡ show_byte n ∷ split 46 rest
unfolding split show_byte
split_digits n rest h = ground arith

split_last : (n : ℕ) → n < 256 → split 46 (show_byte n) ≡ show_byte n ∷ []
unfolding split show_byte
split_last n h = ground arith

show_byte_text : (n : ℕ) → n < 256 → is_octet_text (show_byte n) ≡ true
unfolding show_byte
show_byte_text n h = ground arith

show_byte_value : (n : ℕ) → n < 256 → decimal_from 0 (show_byte n) ≡ n
unfolding show_byte
show_byte_value n h = ground arith

-- The text of an address reads back as its octets.
pub parse-show_octets :
    (a b c d : ℕ)
    → a < 256
    → b < 256
    → c < 256
    → d < 256
    → parse_ipv4 (show_octets a b c d) ≡ some (record { a = a; b = b; c = c; d = d })
unfolding parse_ipv4 parse_parts
parse-show_octets a b c d ha hb hc hd =
    rw
      (
        split_digits a _ ha,
        split_digits b _ hb,
        split_digits c _ hc,
        split_last d hd,
        show_byte_text a ha,
        show_byte_text b hb,
        show_byte_text c hc,
        show_byte_text d hd,
        show_byte_value a ha,
        show_byte_value b hb,
        show_byte_value c hc,
        show_byte_value d hd,
      )
      (ground arith)
