-- ===== src/Ssrf/Ipv6.antt =====
-- The colon-separated addresses of src/backend/lib/ssrf.ts, and the test on any address.
use yurucommu_core.Base.{
  ℕ, zero, suc, ◌+◌, ◌-◌, ◌*◌, ◌/◌, ◌%◌, ◌<◌, ◌≡◌, refl, Bool, true, false, ◌&&◌, ◌||◌, Option,
  none, some, List, [], ◌∷◌, ◌++◌, JsString, js, if◌then◌else◌, ltb, leb, ◌==◌, between, length,
  all, any, arith, is_some, str_eq, starts_with,
}
use yurucommu_core.Ssrf.Text.{
  split, includes_unit, to_lower_case, is_hex_digit, hex_from, show_hextet, before_unit,
  strip_brackets, at_double_colon, at_last_colon,
}
use yurucommu_core.Ssrf.Ipv4.{
  Octets, parse_ipv4, is_private_octets, is_private_ipv4, show_octets, parse-show_octets,
}

abbrev is_group : JsString → Bool
is_group s = between 1 4 (length s) && all is_hex_digit s

unfoldable pub parse_all : List JsString → Option (List ℕ)
parse_all [] = some []
parse_all (g ∷ gs) = if is_group g then added (parse_all gs) else none
  where
    added : Option (List ℕ) → Option (List ℕ)
    added none = none
    added (some out) = some (hex_from 0 g ∷ out)

unfoldable pub parse_groups : JsString → Option (List ℕ)
parse_groups [] = some []
parse_groups (x ∷ s) = parse_all (split 58 (x ∷ s))

abbrev pub zeros : ℕ → List ℕ
zeros zero = []
zeros (suc n) = 0 ∷ zeros n

-- A trailing dotted address, as two groups. `none` is a malformed one.
unfoldable pub fold_dotted : JsString → Option JsString
fold_dotted s = if includes_unit 46 s then split_off (at_last_colon s) else some s
  where
    folded : JsString → Option Octets → Option JsString
    folded prefix none = none
    folded prefix (some v4) =
        some (prefix ++ (show_hextet (v4.a * 256 + v4.b) ++ (58 ∷ show_hextet (v4.c * 256 + v4.d))))

    split_off : Option (JsString × JsString) → Option JsString
    split_off none = none
    split_off (some p) = folded p.0 (parse_ipv4 p.1)

abbrev eight : List ℕ → Option (List ℕ)
eight groups = if length groups == 8 then some groups else none

-- `[...head, ...new Array(8 - head.length - tail.length).fill(0), ...tail]`
unfoldable pub fill : Option (List ℕ) → Option (List ℕ) → Option (List ℕ)
fill (some head) (some tail) =
    if ltb (length head + length tail) 8
    then some (head ++ (zeros (8 - length head - length tail) ++ tail))
    else none
fill _ _ = none

-- The eight groups of an address with at most one "::".
unfoldable pub expand_groups : JsString → Option (List ℕ)
expand_groups s = parted (at_double_colon s)
  where
    counted : Option (List ℕ) → Option (List ℕ)
    counted none = none
    counted (some groups) = eight groups

    parted : Option (JsString × JsString) → Option (List ℕ)
    parted none = counted (parse_groups s)
    parted (some p) =
        if is_some (at_double_colon (58 ∷ p.1))
        then none
        else counted (fill (parse_groups p.0) (parse_groups p.1))

unfoldable pub expand_ipv6 : JsString → Option (List ℕ)
expand_ipv6 input = nonempty (before_unit 37 (strip_brackets (to_lower_case input)))
  where
    expanded : Option JsString → Option (List ℕ)
    expanded none = none
    expanded (some s) = expand_groups s

    nonempty : JsString → Option (List ℕ)
    nonempty [] = none
    nonempty (x ∷ s) = expanded (fold_dotted (x ∷ s))

unfoldable pub embedded_v4_is_private : ℕ → ℕ → Bool
embedded_v4_is_private hi lo =
    is_private_ipv4 (show_octets (hi / 256 % 256) (hi % 256) (lo / 256 % 256) (lo % 256))

-- `(g & 0xffc0) === prefix`, of a group below 65536 and a multiple of 64
abbrev has_ten_bits : ℕ → ℕ → Bool
has_ten_bits g prefix = g / 64 * 64 == prefix

unfoldable pub is_private_groups : List ℕ → Bool
is_private_groups (g0 ∷ g1 ∷ g2 ∷ g3 ∷ g4 ∷ g5 ∷ g6 ∷ g7 ∷ _) =
    let all_zero_high = g0 == 0 && g1 == 0 && g2 == 0 && g3 == 0 && g4 == 0 in
    let hi8 = g0 / 256 in
    if all_zero_high && g5 == 0 && g6 == 0 && (g7 == 0 || g7 == 1)
    then true
    else if hi8 == 252 || hi8 == 253
    then true
    else if has_ten_bits g0 65152
    then true
    else if has_ten_bits g0 65216
    then true
    else if hi8 == 255
    then true
    else if all_zero_high && g5 == 65535
    then embedded_v4_is_private g6 g7
    else if all_zero_high && g5 == 0
    then embedded_v4_is_private g6 g7
    else if g0 == 100 && g1 == 65435
    then embedded_v4_is_private g6 g7
    else if g0 == 8194
    then embedded_v4_is_private g1 g2
    else false
is_private_groups _ = false

abbrev pub private_ipv6_exact : List JsString
private_ipv6_exact = js "::1" ∷ js "0:0:0:0:0:0:0:1" ∷ js "::" ∷ js "0:0:0:0:0:0:0:0" ∷ []

abbrev pub private_ipv6_prefixes : List JsString
private_ipv6_prefixes =
    js "fc"
    ∷ js "fd"
    ∷ js "fe8"
    ∷ js "fe9"
    ∷ js "fea"
    ∷ js "feb"
    ∷ js "fec"
    ∷ js "fed"
    ∷ js "fee"
    ∷ js "fef"
    ∷ js "ff"
    ∷ []

unfoldable pub is_private_ipv6 : JsString → Bool
is_private_ipv6 raw = judged (expand_ipv6 raw)
  where
    text : JsString
    text = strip_brackets (to_lower_case raw)

    judged : Option (List ℕ) → Bool
    judged (some g) = is_private_groups g
    judged none =
        any (str_eq text) private_ipv6_exact || any (starts_with text) private_ipv6_prefixes

unfoldable pub is_well_formed_ip : JsString → Bool
is_well_formed_ip host =
    is_some (parse_ipv4 host) || (includes_unit 58 host && is_some (expand_ipv6 host))

unfoldable pub is_private_ip_address : JsString → Bool
is_private_ip_address host = is_private_ipv4 host || (includes_unit 58 host && is_private_ipv6 host)

-- The address that two groups hold.
abbrev pub held : ℕ → ℕ → Octets
held hi lo = record { a = hi / 256; b = hi % 256; c = lo / 256; d = lo % 256 }

pub embedded_v4_is_private_lem :
    (hi lo : ℕ)
    → hi < 65536
    → lo < 65536
    → embedded_v4_is_private hi lo ≡ is_private_octets (held hi lo)
unfolding embedded_v4_is_private is_private_ipv4
embedded_v4_is_private_lem hi lo h l =
    rw
      (parse-show_octets (hi / 256 % 256) (hi % 256) (lo / 256 % 256) (lo % 256) (omega arith)
        (omega arith) (omega arith) (omega arith))
      (let e : hi / 256 % 256 ≡ hi / 256 = omega arith in
        let f : lo / 256 % 256 ≡ lo / 256 = omega arith in rw (e, f) refl)

-- Two groups below 65536 that hold an IPv4 address are judged as that address where they stand
-- in a mapped, a NAT64 or a 6to4 address; and so they are in a compatible one, except that the
-- unspecified and the loopback address are private as well.
pub embedded_as_itself :
    (hi lo g3 g4 g5 g6 g7 : ℕ)
    → hi < 65536
    → lo < 65536
    → (is_private_groups (0 ∷ 0 ∷ 0 ∷ 0 ∷ 0 ∷ 65535 ∷ hi ∷ lo ∷ [])
        ≡ is_private_octets (held hi lo))
      × (is_private_groups (100 ∷ 65435 ∷ 0 ∷ 0 ∷ 0 ∷ 0 ∷ hi ∷ lo ∷ [])
          ≡ is_private_octets (held hi lo))
      × (is_private_groups (8194 ∷ hi ∷ lo ∷ g3 ∷ g4 ∷ g5 ∷ g6 ∷ g7 ∷ [])
          ≡ is_private_octets (held hi lo))
      × (is_private_groups (0 ∷ 0 ∷ 0 ∷ 0 ∷ 0 ∷ 0 ∷ hi ∷ lo ∷ [])
          ≡ (hi == 0 && leb lo 1) || is_private_octets (held hi lo))
unfolding is_private_groups
embedded_as_itself hi lo g3 g4 g5 g6 g7 h l =
    let e = embedded_v4_is_private_lem hi lo h l in (e, e, e, ground (arith, e))
