-- ===== src/Ssrf/Tests.antt =====
-- Addresses and URLs, judged.
use yurucommu_core.Base.{
  ◌<◌, ◌≡◌, ◌⊎◌, refl, true, false, Option, none, some, List, [], ◌∷◌, JsString, js, All, all, any,
  if◌then◌else◌, arith, str_eq, starts_with,
}
use yurucommu_core.Ssrf.Text.{
  split, show_byte, show_hextet, before_unit, strip_brackets, at_double_colon, at_last_colon,
  ends_with, trim_start, trim_end,
}
use yurucommu_core.Ssrf.Ipv4.{Octets, parse_ipv4, parse_parts, is_private_octets, is_private_ipv4}
use yurucommu_core.Ssrf.Ipv6.{
  expand_ipv6, expand_groups, fill, fold_dotted, parse_groups, parse_all, embedded_v4_is_private,
  is_private_groups, is_private_ipv6, is_well_formed_ip, is_private_ip_address,
}
use yurucommu_core.Ssrf.Ranges.{address, in_block, special_blocks, is_private_octets-blocks}
use yurucommu_core.Ssrf.Urls.{
  Url, SafetyOptions, normalize_hostname, hostname_pattern, is_blocked_hostname, is_safe_remote_url,
  is_takos_test_hostname, is_local_substrate_url_shape, is_allowed_local_substrate_ip, all_pass,
  assert_safe_remote_url_resolved,
}
use yurucommu_core.Ssrf.Resolution.{DnsType, type_a, type_aaaa, type_cname, Answer}
use yurucommu_core.Ssrf.Safety.{assert_safe_remote_url_resolved-IsSafe}

abbrev private_literals : List JsString
private_literals =
    js "127.0.0.1"
    ∷ js "10.1.2.3"
    ∷ js "::1"
    ∷ js "[::ffff:127.0.0.1]"
    ∷ js "64:ff9b::7f00:1"
    ∷ js "2002:7f00:1::"
    ∷ js "FE80::1%eth0"
    ∷ js "fd00::1"
    ∷ []

abbrev public_literals : List JsString
public_literals = js "8.8.8.8" ∷ js "2606:4700:4700::1111" ∷ js "::ffff:8.8.8.8" ∷ []

all_private :
    (all is_private_ip_address private_literals ≡ true)
    × (any is_private_ip_address public_literals ≡ false)
unfolding is_private_ip_address is_private_ipv4 is_private_ipv6 parse_ipv4 parse_parts
    is_private_octets expand_ipv6 expand_groups fill fold_dotted parse_groups parse_all
    embedded_v4_is_private is_private_groups split show_byte show_hextet before_unit strip_brackets
    at_double_colon at_last_colon str_eq starts_with
all_private = (refl, refl)

malformed_literals :
    any is_well_formed_ip (js "1.2.3" ∷ js "256.1.1.1" ∷ js "1::2::3" ∷ js "12345::" ∷ []) ≡ false
unfolding is_well_formed_ip parse_ipv4 parse_parts expand_ipv6 expand_groups fill fold_dotted
    parse_groups parse_all split show_hextet before_unit strip_brackets at_double_colon
    at_last_colon str_eq starts_with
malformed_literals = refl

abbrev test_net : Octets
test_net = record { a = 203; b = 0; c = 113; d = 9 }

is_private_octets-blocks_example :
    is_private_octets test_net ≡ any (in_block (address test_net)) special_blocks
is_private_octets-blocks_example =
    is_private_octets-blocks test_net (omega arith) (omega arith) (omega arith) (omega arith)

abbrev example_url : Url
example_url = record {
  protocol = js "https:";
  username = [];
  password = [];
  host = js "social.example";
  hostname = js "social.example";
  port = [];
  pathname = js "/";
  search = [];
  hash = [];
}

abbrev resolves_to : List JsString → SafetyOptions
resolves_to ips = record {
  allow_local = false;
  local_resolver = λ _. none;
  remote_resolver = λ _. some ips;
}

assert_safe_remote_url_resolved-IsSafe_example :
    (parsed : Url) × (some example_url ≡ some parsed)
    × (is_safe_remote_url (λ _. some example_url) (js "https://social.example/") ≡ true)
    × (0 < 1)
    × (((some (js "8.8.8.8" ∷ []) ≡ some (js "8.8.8.8" ∷ []))
          × All
              (λ ip. (is_well_formed_ip ip ≡ true) × (is_private_ip_address ip ≡ false))
              (js "8.8.8.8" ∷ []))
        ⊎ ((false ≡ true)
            × (is_takos_test_hostname (normalize_hostname parsed.hostname) ≡ true)
            × (is_local_substrate_url_shape parsed ≡ true)
            × All (λ ip. is_allowed_local_substrate_ip ip ≡ true) (js "8.8.8.8" ∷ [])))
unfolding assert_safe_remote_url_resolved is_safe_remote_url is_blocked_hostname hostname_pattern
    normalize_hostname is_takos_test_hostname all_pass is_well_formed_ip is_private_ip_address
    is_private_ipv4 is_private_ipv6 parse_ipv4 parse_parts is_private_octets expand_ipv6 split
    ends_with trim_start trim_end str_eq starts_with
assert_safe_remote_url_resolved-IsSafe_example =
    assert_safe_remote_url_resolved-IsSafe (λ _. some example_url) (js "https://social.example/")
      (resolves_to (js "8.8.8.8" ∷ [])) (js "8.8.8.8" ∷ []) refl

-- A host that stands for another one.
abbrev dns : JsString → DnsType → Option (List Answer)
dns name type_a =
    some (
      if str_eq name (js "b.example")
      then record { type_ = 1; data_ = js "192.0.2.1" } ∷ []
      else [])
dns name type_aaaa = some []
dns name type_cname = some (
    if str_eq name (js "a.example") then record { type_ = 5; data_ = js "B.example." } ∷ [] else [])
