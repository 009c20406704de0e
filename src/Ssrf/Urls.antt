-- ===== src/Ssrf/Urls.antt =====
-- URLs, hostnames and their resolution in src/backend/lib/ssrf.ts. The parser of URLs and the
-- answers of the resolvers are arguments; `none` is a thrown error.
use yurucommu_core.Base.{
  ℕ, ◌-◌, Bool, true, false, not, ◌&&◌, ◌||◌, Option, none, some, List, [], ◌∷◌, ◌++◌, JsString, js,
  if◌then◌else◌, ◌==◌, between, length, all, any, str_eq, take,
}
use yurucommu_core.Ssrf.Text.{includes_unit, ends_with, to_lower_case, trim}
use yurucommu_core.Ssrf.Ipv4.{Octets, parse_ipv4}
use yurucommu_core.Ssrf.Ipv6.{is_well_formed_ip, is_private_ip_address}

-- What is read of a `URL`.
pub record Url : Type 0 where
  pub protocol : JsString
  pub username : JsString
  pub password : JsString
  pub host : JsString
  pub hostname : JsString
  pub port : JsString
  pub pathname : JsString
  pub search : JsString
  pub hash : JsString

abbrev pub is_empty : JsString → Bool
is_empty [] = true
is_empty (_ ∷ _) = false

unfoldable pub normalize_hostname : JsString → JsString
normalize_hostname hostname =
    let normalized = to_lower_case (trim hostname) in
    if ends_with normalized (js ".") then take (length normalized - 1) normalized else normalized

abbrev pub blocked_hostname_suffixes : List JsString
blocked_hostname_suffixes = js ".localhost" ∷ js ".local" ∷ js ".localdomain" ∷ js ".internal" ∷ []

unfoldable pub is_blocked_hostname : JsString → Bool
is_blocked_hostname hostname =
    let lower = normalize_hostname hostname in
    str_eq lower (js "localhost")
    || any (ends_with lower) blocked_hostname_suffixes
    || is_private_ip_address lower

-- `HOSTNAME_PATTERN.test(hostname)`
abbrev is_host_unit : ℕ → Bool
is_host_unit x = between 97 122 x || between 65 90 x || between 48 57 x || x == 46 || x == 45

unfoldable pub hostname_pattern : JsString → Bool
hostname_pattern hostname = not (is_empty hostname) && all is_host_unit hostname

-- The tests on a hostname that the two functions below share.
abbrev accepts_hostname : JsString → Bool
accepts_hostname hostname =
    hostname_pattern hostname && includes_unit 46 hostname && not (is_blocked_hostname hostname)

module _ (parse_url : JsString → Option Url) where
  unfoldable pub is_safe_remote_url : JsString → Bool
  is_safe_remote_url url = judged (parse_url url)
    where
      judged : Option Url → Bool
      judged none = false
      judged (some parsed) =
          is_empty parsed.username
          && is_empty parsed.password
          && (str_eq parsed.protocol (js "http:") || str_eq parsed.protocol (js "https:"))
          && accepts_hostname parsed.hostname

  unfoldable pub normalize_remote_domain : JsString → Option JsString
  normalize_remote_domain domain = normalized (trim domain)
    where
      judged : Option Url → Option JsString
      judged none = none
      judged (some parsed) =
          if is_empty parsed.username
            && is_empty parsed.password
            && str_eq parsed.pathname (js "/")
            && is_empty parsed.search
            && is_empty parsed.hash
            && accepts_hostname parsed.hostname
          then some parsed.host
          else none

      normalized : JsString → Option JsString
      normalized [] = none
      normalized (x ∷ s) = judged (parse_url (js "https://" ++ x ∷ s))

unfoldable pub is_takos_test_hostname : JsString → Bool
is_takos_test_hostname hostname =
    let normalized = normalize_hostname hostname in
    str_eq normalized (js "takos.test") || ends_with normalized (js ".takos.test")

unfoldable pub is_local_substrate_url_shape : Url → Bool
is_local_substrate_url_shape parsed =
    str_eq parsed.protocol (js "https:") && (str_eq parsed.port [] || str_eq parsed.port (js "443"))

unfoldable pub is_allowed_local_substrate_ip : JsString → Bool
is_allowed_local_substrate_ip ip = judged (parse_ipv4 ip)
  where
    judged : Option Octets → Bool
    judged none = false
    judged (some o) =
        (o.a == 127 && o.b == 0 && o.c == 0 && o.d == 1) || (o.a == 172 && between 16 31 o.b)

-- `allow_local` is the option, or else the environment's flag.
pub record SafetyOptions : Type 0 where
  pub allow_local : Bool
  pub local_resolver : JsString → Option (List JsString × List JsString)
  pub remote_resolver : JsString → Option (List JsString)

-- The addresses, if there is one and each of them passes.
unfoldable pub all_pass : (JsString → Bool) → Option (List JsString) → Option (List JsString)
all_pass ok none = none
all_pass ok (some []) = none
all_pass ok (some (ip ∷ ips)) = if all ok (ip ∷ ips) then some (ip ∷ ips) else none

abbrev pub is_public_ip : JsString → Bool
is_public_ip ip = is_well_formed_ip ip && not (is_private_ip_address ip)

unfoldable pub resolve_local_substrate_hostname_ips :
    SafetyOptions → JsString → Option (List JsString)
resolve_local_substrate_hostname_ips options hostname = joined (options.local_resolver hostname)
  where
    joined : Option (List JsString × List JsString) → Option (List JsString)
    joined none = none
    joined (some p) = some (p.0 ++ p.1)

module _ (parse_url : JsString → Option Url) where
  unfoldable pub assert_safe_remote_url_resolved : JsString → SafetyOptions → Option (List JsString)
  assert_safe_remote_url_resolved url options =
      if is_safe_remote_url parse_url url then resolved (parse_url url) else none
    where
      resolved : Option Url → Option (List JsString)
      resolved none = none
      resolved (some parsed) =
          let hostname = normalize_hostname parsed.hostname in
          if options.allow_local && is_takos_test_hostname hostname
          then (if is_local_substrate_url_shape parsed
              then all_pass is_allowed_local_substrate_ip
                  (resolve_local_substrate_hostname_ips options hostname)
              else none)
          else all_pass is_public_ip (options.remote_resolver hostname)
