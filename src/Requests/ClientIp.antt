-- ===== src/Requests/ClientIp.antt =====
-- src/backend/lib/client-ip.ts: the address under which a client is counted. A header that is
-- missing is `none`; `on_cloudflare_edge` is `isCloudflareEdge`, whose `request.cf` the platform
-- sets.
use yurucommu_core.Base.{
  ℕ, ◌≡◌, ◌⊎◌, inl, inr, refl, Bool, true, false, not, ◌&&◌, ◌||◌, Option, none, some, List, [],
  ◌∷◌, JsString, js, str_eq, if◌then◌else◌, leb, ◌==◌, between, length, all, Bool-cases,
}
use yurucommu_core.Ssrf.Text.{split, is_digit, decimal_from, includes_unit, to_lower_case, trim}

-- `/^\d{1,3}$/`
abbrev is_part : JsString → Bool
is_part s = between 1 3 (length s) && all is_digit s

-- `IPV4_PATTERN`
unfoldable pub ipv4_pattern : JsString → Bool
ipv4_pattern ip = let parts = split 46 ip in length parts == 4 && all is_part parts

-- `IPV6_PATTERN`
abbrev is_ipv6_unit : ℕ → Bool
is_ipv6_unit x = is_digit x || between 97 102 x || between 65 70 x || x == 58

abbrev is_empty : JsString → Bool
is_empty [] = true
is_empty (_ ∷ _) = false

unfoldable pub is_valid_ip : JsString → Bool
is_valid_ip ip =
    if ipv4_pattern ip
    then all (λ part. leb (decimal_from 0 part) 255) (split 46 ip)
    else not (is_empty ip) && all is_ipv6_unit ip && includes_unit 58 ip

pub data ProxyTrust : Type 0 where
  untrusted cf generic legacy : ProxyTrust

unfoldable pub proxy_trust : Option JsString → ProxyTrust
proxy_trust none = untrusted
proxy_trust (some flag) =
    let v = to_lower_case (trim flag) in
    if str_eq v (js "cf") || str_eq v (js "cloudflare")
    then cf
    else if str_eq v (js "generic") || str_eq v (js "xff")
    then generic
    else if str_eq v (js "true") || str_eq v (js "1")
    then legacy
    else untrusted

-- The headers that a client can set.
pub record Headers : Type 0 where
  pub cf_connecting_ip : Option JsString
  pub x_forwarded_for : Option JsString
  pub x_real_ip : Option JsString

-- What the server knows by itself.
pub record Origin : Type 0 where
  pub takos_trust_proxy : Option JsString
  pub on_cloudflare_edge : Bool
  pub socket_ip : Option JsString

-- `value && isValidIP(value)`
unfoldable pub valid : Option JsString → Option JsString
valid none = none
valid (some ip) = if is_valid_ip ip then some ip else none

-- `?.split(",")[0]?.trim()`
unfoldable pub leftmost : Option JsString → Option JsString
leftmost none = none
leftmost (some xff) = first (split 44 xff)
  where
    first : List JsString → Option JsString
    first [] = none
    first (x ∷ _) = some (trim x)

abbrev pub or_else : Option JsString → Option JsString → Option JsString
or_else none o = o
or_else (some ip) o = some ip

abbrev forwarded : Headers → Option JsString
forwarded h = or_else (valid (leftmost h.x_forwarded_for)) (valid h.x_real_ip)

-- The addresses that the headers give, in order, by how much they are trusted.
abbrev pub from_headers : ProxyTrust → Bool → Headers → Option JsString
from_headers untrusted edge h = if edge then valid h.cf_connecting_ip else none
from_headers cf edge h = or_else (valid h.cf_connecting_ip) (forwarded h)
from_headers generic edge h =
    or_else (if edge then valid h.cf_connecting_ip else none) (forwarded h)
from_headers legacy edge h =
    or_else (if edge then valid h.cf_connecting_ip else none)
      (or_else (forwarded h) (valid h.cf_connecting_ip))

abbrev ip_or_unknown : Option JsString → JsString
ip_or_unknown none = js "unknown"
ip_or_unknown (some ip) = ip

unfoldable pub get_client_ip : Origin → Headers → JsString
get_client_ip o h = ip_or_unknown (
    or_else (from_headers (proxy_trust o.takos_trust_proxy) o.on_cloudflare_edge h)
      (valid o.socket_ip))

-- Away from the edge and with no proxy declared, no header moves a client to another address; and
-- behind a generic proxy CF-Connecting-IP does not either.
pub spoofed_headers_ignored :
    (o : Origin) (h h' : Headers)
    → o.on_cloudflare_edge ≡ false
    → (proxy_trust o.takos_trust_proxy ≡ untrusted)
      ⊎ ((proxy_trust o.takos_trust_proxy ≡ generic)
          × (h.x_forwarded_for ≡ h'.x_forwarded_for)
          × (h.x_real_ip ≡ h'.x_real_ip))
    → get_client_ip o h ≡ get_client_ip o h'
unfolding get_client_ip
spoofed_headers_ignored o h h' off (inl e) = rw (e, off) refl
spoofed_headers_ignored o h h' off (inr (e, f, g)) = rw (e, off, f, g) refl

-- No address, or a valid one.
abbrev Fine : Option JsString → Type 0
Fine none = Unit
Fine (some ip) = is_valid_ip ip ≡ true

valid-Fine : (o : Option JsString) → Fine (valid o)
unfolding valid
valid-Fine none = tt
valid-Fine (some ip) = elim (Bool-cases (is_valid_ip ip)) [ inl e ↦ rw e e | inr e ↦ rw e tt ]

or_else-Fine : (o p : Option JsString) → Fine o → Fine p → Fine (or_else o p)
or_else-Fine none p h k = k
or_else-Fine (some ip) p h k = h

if-Fine : (b : Bool) (o : Option JsString) → Fine o → Fine (if b then o else none)
if-Fine true o h = h
if-Fine false o h = tt

forwarded-Fine : (h : Headers) → Fine (forwarded h)
forwarded-Fine h =
    or_else-Fine _ _ (valid-Fine (leftmost h.x_forwarded_for)) (valid-Fine h.x_real_ip)

from_headers-Fine : (t : ProxyTrust) (edge : Bool) (h : Headers) → Fine (from_headers t edge h)
from_headers-Fine untrusted edge h = if-Fine edge _ (valid-Fine h.cf_connecting_ip)
from_headers-Fine cf edge h = or_else-Fine _ _ (valid-Fine h.cf_connecting_ip) (forwarded-Fine h)
from_headers-Fine generic edge h =
    or_else-Fine _ _ (if-Fine edge _ (valid-Fine h.cf_connecting_ip)) (forwarded-Fine h)
from_headers-Fine legacy edge h =
    or_else-Fine _ _ (if-Fine edge _ (valid-Fine h.cf_connecting_ip))
      (or_else-Fine _ _ (forwarded-Fine h) (valid-Fine h.cf_connecting_ip))

-- An address, or the bucket of the clients that have none.
abbrev pub IsBucket : JsString → Type 0
IsBucket ip = (is_valid_ip ip ≡ true) ⊎ (ip ≡ js "unknown")

ip_or_unknown-IsBucket : (o : Option JsString) → Fine o → IsBucket (ip_or_unknown o)
ip_or_unknown-IsBucket none h = inr refl
ip_or_unknown-IsBucket (some ip) h = inl h

-- Whatever the headers hold, a client is counted under a well-formed address or as unknown.
pub get_client_ip-IsBucket : (o : Origin) (h : Headers) → IsBucket (get_client_ip o h)
unfolding get_client_ip
get_client_ip-IsBucket o h = ip_or_unknown-IsBucket _ (
    or_else-Fine _ _ (from_headers-Fine (proxy_trust o.takos_trust_proxy) o.on_cloudflare_edge h)
      (valid-Fine o.socket_ip))
