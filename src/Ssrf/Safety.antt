-- ===== src/Ssrf/Safety.antt =====
-- What `assertSafeRemoteUrlResolved` of src/backend/lib/ssrf.ts promises its callers.
use yurucommu_core.Base.{
  ◌<◌, length, ◌≡◌, refl, Bool, true, false, ◌&&◌, Option, none, some, List, [], ◌∷◌, Bool-cases,
  Option-cases, inl, inr, ◌⊎◌, JsString, if◌then◌else◌, arith, All, all,
}
use mathlib.Core.Option.{some-injective}
use yurucommu_core.Ssrf.Ipv6.{is_well_formed_ip, is_private_ip_address}
use yurucommu_core.Ssrf.Urls.{
  Url, SafetyOptions, normalize_hostname, is_safe_remote_url, is_takos_test_hostname,
  is_local_substrate_url_shape, is_allowed_local_substrate_ip, all_pass, is_public_ip,
  resolve_local_substrate_hostname_ips, assert_safe_remote_url_resolved,
}

all_pass-some :
    (ok : JsString → Bool) (o : Option (List JsString)) (ips : List JsString)
    → all_pass ok o ≡ some ips
    → (o ≡ some ips) × (all ok ips ≡ true) × (0 < length ips)
unfolding all_pass
all_pass-some ok none ips h = cc
all_pass-some ok (some []) ips h = cc
all_pass-some ok (some (ip ∷ more)) ips h = elim (Bool-cases (all ok (ip ∷ more))) [
  | inr bad ↦ let k = rw bad at h in cc
  | inl good ↦
      let k : (ip ∷ more) ≡ ips = some-injective _ _ (rw good at h) in
      rw (← k) (refl, good, omega arith)
]

public_ips :
    (ips : List JsString)
    → all is_public_ip ips ≡ true
    → All (λ ip. (is_well_formed_ip ip ≡ true) × (is_private_ip_address ip ≡ false)) ips
public_ips [] h = tt
public_ips (ip ∷ ips) h = (ground arith, public_ips ips (ground arith))

allowed_ips :
    (ips : List JsString)
    → all is_allowed_local_substrate_ip ips ≡ true
    → All (λ ip. is_allowed_local_substrate_ip ip ≡ true) ips
allowed_ips [] h = tt
allowed_ips (ip ∷ ips) h = (ground arith, allowed_ips ips (ground arith))

-- A URL that is let through is safe by its form, and comes with at least one address. Each of them is
-- well formed and not private, and is one that the resolver gave for the normalized hostname; or
-- local fetches are enabled, the host is one of takos.test, and each of them is on the local list.
pub assert_safe_remote_url_resolved-IsSafe :
    (parse_url : JsString → Option Url) (url : JsString) (options : SafetyOptions)
    (ips : List JsString)
    → assert_safe_remote_url_resolved parse_url url options ≡ some ips
    → (parsed : Url) × (parse_url url ≡ some parsed)
      × (is_safe_remote_url parse_url url ≡ true)
      × (0 < length ips)
      × (((options.remote_resolver (normalize_hostname parsed.hostname) ≡ some ips)
            × All (λ ip. (is_well_formed_ip ip ≡ true) × (is_private_ip_address ip ≡ false)) ips)
          ⊎ ((options.allow_local ≡ true)
              × (is_takos_test_hostname (normalize_hostname parsed.hostname) ≡ true)
              × (is_local_substrate_url_shape parsed ≡ true)
              × All (λ ip. is_allowed_local_substrate_ip ip ≡ true) ips))
unfolding assert_safe_remote_url_resolved
assert_safe_remote_url_resolved-IsSafe parse_url url options ips h =
    elim (Bool-cases (is_safe_remote_url parse_url url)) [
      | inr unsafe ↦ let k = rw unsafe at h in cc
      | inl safe ↦ elim (Option-cases (parse_url url)) [
        | inl gone ↦ let k = rw (safe, gone) at h in cc
        | inr (parsed, there) ↦
            let k = rw (safe, there) at h in
            let j = judged parsed k in (parsed, there, safe, j.0, j.1)
      ]
    ]
  where
    judged :
        (parsed : Url)
        → (if options.allow_local && is_takos_test_hostname (normalize_hostname parsed.hostname)
            then (if is_local_substrate_url_shape parsed
                then all_pass is_allowed_local_substrate_ip (
                    resolve_local_substrate_hostname_ips options
                      (normalize_hostname parsed.hostname))
                else none)
            else all_pass is_public_ip
                (options.remote_resolver (normalize_hostname parsed.hostname)))
          ≡ some ips
        → (0 < length ips)
          × (((options.remote_resolver (normalize_hostname parsed.hostname) ≡ some ips)
                × All
                    (λ ip. (is_well_formed_ip ip ≡ true) × (is_private_ip_address ip ≡ false))
                    ips)
              ⊎ ((options.allow_local ≡ true)
                  × (is_takos_test_hostname (normalize_hostname parsed.hostname) ≡ true)
                  × (is_local_substrate_url_shape parsed ≡ true)
                  × All (λ ip. is_allowed_local_substrate_ip ip ≡ true) ips))
    judged parsed k =
        elim (Bool-cases
          (options.allow_local && is_takos_test_hostname (normalize_hostname parsed.hostname))) [
            | inr remote ↦
                let r = all_pass-some is_public_ip _ ips (rw remote at k) in
                (r.2, inl (r.0, public_ips ips r.1))
            | inl local_ ↦ elim (Bool-cases (is_local_substrate_url_shape parsed)) [
              | inr misshaped ↦ let x = rw (local_, misshaped) at k in cc
              | inl shaped ↦
                  let r =
                    all_pass-some is_allowed_local_substrate_ip _ ips (rw (local_, shaped) at k) in
                  (r.2, inr (ground arith, ground arith, shaped, allowed_ips ips r.1))
            ]
          ]

all_public :
    (ips : List JsString)
    → All (λ ip. (is_well_formed_ip ip ≡ true) × (is_private_ip_address ip ≡ false)) ips
    → all is_public_ip ips ≡ true
all_public [] h = refl
all_public (ip ∷ ips) ((w, n), h) = rw (w, n, all_public ips h) refl

-- A URL that is safe by its form, and is not taken as local, is let through with all the addresses
-- of its host where there is one and each of them is well formed and not private.
pub assert_safe_remote_url_resolved-accepts :
    (parse_url : JsString → Option Url) (url : JsString) (options : SafetyOptions) (parsed : Url)
    (ip : JsString) (ips : List JsString)
    → parse_url url ≡ some parsed
    → is_safe_remote_url parse_url url ≡ true
    → (options.allow_local && is_takos_test_hostname (normalize_hostname parsed.hostname)) ≡ false
    → options.remote_resolver (normalize_hostname parsed.hostname) ≡ some (ip ∷ ips)
    → All (λ x. (is_well_formed_ip x ≡ true) × (is_private_ip_address x ≡ false)) (ip ∷ ips)
    → assert_safe_remote_url_resolved parse_url url options ≡ some (ip ∷ ips)
unfolding assert_safe_remote_url_resolved all_pass
assert_safe_remote_url_resolved-accepts parse_url url options parsed ip ips e safe remote given
      public =
    rw (safe, e, remote, given, all_public (ip ∷ ips) public) refl
