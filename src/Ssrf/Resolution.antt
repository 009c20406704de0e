-- ===== src/Ssrf/Resolution.antt =====
-- `resolveRemoteHostnameIPs` of src/backend/lib/ssrf.ts. The answers of the DNS service are an
-- argument, `none` for a failed lookup; the three lookups of a name are taken in order.
use yurucommu_core.Base.{
  ℕ, zero, suc, ◌≡◌, refl, Bool, true, false, ◌||◌, ◌&&◌, Option, none, some, List, [], ◌∷◌, ◌++◌,
  Bool-cases, Option-cases, inl, inr, JsString, if◌then◌else◌, ◌==◌, any, str_eq, All, All-append,
  All-map, str_eq_refl,
}
use mathlib.Core.Option.{some-injective}
use yurucommu_core.Ssrf.Urls.{normalize_hostname}

pub data DnsType : Type 0 where
  type_a type_aaaa type_cname : DnsType

pub record Answer : Type 0 where
  pub type_ : ℕ
  pub data_ : JsString

pub record Walked : Type 0 where
  pub visited : List JsString
  pub ips : List JsString

-- `set.add(x)`
unfoldable pub add_to : List JsString → JsString → List JsString
add_to set x = if any (str_eq x) set then set else set ++ x ∷ []

-- The A and AAAA records among the answers, added to the set.
unfoldable pub add_addresses : List Answer → List JsString → List JsString
add_addresses [] ips = ips
add_addresses (answer ∷ answers) ips =
    add_addresses answers
      (if answer.type_ == 1 || answer.type_ == 28 then add_to ips answer.data_ else ips)

abbrev and_then : Option Walked → (Walked → Option Walked) → Option Walked
and_then none f = none
and_then (some w) f = f w

-- The CNAME records among the answers, followed in order.
unfoldable pub follow : (JsString → Walked → Option Walked) → List Answer → Walked → Option Walked
follow go [] w = some w
follow go (answer ∷ answers) w =
    if answer.type_ == 5
    then and_then (go answer.data_ w) (λ w'. follow go answers w')
    else follow go answers w

-- The name's own addresses, and then those of the names that it stands for.
unfoldable pub visit :
    (List Answer → Walked → Option Walked)
    → Walked
    → Option (List Answer)
    → Option (List Answer)
    → Option (List Answer)
    → Option Walked
visit onward v (some a) (some aaaa) (some cname) =
    onward cname (record v { ips = add_addresses (a ++ aaaa) v.ips })
visit onward v _ _ _ = none

module _ (doh_resolve : JsString → DnsType → Option (List Answer)) where
  -- `walk` at a depth of 11 less the fuel: it throws when there is none left.
  unfoldable pub walk : ℕ → JsString → Walked → Option Walked
  walk zero name w = none
  walk (suc fuel) name w =
      let normalized = normalize_hostname name in
      if any (str_eq normalized) w.visited
      then some w
      else visit (follow (walk fuel)) (record w { visited = w.visited ++ normalized ∷ [] })
          (doh_resolve normalized type_a) (doh_resolve normalized type_aaaa)
          (doh_resolve normalized type_cname)

  unfoldable pub resolve_remote_hostname_ips : JsString → Option (List JsString)
  resolve_remote_hostname_ips hostname =
      found (walk 11 hostname (record { visited = []; ips = [] }))
    where
      found : Option Walked → Option (List JsString)
      found none = none
      found (some w) = some w.ips

  -- An address that the service gave for some name.
  abbrev pub IsGiven : JsString → Type 0
  IsGiven ip =
      (name : JsString) × (a : List Answer) × (aaaa : List Answer) × (doh_resolve name type_a
        ≡ some a)
      × (doh_resolve name type_aaaa ≡ some aaaa)
      × (any (λ r. (r.type_ == 1 || r.type_ == 28) && str_eq r.data_ ip) (a ++ aaaa) ≡ true)

abbrev is_address : Answer → Bool
is_address r = r.type_ == 1 || r.type_ == 28

abbrev Lists : List Answer → Answer → Type 0
Lists rs r = is_address r ≡ true → any (λ s. is_address s && str_eq s.data_ r.data_) rs ≡ true

or_true : (b : Bool) → (b || true) ≡ true
or_true true = refl
or_true false = refl

listed : (rs : List Answer) → All (Lists rs) rs
listed [] = tt
listed (r ∷ rs) = (
  λ e. rw (e, str_eq_refl r.data_) refl,
  All-map {P = Lists rs} {Q = Lists (r ∷ rs)} (λ x h e. rw (h e) (or_true _)) rs (listed rs),
)

module _ (P : JsString → Type 0) where
  add_to-All : (ips : List JsString) (x : JsString) → All P ips → P x → All P (add_to ips x)
  unfolding add_to
  add_to-All ips x h p = elim (Bool-cases (any (str_eq x) ips)) [
    | inl there ↦ rw there h
    | inr new ↦ rw new (All-append P ips (x ∷ []) h (p, tt))
  ]

  add_addresses-All :
      (rs : List Answer) (ips : List JsString)
      → All (λ r. is_address r ≡ true → P r.data_) rs
      → All P ips
      → All P (add_addresses rs ips)
  unfolding add_addresses
  add_addresses-All [] ips h k = k
  add_addresses-All (r ∷ rs) ips (p, h) k = elim (Bool-cases (is_address r)) [
    | inl yes_ ↦
        rw yes_ (add_addresses-All rs (add_to ips r.data_) h (add_to-All ips r.data_ k (p yes_)))
    | inr other ↦ rw other (add_addresses-All rs ips h k)
  ]

  follow-All :
      (go : JsString → Walked → Option Walked)
      → ((name : JsString) (w w' : Walked) → go name w ≡ some w' → All P w.ips → All P w'.ips)
      → (answers : List Answer) (w w' : Walked) → follow go answers w ≡ some w'
      → All P w.ips
      → All P w'.ips
  unfolding follow
  follow-All go keeps [] w w' h k = rw (← some-injective _ _ h) k
  follow-All go keeps (answer ∷ answers) w w' h k = elim (Bool-cases (answer.type_ == 5)) [
    | inr other ↦ follow-All go keeps answers w w' (rw other at h) k
    | inl cname ↦ elim (Option-cases (go answer.data_ w)) [
      | inl gone ↦ let x = rw (cname, gone) at h in cc
      | inr (v, there) ↦
          follow-All go keeps answers v w' (rw (cname, there) at h) (keeps answer.data_ w v there k)
    ]
  ]

module _ (doh_resolve : JsString → DnsType → Option (List Answer)) where
  walk-IsGiven :
      (fuel : ℕ) (name : JsString) (w w' : Walked)
      → walk doh_resolve fuel name w ≡ some w'
      → All (IsGiven doh_resolve) w.ips
      → All (IsGiven doh_resolve) w'.ips
  unfolding walk visit
  walk-IsGiven zero name w w' h k = cc
  walk-IsGiven (suc fuel) name w w' h k =
      let n = normalize_hostname name in
      elim (Bool-cases (any (str_eq n) w.visited)) [
        | inl seen ↦ rw (← some-injective _ _ (rw seen at h)) k
        | inr new ↦ elim (Option-cases (doh_resolve n type_a)) [
          | inl gone ↦ let x = rw (new, gone) at h in cc
          | inr (a, ea) ↦ elim (Option-cases (doh_resolve n type_aaaa)) [
            | inl gone ↦ let x = rw (new, ea, gone) at h in cc
            | inr (aaaa, eaaaa) ↦ elim (Option-cases (doh_resolve n type_cname)) [
              | inl gone ↦ let x = rw (new, ea, eaaaa, gone) at h in cc
              | inr (cname, ec) ↦
                  follow-All (IsGiven doh_resolve) (walk doh_resolve fuel) (walk-IsGiven fuel) cname
                    _ w' (rw (new, ea, eaaaa, ec) at h)
                    (add_addresses-All (IsGiven doh_resolve) (a ++ aaaa) w.ips
                      (All-map {P = Lists (a ++ aaaa)}
                        {Q = λ r. is_address r ≡ true → IsGiven doh_resolve r.data_}
                        (λ r l e. (n, a, aaaa, ea, eaaaa, l e)) (a ++ aaaa) (listed (a ++ aaaa)))
                      k)
            ]
          ]
        ]
      ]

  -- Every address that a hostname resolves to is one of an A or AAAA record that the service gave.
  pub resolve_remote_hostname_ips-IsGiven :
      (hostname : JsString) (ips : List JsString)
      → resolve_remote_hostname_ips doh_resolve hostname ≡ some ips
      → All (IsGiven doh_resolve) ips
  unfolding resolve_remote_hostname_ips
  resolve_remote_hostname_ips-IsGiven hostname ips h =
      elim (Option-cases (walk doh_resolve 11 hostname (record { visited = []; ips = [] }))) [
        | inl gone ↦ let x = rw gone at h in cc
        | inr (w, there) ↦
            rw (← some-injective _ _ (rw there at h)) (walk-IsGiven 11 hostname _ w there tt)
      ]
