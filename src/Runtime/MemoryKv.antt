-- ===== src/Runtime/MemoryKv.antt =====
-- src/backend/runtime/memory-kv.ts and the helpers of shared.ts that it calls: a key-value store
-- whose entries expire. A clock is in milliseconds, an expiration in seconds, and the values are
-- of any type, since the store only keeps them.
pub mod Laws
use yurucommu_core.Base.{
  ℕ, ◌+◌, ◌*◌, ◌/◌, Bool, true, false, not, ◌&&◌, ◌||◌, Option, none, some, List, [], ◌∷◌, map,
  JsString, JsMap, lookup, insert, remove, if◌then◌else◌, ltb, leb, ◌==◌, length, take, filter,
  get_or_else, starts_with,
}

module _ {ℓ} (V : Type ℓ) where
  pub record Entry : Type ℓ where
    pub value : V
    pub expiration : Option ℕ

pub record Options : Type 0 where
  pub expiration : Option ℕ
  pub expiration_ttl : Option ℕ

abbrev pub ttl_of : ℕ → Options
ttl_of n = record { expiration = none; expiration_ttl = some n }

-- `!n`, of a number or `undefined`
abbrev pub falsy : Option ℕ → Bool
falsy none = true
falsy (some n) = n == 0

unfoldable pub resolve_expiration : ℕ → Options → Option ℕ
resolve_expiration now o =
    if not (falsy o.expiration)
    then o.expiration
    else if falsy o.expiration_ttl
    then none
    else some (now / 1000 + get_or_else o.expiration_ttl 0)

-- `entry.expiration && entry.expiration < nowSeconds()`
unfoldable pub is_expired : ℕ → Option ℕ → Bool
is_expired now none = false
is_expired now (some e) = not (e == 0) && ltb (e * 1000) now

abbrev pub default_list_limit : ℕ
default_list_limit = 1000

module _ {ℓ} (A : Type ℓ) where
  pub record Page : Type ℓ where
    pub items : List A
    pub complete : Bool
    pub cursor : Option ℕ

module _ {ℓ} {A : Type ℓ} where
  -- `slice(0, limit)`, and the limit as the cursor where the list is longer.
  unfoldable pub paginate_list : List A → ℕ → Page A
  paginate_list xs limit =
      let complete = leb (length xs) limit in
      record {
        items = take limit xs;
        complete = complete;
        cursor = if complete then none else some limit;
      }

module _ {ℓ} {V : Type ℓ} where
  unfoldable pub get : ℕ → JsString → JsMap (Entry V) → Option V × JsMap (Entry V)
  get now key store = found (lookup key store)
    where
      found : Option (Entry V) → Option V × JsMap (Entry V)
      found none = (none, store)
      found (some entry) =
          if is_expired now entry.expiration
          then (none, remove key store)
          else (some entry.value, store)

  unfoldable pub put : ℕ → JsString → V → Options → JsMap (Entry V) → JsMap (Entry V)
  put now key value options store =
      insert key (record { value = value; expiration = resolve_expiration now options }) store

  unfoldable pub delete : JsString → JsMap (Entry V) → JsMap (Entry V)
  delete key store = remove key store

  unfoldable pub live_keys : ℕ → JsString → JsMap (Entry V) → List JsString
  live_keys now prefix [] = []
  live_keys now prefix ((name, entry) ∷ store) =
      let rest = live_keys now prefix store in
      if is_expired now entry.expiration || not (starts_with name prefix) then rest else name ∷ rest

  unfoldable pub list : ℕ → JsString → Option ℕ → JsMap (Entry V) → Page JsString
  list now prefix limit store =
      paginate_list (live_keys now prefix store) (get_or_else limit default_list_limit)
