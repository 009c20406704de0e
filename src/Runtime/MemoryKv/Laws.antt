-- ===== src/Runtime/MemoryKv/Laws.antt =====
-- What the store of src/backend/runtime/memory-kv.ts promises of `get`, `put` and `delete`.
use yurucommu_core.Base.{
  ℕ, ◌+◌, ◌*◌, ◌/◌, ◌<◌, ◌≡◌, Option, none, some, JsString, JsMap, lookup, if◌then◌else◌, ltb,
  str_eq, str_eq_iff, arith, lookup-insert, lookup-remove,
}
use yurucommu_core.Runtime.MemoryKv.{
  Entry, ttl_of, resolve_expiration, is_expired, get, put, delete,
}

module _ {ℓ} {V : Type ℓ} where
  -- What a store holds of a key at a time.
  unfoldable pub fresh : ℕ → Option (Entry V) → Option V
  fresh now none = none
  fresh now (some entry) = if is_expired now entry.expiration then none else some entry.value

  pub get_value :
      (now : ℕ) (k : JsString) (m : JsMap (Entry V)) → (get now k m).0 ≡ fresh now (lookup k m)
  unfolding get fresh
  get_value now k m = ground arith

  -- Reading takes out nothing but an entry that has expired.
  pub lookup-get :
      (now : ℕ) (k j : JsString) (m : JsMap (Entry V))
      → lookup j (get now k m).1 ≡ (
          if str_eq k j
          then elim (fresh now (lookup k m)) [ none ↦ none | some v ↦ lookup k m ]
          else lookup j m)
  unfolding get fresh
  lookup-get now k j m = ground (arith, lookup-remove k j m, str_eq_iff k j)

  -- A value that is put with a positive time to live is read back until that time is over, and
  -- is gone afterwards; what is read of the other keys does not change.
  pub get-put :
      (t now ttl : ℕ) (k j : JsString) (v : V) (m : JsMap (Entry V))
      → 0 < ttl
      → (get now j (put t k v (ttl_of ttl) m)).0 ≡ (
          if str_eq k j
          then (if ltb ((t / 1000 + ttl) * 1000) now then none else some v)
          else (get now j m).0)
  unfolding get put resolve_expiration is_expired
  get-put t now ttl k j v m h =
      ground (arith, lookup-insert k j (record { value = v; expiration = some (t / 1000 + ttl) }) m)

  pub get-delete :
      (now : ℕ) (k j : JsString) (m : JsMap (Entry V))
      → (get now j (delete k m)).0 ≡ (if str_eq k j then none else (get now j m).0)
  unfolding get delete
  get-delete now k j m = ground (arith, lookup-remove k j m)
