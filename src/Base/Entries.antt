-- ===== src/Base/Entries.antt =====
-- Maps whose keys are distinct, and predicates that hold of every entry.
use mathlib.Core.Path.{◌≡◌, refl, subst₂}
use mathlib.Core.Logic.{inl, inr}
use mathlib.Core.List.{[], ◌∷◌}
use mathlib.Core.Option.{none, some, some-injective}
use native.Mathlib.Omega.{arith}
use yurucommu_core.Base.Tests.{Bool-cases}
use yurucommu_core.Base.Text.{JsString, str_eq, str_eq_iff}
use yurucommu_core.Base.Maps.{
  JsMap, lookup, insert, remove, modify, lookup-insert, lookup-remove, lookup-modify,
}

module _ {ℓ} {V : Type ℓ} where
  -- No key stands twice.
  abbrev pub HasUniqueKeys : JsMap V → Type ℓ
  HasUniqueKeys [] = Unit
  HasUniqueKeys ((k, v) ∷ m) = (lookup k m ≡ none) × HasUniqueKeys m

  pub insert-HasUniqueKeys :
      (k : JsString) (v : V) (m : JsMap V) → HasUniqueKeys m → HasUniqueKeys (insert k v m)
  unfolding insert lookup
  insert-HasUniqueKeys k v [] h = (refl, tt)
  insert-HasUniqueKeys k v ((j, w) ∷ m) (f, h) = elim (Bool-cases (str_eq j k)) [
    | inl same ↦ rw same (f, h)
    | inr other ↦ rw other (
      ground (arith, lookup-insert k j v m, str_eq_iff k j, str_eq_iff j k),
      insert-HasUniqueKeys k v m h,
    )
  ]

  pub remove-HasUniqueKeys :
      (k : JsString) (m : JsMap V) → HasUniqueKeys m → HasUniqueKeys (remove k m)
  unfolding remove lookup
  remove-HasUniqueKeys k [] h = tt
  remove-HasUniqueKeys k ((j, w) ∷ m) (f, h) = elim (Bool-cases (str_eq j k)) [
    | inl same ↦ rw same (remove-HasUniqueKeys k m h)
    | inr other ↦ rw other (
      ground (arith, lookup-remove k j m, str_eq_iff k j, str_eq_iff j k),
      remove-HasUniqueKeys k m h,
    )
  ]

  pub modify-HasUniqueKeys :
      (k : JsString) (g : V → V) (m : JsMap V) → HasUniqueKeys m → HasUniqueKeys (modify k g m)
  unfolding modify lookup
  modify-HasUniqueKeys k g [] h = tt
  modify-HasUniqueKeys k g ((j, w) ∷ m) (f, h) = elim (Bool-cases (str_eq j k)) [
    | inl same ↦ rw same (f, h)
    | inr other ↦ rw other (
      ground (arith, lookup-modify k j g m, str_eq_iff k j, str_eq_iff j k),
      modify-HasUniqueKeys k g m h,
    )
  ]

module _ {ℓ κ} {V : Type ℓ} (P : JsString → V → Type κ) where
  abbrev pub AllEntries : JsMap V → Type κ
  AllEntries [] = Unit
  AllEntries ((k, v) ∷ m) = P k v × AllEntries m

  pub AllEntries-lookup :
      (k : JsString) (m : JsMap V) {v : V} → AllEntries m → lookup k m ≡ some v → P k v
  unfolding lookup
  AllEntries-lookup k [] h e = cc
  AllEntries-lookup k ((j, w) ∷ m) {v} (p, h) e = elim (Bool-cases (str_eq j k)) [
    | inl same ↦ at_key ((str_eq_iff j k).0 same) (rw same at e)
    | inr other ↦ AllEntries-lookup k m h (rw other at e)
  ]
    where
      at_key : j ≡ k → some w ≡ some v → P k v
      at_key q r = subst₂ P q (some-injective w v r) p

  pub insert-AllEntries :
      (k : JsString) (v : V) (m : JsMap V) → P k v → AllEntries m → AllEntries (insert k v m)
  unfolding insert
  insert-AllEntries k v [] p h = (p, tt)
  insert-AllEntries k v ((j, w) ∷ m) p (q, h) = elim (Bool-cases (str_eq j k)) [
    | inl same ↦ rw same (rw (← (str_eq_iff j k).0 same) at p, h)
    | inr other ↦ rw other (q, insert-AllEntries k v m p h)
  ]

  pub remove-AllEntries : (k : JsString) (m : JsMap V) → AllEntries m → AllEntries (remove k m)
  unfolding remove
  remove-AllEntries k [] h = tt
  remove-AllEntries k ((j, w) ∷ m) (q, h) = elim (Bool-cases (str_eq j k)) [
    | inl same ↦ rw same (remove-AllEntries k m h)
    | inr other ↦ rw other (q, remove-AllEntries k m h)
  ]

  pub modify-AllEntries :
      (k : JsString) (g : V → V) (m : JsMap V)
      → ((v : V) → P k v → P k (g v))
      → AllEntries m
      → AllEntries (modify k g m)
  unfolding modify
  modify-AllEntries k g [] f h = tt
  modify-AllEntries k g ((j, w) ∷ m) f (q, h) = elim (Bool-cases (str_eq j k)) [
    | inl same ↦ rw same (moved ((str_eq_iff j k).0 same), h)
    | inr other ↦ rw other (q, modify-AllEntries k g m f h)
  ]
    where
      moved : j ≡ k → P j (g w)
      moved e = rw e (f w (rw e at q))
