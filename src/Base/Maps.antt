-- ===== src/Base/Maps.antt =====
-- `Map<string, V>`: entries in insertion order. A `set` on a present key keeps its place.
use mathlib.Core.Path.{◌≡◌, refl}
use mathlib.Core.Logic.{◌≢◌}
use mathlib.Core.List.{List, [], ◌∷◌}
use mathlib.Core.Option
use mathlib.Core.Option.{Option, none, some}
use native.Mathlib.Omega.{arith}
use yurucommu_core.Base.Tests.{if◌then◌else◌}
use yurucommu_core.Base.Text.{JsString, str_eq, str_eq_iff, str_eq_refl}

abbrev pub JsMap {ℓ} : Type ℓ → Type ℓ
JsMap V = List (JsString × V)

module _ {ℓ} {V : Type ℓ} where
  unfoldable pub lookup : JsString → JsMap V → Option V
  lookup k [] = none
  lookup k ((j, v) ∷ m) = if str_eq j k then some v else lookup k m

  unfoldable pub insert : JsString → V → JsMap V → JsMap V
  insert k v [] = (k, v) ∷ []
  insert k v ((j, w) ∷ m) = if str_eq j k then (j, v) ∷ m else (j, w) ∷ insert k v m

  unfoldable pub remove : JsString → JsMap V → JsMap V
  remove k [] = []
  remove k ((j, w) ∷ m) = let rest = remove k m in if str_eq j k then rest else (j, w) ∷ rest

  pub lookup-insert :
      (k j : JsString) (v : V) (m : JsMap V)
      → lookup j (insert k v m) ≡ (if str_eq k j then some v else lookup j m)
  unfolding lookup insert
  lookup-insert k j v [] = refl
  lookup-insert k j v ((i, w) ∷ m) =
      ground (arith, str_eq_iff k j, str_eq_iff i k, str_eq_iff i j, lookup-insert k j v m)

  pub lookup-remove :
      (k j : JsString) (m : JsMap V)
      → lookup j (remove k m) ≡ (if str_eq k j then none else lookup j m)
  unfolding lookup remove
  lookup-remove k j [] = ground arith
  lookup-remove k j ((i, w) ∷ m) =
      ground (arith, str_eq_iff k j, str_eq_iff i k, str_eq_iff i j, lookup-remove k j m)

  pub lookup-insert_self : (k : JsString) (v : V) (m : JsMap V) → lookup k (insert k v m) ≡ some v
  lookup-insert_self k v m = simp (lookup-insert, str_eq_refl)

  pub lookup-remove_self : (k : JsString) (m : JsMap V) → lookup k (remove k m) ≡ none
  lookup-remove_self k m = simp (lookup-remove, str_eq_refl)

  pub lookup-insert_ne :
      (k j : JsString) (v : V) (m : JsMap V) → k ≢ j → lookup j (insert k v m) ≡ lookup j m
  lookup-insert_ne k j v m h = ground (arith, lookup-insert k j v m, str_eq_iff k j)

  pub lookup-remove_ne : (k j : JsString) (m : JsMap V) → k ≢ j → lookup j (remove k m) ≡ lookup j m
  lookup-remove_ne k j m h = ground (arith, lookup-remove k j m, str_eq_iff k j)

  pub ruleset map_laws = (lookup-insert, lookup-remove, str_eq_refl)

module _ {ℓ} {V : Type ℓ} where
  -- An UPDATE of the row with a primary key; no row, no effect.
  unfoldable pub modify : JsString → (V → V) → JsMap V → JsMap V
  modify k f [] = []
  modify k f ((j, v) ∷ m) = if str_eq j k then (j, f v) ∷ m else (j, v) ∷ modify k f m

  pub lookup-modify :
      (k j : JsString) (f : V → V) (m : JsMap V)
      → lookup j (modify k f m) ≡ (if str_eq k j then Option.map f (lookup j m) else lookup j m)
  unfolding lookup modify
  lookup-modify k j f [] = ground arith
  lookup-modify k j f ((i, w) ∷ m) =
      ground (arith, str_eq_iff k j, str_eq_iff i k, str_eq_iff i j, lookup-modify k j f m)

  pub lookup-modify_self :
      (k : JsString) (f : V → V) (m : JsMap V) {v : V}
      → lookup k m ≡ some v
      → lookup k (modify k f m) ≡ some (f v)
  lookup-modify_self k f m h = rw (lookup-modify, str_eq_refl, h) refl

  pub lookup-modify_ne :
      (k j : JsString) (f : V → V) (m : JsMap V) → k ≢ j → lookup j (modify k f m) ≡ lookup j m
  lookup-modify_ne k j f m h = ground (arith, lookup-modify k j f m, str_eq_iff k j)
