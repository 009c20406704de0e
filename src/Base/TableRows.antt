-- ===== src/Base/TableRows.antt =====
-- Predicates of every row under the statements of a table.
use mathlib.Core.Path.{◌≡◌}
use mathlib.Core.Logic.{◌≢◌, inl, inr}
use mathlib.Core.Bool.{Bool, true}
use mathlib.Core.List.{[], ◌∷◌}
use yurucommu_core.Base.Tests.{Bool-cases}
use yurucommu_core.Base.Text.{JsString}
use yurucommu_core.Base.Maps.{JsMap}
use yurucommu_core.Base.Entries.{AllEntries, modify-AllEntries}
use yurucommu_core.Base.Tables.{apply_if, update_where, update_all, delete_where}

module _ {ℓ κ} {V : Type ℓ} (P : JsString → V → Type κ) where
  apply_if-holds :
      (k : JsString) (p : V → Bool) (f : V → V)
      → ((v : V) → p v ≡ true → P k v → P k (f v))
      → (v : V) → P k v
      → P k (apply_if p f v)
  apply_if-holds k p f keep v h = elim (Bool-cases (p v)) [
    | inl taken ↦ rw taken (keep v taken h)
    | inr skipped ↦ rw skipped h
  ]

  pub update_where-AllEntries :
      (k : JsString) (p : V → Bool) (f : V → V) (m : JsMap V)
      → ((j : JsString) (v : V) → p v ≡ true → P j v → P j (f v))
      → AllEntries P m
      → AllEntries P (update_where k p f m)
  unfolding update_where
  update_where-AllEntries k p f m keep h =
      modify-AllEntries P k (apply_if p f) m (apply_if-holds k p f (keep k)) h

  pub update_all-AllEntries :
      (p : JsString → V → Bool) (f : V → V) (m : JsMap V)
      → ((k : JsString) (v : V) → p k v ≡ true → P k v → P k (f v))
      → AllEntries P m
      → AllEntries P (update_all p f m)
  unfolding update_all
  update_all-AllEntries p f [] keep h = tt
  update_all-AllEntries p f ((k, v) ∷ m) keep (q, h) =
      (apply_if-holds k (p k) f (keep k) v q, update_all-AllEntries p f m keep h)

  pub delete_where-AllEntries :
      (p : JsString → V → Bool) (m : JsMap V) → AllEntries P m → AllEntries P (delete_where p m)
  unfolding delete_where
  delete_where-AllEntries p [] h = tt
  delete_where-AllEntries p ((k, v) ∷ m) (q, h) = elim (Bool-cases (p k v)) [
    | inl gone ↦ rw gone (delete_where-AllEntries p m h)
    | inr kept ↦ rw kept (q, delete_where-AllEntries p m h)
  ]

module _ {ℓ κ μ} {V : Type ℓ} {P : JsString → V → Type κ} {Q : JsString → V → Type μ} where
  -- An update that makes the rows it takes satisfy `Q`, which the others satisfied before.
  pub update_all-establishes :
      (p : JsString → V → Bool) (f : V → V) (m : JsMap V)
      → ((k : JsString) (v : V) → p k v ≡ true → P k v → Q k (f v))
      → ((k : JsString) (v : V) → p k v ≢ true → P k v → Q k v)
      → AllEntries P m
      → AllEntries Q (update_all p f m)
  unfolding update_all
  update_all-establishes p f [] yes_ no_ h = tt
  update_all-establishes p f ((k, v) ∷ m) yes_ no_ (q, h) = (
    elim (Bool-cases (p k v)) [
      | inl taken ↦ rw taken (yes_ k v taken q)
      | inr skipped ↦ rw skipped (no_ k v (λ t. cc) q)
    ],
    update_all-establishes p f m yes_ no_ h,
  )
