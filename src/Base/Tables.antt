-- ===== src/Base/Tables.antt =====
-- `UPDATE … WHERE` and `DELETE … WHERE` on a table that is kept by its primary key.
use Prim.Native.Nat.{ℕ}
use mathlib.Core.Path.{◌≡◌, refl, sym, ◌∙◌}
use mathlib.Core.Logic.{inl, inr}
use mathlib.Core.Bool.{Bool, true, false}
use mathlib.Core.List.{[], ◌∷◌}
use mathlib.Core.Option
use mathlib.Core.Option.{Option, none, some}
use native.Mathlib.Omega.{arith}
use yurucommu_core.Base.Tests.{Bool-cases, Option-cases, if◌then◌else◌, leb}
use yurucommu_core.Base.Text.{JsString, str_eq, str_eq_iff, str_gt}
use yurucommu_core.Base.Maps.{JsMap, lookup, modify, lookup-modify, lookup-modify_self}

module _ {ℓ} {V : Type ℓ} where
  -- `if p then f else nothing`, on one row
  abbrev pub apply_if : (V → Bool) → (V → V) → V → V
  apply_if p f v = if p v then f v else v

  -- `UPDATE … SET f WHERE id = k AND p`
  unfoldable pub update_where : JsString → (V → Bool) → (V → V) → JsMap V → JsMap V
  update_where k p f m = modify k (apply_if p f) m

  abbrev holds_of : (V → Bool) → Option V → Bool
  holds_of p none = false
  holds_of p (some v) = p v

  -- `affectedRowCount(…) > 0` of such an update
  unfoldable pub affects : JsString → (V → Bool) → JsMap V → Bool
  affects k p m = holds_of p (lookup k m)

  -- `UPDATE … SET f WHERE p`, over the whole table
  unfoldable pub update_all : (JsString → V → Bool) → (V → V) → JsMap V → JsMap V
  update_all p f [] = []
  update_all p f ((k, v) ∷ m) = (k, apply_if (p k) f v) ∷ update_all p f m

  -- `SELECT … WHERE p`
  unfoldable pub select_where : (JsString → V → Bool) → JsMap V → JsMap V
  select_where p [] = []
  select_where p ((k, v) ∷ m) = let rest = select_where p m in if p k v then (k, v) ∷ rest else rest

  unfoldable pub insert_by : (V → ℕ) → JsString × V → JsMap V → JsMap V
  insert_by f e [] = e ∷ []
  insert_by f e (d ∷ m) =
      let rest = insert_by f e m in if leb (f e.1) (f d.1) then e ∷ d ∷ m else d ∷ rest

  -- `ORDER BY f`, rows with equal values in the table's order
  unfoldable pub order_by : (V → ℕ) → JsMap V → JsMap V
  order_by f [] = []
  order_by f (e ∷ m) = insert_by f e (order_by f m)

  unfoldable pub insert_by_key : JsString × V → JsMap V → JsMap V
  insert_by_key e [] = e ∷ []
  insert_by_key e (d ∷ m) =
      let rest = insert_by_key e m in if str_gt e.0 d.0 then d ∷ rest else e ∷ d ∷ m

  -- `ORDER BY` the key
  unfoldable pub order_by_key : JsMap V → JsMap V
  order_by_key [] = []
  order_by_key (e ∷ m) = insert_by_key e (order_by_key m)

  -- `DELETE … WHERE p`
  unfoldable pub delete_where : (JsString → V → Bool) → JsMap V → JsMap V
  delete_where p [] = []
  delete_where p ((k, v) ∷ m) = let rest = delete_where p m in if p k v then rest else (k, v) ∷ rest

  pub lookup-update_where :
      (k j : JsString) (p : V → Bool) (f : V → V) (m : JsMap V)
      → lookup j (update_where k p f m)
        ≡ (if str_eq k j then Option.map (apply_if p f) (lookup j m) else lookup j m)
  unfolding update_where
  lookup-update_where k j p f m = lookup-modify k j (apply_if p f) m

  pub lookup-update_where_self :
      (k : JsString) (p : V → Bool) (f : V → V) (m : JsMap V) {v : V}
      → lookup k m ≡ some v
      → lookup k (update_where k p f m) ≡ some (apply_if p f v)
  unfolding update_where
  lookup-update_where_self k p f m h = lookup-modify_self k (apply_if p f) m h

  pub affects-some :
      (k : JsString) (p : V → Bool) (m : JsMap V) {v : V}
      → lookup k m ≡ some v
      → affects k p m ≡ p v
  unfolding affects
  affects-some k p m h = rw h refl

  pub affects-none :
      (k : JsString) (p : V → Bool) (m : JsMap V) → lookup k m ≡ none → affects k p m ≡ false
  unfolding affects
  affects-none k p m h = rw h refl

  pub lookup-update_all :
      (k : JsString) (p : JsString → V → Bool) (f : V → V) (m : JsMap V)
      → lookup k (update_all p f m) ≡ Option.map (apply_if (p k) f) (lookup k m)
  unfolding lookup update_all
  lookup-update_all k p f [] = refl
  lookup-update_all k p f ((j, v) ∷ m) = elim (Bool-cases (str_eq j k)) [
    | inl same ↦ rw (same, (str_eq_iff j k).0 same) refl
    | inr other ↦ rw (other, lookup-update_all k p f m) refl
  ]

  -- A row that the condition does not take is left as it is, and so are all others.
  pub update_where-skips :
      (k j : JsString) (p : V → Bool) (f : V → V) (m : JsMap V) {v : V}
      → lookup k m ≡ some v
      → p v ≡ false
      → lookup j (update_where k p f m) ≡ lookup j m
  update_where-skips k j p f m h skipped =
      ground (arith, lookup-update_where k j p f m, str_eq_iff k j)

  pub lookup-update_where_ne :
      (k j : JsString) (p : V → Bool) (f : V → V) (m : JsMap V)
      → str_eq k j ≡ false
      → lookup j (update_where k p f m) ≡ lookup j m
  lookup-update_where_ne k j p f m other = rw (lookup-update_where k j p f m, other) refl

module _ {ℓ} {V : Type ℓ} where
  -- An update that took its row leaves a row on which a condition that its result refutes fails.
  pub affects-update_where :
      (k : JsString) (p q : V → Bool) (f : V → V) (m : JsMap V)
      → ((v : V) → q (f v) ≡ false)
      → affects k p m ≡ true
      → affects k q (update_where k p f m) ≡ false
  affects-update_where k p q f m closed hit = elim (Option-cases (lookup k m)) [
    | inl gone ↦ let miss = affects-none k p m gone in cc
    | inr (v, there) ↦ refuted v there (sym (affects-some k p m there) ∙ hit)
  ]
    where
      refuted :
          (v : V) → lookup k m ≡ some v → p v ≡ true → affects k q (update_where k p f m) ≡ false
      refuted v there open_ =
          let row : lookup k (update_where k p f m) ≡ some (f v) =
            lookup-update_where_self k p f m there ∙ rw open_ refl in
          affects-some k q (update_where k p f m) row ∙ closed v
