-- ===== src/Base/Text.antt =====
-- JavaScript strings as lists of UTF-16 code units, which is how the source compares and
-- indexes them.
use Prim.Native.Nat.{ℕ}
use Prim.Native.Char.{code}
use Prim.Native.String.{String}
use mathlib.Core.Path.{◌≡◌, refl}
use mathlib.Core.Logic.{◌↔◌, ◌≢◌}
use mathlib.Core.Bool.{false≢true, Bool, true, false, ◌&&◌}
use mathlib.Core.List.{List, [], ◌∷◌}
use native.Mathlib.Omega.{arith}
use yurucommu_core.Base.Tests.{ltb, ◌==◌, if◌then◌else◌}

abbrev pub JsString : Type 0
JsString = List ℕ

-- A literal of the basic multilingual plane, such as the source writes.
abbrev pub js : String → JsString
js String.[] = []
js (String.◌∷◌ c s) = code c ∷ js s

-- `a === b`
unfoldable pub str_eq : JsString → JsString → Bool
str_eq [] [] = true
str_eq [] (_ ∷ _) = false
str_eq (_ ∷ _) [] = false
str_eq (a ∷ s) (b ∷ t) = a == b && str_eq s t

str_eq_sound : (s t : JsString) → str_eq s t ≡ true → s ≡ t
unfolding str_eq
str_eq_sound [] [] h = refl
str_eq_sound [] (_ ∷ _) h = cc
str_eq_sound (_ ∷ _) [] h = cc
str_eq_sound (a ∷ s) (b ∷ t) h = ground (arith, str_eq_sound s t)

pub str_eq_refl : (s : JsString) → str_eq s s ≡ true
unfolding str_eq
str_eq_refl [] = refl
str_eq_refl (a ∷ s) = ground (arith, str_eq_refl s)

pub str_eq_iff : (s t : JsString) → (str_eq s t ≡ true) ↔ (s ≡ t)
str_eq_iff s t = (str_eq_sound s t, λ e. rw e (str_eq_refl t))

pub str_ne : (s t : JsString) → str_eq s t ≡ false → s ≢ t
str_ne s t h e = let k : str_eq s t ≡ true = (str_eq_iff s t).1 e in false≢true (rw (← h, k) refl)

-- `a > b`: the code units are compared from the left.
unfoldable pub str_gt : JsString → JsString → Bool
str_gt [] t = false
str_gt (_ ∷ _) [] = true
str_gt (a ∷ s) (b ∷ t) = if a == b then str_gt s t else ltb b a

pub str_gt_asymm : (s t : JsString) → str_gt s t ≡ true → str_gt t s ≡ false
unfolding str_gt
str_gt_asymm [] t h = cc
str_gt_asymm (a ∷ s) [] h = refl
str_gt_asymm (a ∷ s) (b ∷ t) h = ground (arith, str_gt_asymm s t)

pub str_gt_total : (s t : JsString) → str_gt s t ≡ false → str_gt t s ≡ false → s ≡ t
unfolding str_gt
str_gt_total [] [] h k = refl
str_gt_total [] (b ∷ t) h k = cc
str_gt_total (a ∷ s) [] h k = cc
str_gt_total (a ∷ s) (b ∷ t) h k = ground (arith, str_gt_total s t)

-- `s.startsWith(p)`
unfoldable pub starts_with : JsString → JsString → Bool
starts_with s [] = true
starts_with [] (_ ∷ _) = false
starts_with (a ∷ s) (b ∷ p) = a == b && starts_with s p
