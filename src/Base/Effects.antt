-- ===== src/Base/Effects.antt =====
-- Computations that may throw: `none` is a thrown error, and the state is kept either way.
use mathlib.Core.Option.{Option, none, some}

abbrev pub Throws {ℓ κ} : Type ℓ → Type κ → Type (ℓ ⊔ κ)
Throws S A = Option A × S

-- `await` of a computation, and what follows it.
abbrev pub and_then {ℓ κ μ} :
    {S : Type ℓ} {A : Type κ} {B : Type μ} → Throws S A → (A → S → Throws S B) → Throws S B
and_then (none, s) k = (none, s)
and_then (some a, s) k = k a s
