-- ===== src/Base/Json.antt =====
-- What `JSON.parse` returns: a value of one of the JSON kinds. Numbers are told apart as far as
-- the source's tests do (`Number.isInteger`, a sign): the value of a fraction is not kept.
use yurucommu_core.Base.Tests.{if◌then◌else◌}
use yurucommu_core.Base.Text.{JsString, str_eq}
use Prim.Native.Nat.{ℕ}
use mathlib.Core.Bool.{Bool}
use mathlib.Core.Option.{Option, none, some}
use mathlib.Core.List.{List, [], ◌∷◌}

mutual
  pub data Json : Type 0 where
    null : Json
    bool : Bool → Json
    nat : ℕ → Json  -- the integer n
    negative : ℕ → Json  -- the integer -(n + 1)
    fraction : Json  -- a number that is not an integer
    str : JsString → Json
    arr : Items → Json
    obj : Fields → Json

  pub data Items : Type 0 where
    nil : Items
    cons : Json → Items → Items

  pub data Fields : Type 0 where
    end : Fields
    field : JsString → Json → Fields → Fields

-- The elements of an array.
abbrev pub items : Items → List Json
items nil = []
items (cons v vs) = v ∷ items vs

-- The array of a list of values.
abbrev pub of_list : List Json → Items
of_list [] = nil
of_list (v ∷ vs) = cons v (of_list vs)

-- `o[name]`; `none` is `undefined`.
unfoldable pub prop : JsString → Fields → Option Json
prop name end = none
prop name (field k v fs) = if str_eq k name then some v else prop name fs
