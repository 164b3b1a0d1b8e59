-- ===== src/Common/Json.antt =====
-- JSON values as json.loads returns them: bool, int and float are apart, and an object's fields are
-- in order, with the last of equal names kept by the parser.
use jetson_dlagreen.Common.Int.{ℤ}
use Prim.Native.String.{String}
use mathlib.Core.Bool.{Bool}
use mathlib.Core.List.{List, [], ◌∷◌}
use mathlib.Core.Option.{Option, none, some}
use text.Mathlib.Text.{◌==◌}
use jetson_dlagreen.Common.Tests.{if◌then◌else◌}

mutual
  pub data Json (W : Type 0) : Type 0 where
    null : Json W
    bool : Bool → Json W
    int : ℤ → Json W
    float : W → Json W
    str : String → Json W
    arr : Items W → Json W
    obj : Fields W → Json W

  pub data Items (W : Type 0) : Type 0 where
    nil : Items W
    cons : Json W → Items W → Items W

  pub data Fields (W : Type 0) : Type 0 where
    end : Fields W
    field : String → Json W → Fields W → Fields W

module _ {W : Type 0} where
  abbrev pub elements : Items W → List (Json W)
  elements nil = []
  elements (cons x xs) = x ∷ elements xs

  abbrev pub keys : Fields W → List String
  keys end = []
  keys (field k v fs) = k ∷ keys fs

  -- fields.get(name)
  abbrev pub get_field : String → Fields W → Option (Json W)
  get_field name end = none
  get_field name (field k v fs) = if k == name then some v else get_field name fs

  -- fields.get(name, None): a missing name reads as null.
  abbrev pub get_or_null : String → Fields W → Json W
  get_or_null name fs = elim (get_field name fs) [ some v ↦ v | none ↦ null ]
