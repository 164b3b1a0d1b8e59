-- ===== src/Common/Dict.antt =====
-- Python dictionaries as association lists, keyed by integers or texts, and the item of a list.
use jetson_dlagreen.Common.Int.{ℤ}
use jetson_dlagreen.Common.Outcome.{Result, ok, err, key_error, index_error}
use mathlib.Core.List.{List, [], ◌∷◌}
use mathlib.Core.Option.{Option, none, some}
use mathlib.Core.Bool.{Bool, false, ◌||◌, true}
use mathlib.Core.Path.{◌≡◌, refl, sym, subst}
use mathlib.Core.Logic.{◌⊎◌, inl, inr}
use jetson_dlagreen.Common.Lists.{All}
use native.Mathlib.Omega.{arith}
use jetson_dlagreen.Common.Lists.{length}
use Prim.Native.Nat.{◌<◌, ℕ, zero, suc}
use Prim.Native.String.{String}
use text.Mathlib.Text.{◌==◌}
use jetson_dlagreen.Common.Tests.{if◌then◌else◌}
use jetson_dlagreen.Common.Float.{eq_ℤ}

-- x is one of the items.
abbrev pub IsAmong : {A : Type 0} → A → List A → Type 0
IsAmong x [] = ⊥
IsAmong x (y ∷ ys) = (x ≡ y) ⊎ IsAmong x ys

module _ {ℓ} {A : Type ℓ} where
  -- xs[i] for an index that is not negative.
  abbrev pub item_at : List A → ℕ → Result A
  item_at [] i = err index_error
  item_at (x ∷ xs) zero = ok x
  item_at (x ∷ xs) (suc i) = item_at xs i

  -- [x for x in xs if test(x)]
  abbrev pub keep : (A → Bool) → List A → List A
  keep test [] = []
  keep test (x ∷ xs) = if test x then x ∷ keep test xs else keep test xs

module _ {ℓ} {V : Type ℓ} where
  -- d[k] for an integer key.
  abbrev pub value_at : ℤ → List (ℤ × V) → Result V
  value_at k [] = err key_error
  value_at k ((j, v) ∷ d) = if eq_ℤ j k then ok v else value_at k d

  abbrev pub has_key : ℤ → List (ℤ × V) → Bool
  has_key k [] = false
  has_key k ((j, v) ∷ d) = eq_ℤ j k || has_key k d

  -- d.get(k) and d[k] = v for a text.
  abbrev pub find : String → List (String × V) → Option V
  find k [] = none
  find k ((j, v) ∷ d) = if j == k then some v else find k d

  abbrev pub put : String → V → List (String × V) → List (String × V)
  put k v [] = (k, v) ∷ []
  put k v ((j, w) ∷ d) = if j == k then (j, v) ∷ d else (j, w) ∷ put k v d

pub if-All {ℓ κ} :
    {A : Type ℓ} (P : A → Type κ) (v : Bool) (x : A) (xs : List A)
    → (v ≡ true → P x)
    → All P xs
    → All P (if v then x ∷ xs else xs)
if-All P true x xs h hs = (h refl, hs)
if-All P false x xs h hs = hs

-- Among the items that a test keeps, one of them or the first.
pub IsAmong-if :
    {A : Type 0} (t : Bool) (x y : A) (ys : List A)
    → IsAmong x (if t then y ∷ ys else ys)
    → ((t ≡ true) × (x ≡ y)) ⊎ IsAmong x ys
IsAmong-if true x y ys (inl same) = inl (refl, same)
IsAmong-if true x y ys (inr h) = inr h
IsAmong-if false x y ys h = inr h

pub IsAmong-if_tail :
    {A : Type 0} (t : Bool) (x y : A) (ys : List A)
    → IsAmong x ys
    → IsAmong x (if t then y ∷ ys else ys)
IsAmong-if_tail true x y ys h = inr h
IsAmong-if_tail false x y ys h = h

pub IsAmong-if_head :
    {A : Type 0} (t : Bool) (x y : A) (ys : List A)
    → t ≡ true
    → x ≡ y
    → IsAmong x (if t then y ∷ ys else ys)
IsAmong-if_head true x y ys h same = inl same
IsAmong-if_head false x y ys h same = cc

pub All_among {ℓ} :
    {A : Type 0} (P : A → Type ℓ) (xs : List A) (x : A) → All P xs → IsAmong x xs → P x
All_among P (y ∷ ys) x (h, hs) (inl same) = subst P (sym same) h
All_among P (y ∷ ys) x (h, hs) (inr m) = All_among P ys x hs m
All_among P [] x h m = absurd m

pub item_at_lt {ℓ} :
    {A : Type ℓ} (xs : List A) (i : ℕ) → i < length xs → (x : A) × (item_at xs i ≡ ok x)
item_at_lt [] i lt = absurd (omega arith)
item_at_lt (x ∷ xs) zero lt = (x, refl)
item_at_lt (x ∷ xs) (suc i) lt = item_at_lt xs i (omega arith)
