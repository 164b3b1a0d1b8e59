-- ===== src/Common/Float.antt =====
-- Python's float as an interface: the operations that the runtime uses, the laws of IEEE 754
-- binary64 that proofs rest on, and fixed-point numbers, which meet them.
use Prim.Native.Nat.{ℕ, ◌+◌, ◌-◌, ◌*◌, ◌/◌, ◌^◌, ◌≤◌}
use mathlib.Core.Path.{◌≡◌, refl}
use mathlib.Core.Bool.{Bool, true, not, false}
use mathlib.Core.List.{List, [], ◌∷◌}
use native.Mathlib.Omega.{arith}
use native.Mathlib.Nat.{div-le_of_le-mul, mul-le-mul_right}
use jetson_dlagreen.Common.Tests.{leb, ltb, ◌==◌, if◌then◌else◌}
use jetson_dlagreen.Common.Lists.{All}
use jetson_dlagreen.Common.Int.{ℤ, pos, negsuc, pos_part, neg_part, ◌+ℤ◌, ◌-ℤ◌, ◌*ℤ◌}

-- `decimal m k` is the literal m / 10 ** k; `add`, `sub`, `mul`, `div`, `le`, `lt` and `eq`
-- are the operators + - * / <= < == (`div` at a divisor other than 0), and `is_finite` is math.isfinite.
pub record Float (W : Type 0) : Type 0 where
  pub decimal : ℕ → ℕ → W
  pub add : W → W → W
  pub sub : W → W → W
  pub mul : W → W → W
  pub div : W → W → W
  pub le : W → W → Bool
  pub lt : W → W → Bool
  pub eq : W → W → Bool
  pub is_finite : W → Bool

infix 4 ◌≼◌
abbrev pub ◌≼◌ : {W : Type 0} ⦃d : Float W⦄ → W → W → Type 0
◌≼◌ ⦃d⦄ x y = d.le x y ≡ true

module _ {W : Type 0} ⦃d : Float W⦄ where
  abbrev pub nought : W
  nought = d.decimal 0 0

  -- NaN is the value that is not `<=` itself.
  abbrev pub IsNumber : W → Type 0
  IsNumber x = x ≼ x

  -- Python's max(a, b) and min(a, b) keep their first argument on a tie.
  abbrev pub float_max : W → W → W
  float_max a b = if d.lt a b then b else a

  abbrev pub float_min : W → W → W
  float_min a b = if d.lt b a then b else a

  -- abs(x)
  abbrev pub absolute : W → W
  absolute x = if d.lt x nought then d.sub nought x else x

  -- max(first, *rest).
  unfoldable pub max_from : W → List W → W
  max_from a [] = a
  max_from a (x ∷ xs) = max_from (float_max a x) xs

  -- min(first, *rest).
  unfoldable pub min_from : W → List W → W
  min_from a [] = a
  min_from a (x ∷ xs) = min_from (float_min a x) xs

-- The order is total on numbers, false on NaN, and addition of numbers is monotone; a difference
-- from or by a finite number is one, the opposite of a negative number is positive, literals (of the
-- source's sizes) are finite, not negative and in the order of what they stand for, and so is a quotient of finite numbers by one above zero; a fraction of a
-- finite number that is not negative is not negative and no larger than it.
pub record IsIeee (W : Type 0) ⦃d : Float W⦄ : Type 0 where
  pub number_of_le : (x y : W) → x ≼ y → IsNumber x × IsNumber y
  pub number_of_finite : (x : W) → d.is_finite x ≡ true → IsNumber x
  pub decimal_number : (m k : ℕ) → IsNumber (d.decimal m k)
  pub le_trans : (x y z : W) → x ≼ y → y ≼ z → x ≼ z
  pub lt-eq-not-le : (x y : W) → IsNumber x → IsNumber y → d.lt x y ≡ not (d.le y x)
  pub le_of_lt : (x y : W) → d.lt x y ≡ true → x ≼ y
  pub eq_le : (x y : W) → d.eq x y ≡ true → (x ≼ y) × (y ≼ x)
  pub eq_of_le : (x y : W) → x ≼ y → y ≼ x → d.eq x y ≡ true
  pub sub_number : (x y : W) → d.is_finite x ≡ true → nought ≼ y → y ≼ x → IsNumber (d.sub x y)
  pub div_number :
      (x y : W)
      → d.is_finite x ≡ true
      → d.is_finite y ≡ true
      → d.le y nought ≡ false
      → IsNumber (d.div x y)
  pub sub_finite : (x y : W) → IsNumber x → d.is_finite y ≡ true → IsNumber (d.sub x y)
  pub negate_nonneg : (x : W) → d.lt x nought ≡ true → nought ≼ d.sub nought x
  pub decimal_nonneg : (m k : ℕ) → nought ≼ d.decimal m k
  pub decimal_le : (m k n : ℕ) → m ≤ n * 10 ^ k → d.decimal m k ≼ d.decimal n 0
  pub mul_within :
      (f x : W)
      → nought ≼ f
      → f ≼ d.decimal 1 0
      → nought ≼ x
      → d.is_finite x ≡ true
      → (nought ≼ d.mul f x) × (d.mul f x ≼ x)
  pub sub_le : (x y : W) → nought ≼ x → nought ≼ y → d.is_finite y ≡ true → d.sub x y ≼ x
  pub decimal_finite : (m k : ℕ) → d.is_finite (d.decimal m k) ≡ true
  pub add_nonneg : (x y : W) → nought ≼ x → nought ≼ y → (x ≼ d.add x y) × (y ≼ d.add x y)

-- Millionths: `le` and `add` are exact, and `mul` rounds towards zero.
abbrev pub Micro : Type 0
Micro = ℤ

abbrev pub le_ℤ : ℤ → ℤ → Bool
le_ℤ a b = leb (pos_part a + neg_part b) (pos_part b + neg_part a)

abbrev pub lt_ℤ : ℤ → ℤ → Bool
lt_ℤ a b = ltb (pos_part a + neg_part b) (pos_part b + neg_part a)

abbrev pub eq_ℤ : ℤ → ℤ → Bool
eq_ℤ a b = (pos_part a + neg_part b) == (pos_part b + neg_part a)

abbrev pub shrink : ℤ → ℤ
shrink (pos n) = pos (n / 1000000)
shrink (negsuc n) = if (n + 1) / 1000000 == 0 then pos 0 else negsuc ((n + 1) / 1000000 - 1)

-- a / b for b > 0.
abbrev pub quotient : ℤ → ℤ → ℤ
quotient (pos a) b = pos (a * 1000000 / pos_part b)
quotient (negsuc a) b =
    let n = (a + 1) * 1000000 / pos_part b in if n == 0 then pos 0 else negsuc (n - 1)

instance abbrev pub micro_float : Float Micro
micro_float = record {
  decimal = λ m k. pos (m * 1000000 / 10 ^ k);
  add = ◌+ℤ◌;
  sub = ◌-ℤ◌;
  mul = λ a b. shrink (a *ℤ b);
  div = quotient;
  le = le_ℤ;
  lt = lt_ℤ;
  eq = eq_ℤ;
  is_finite = λ a. true;
}

micro_add :
    (x y : Micro) → nought ≼ x → nought ≼ y → (x ≼ micro_float.add x y) × (y ≼ micro_float.add x y)
unfolding ◌+ℤ◌
micro_add x y h k = ground arith

micro_negate : (x : Micro) → lt_ℤ x nought ≡ true → nought ≼ micro_float.sub nought x
unfolding ◌-ℤ◌
micro_negate x h = ground arith

micro_sub_le :
    (x y : Micro)
    → nought ≼ x
    → nought ≼ y
    → micro_float.is_finite y ≡ true
    → micro_float.sub x y ≼ x
unfolding ◌-ℤ◌
micro_sub_le x y h k f = ground arith

micro_le_trans : (x y z : Micro) → x ≼ y → y ≼ z → x ≼ z
micro_le_trans x y z h k = ground arith

micro_decimal_le : (m k n : ℕ) → m ≤ n * 10 ^ k → micro_float.decimal m k ≼ micro_float.decimal n 0
micro_decimal_le m k n h =
    let scaled : m * 1000000 ≤ 10 ^ k * (n * 1000000) = omega arith in
    let bound : m * 1000000 / 10 ^ k ≤ n * 1000000 = div-le_of_le-mul (10 ^ k) scaled in
    ground arith

micro_mul_pos : (a b : ℕ) → pos a *ℤ pos b ≡ pos (a * b)
unfolding ◌*ℤ◌
micro_mul_pos a b = ground arith

micro_mul_within :
    (f x : Micro)
    → nought ≼ f
    → f ≼ micro_float.decimal 1 0
    → nought ≼ x
    → micro_float.is_finite x ≡ true
    → (nought ≼ micro_float.mul f x) × (micro_float.mul f x ≼ x)
micro_mul_within (negsuc a) x h k l e = ground arith
micro_mul_within (pos a) (negsuc b) h k l e = ground arith
micro_mul_within (pos a) (pos b) h k l e =
    let small : a ≤ 1000000 = ground arith in
    let scaled : a * b ≤ 1000000 * b = mul-le-mul_right b small in
    let bound : a * b / 1000000 ≤ b = div-le_of_le-mul 1000000 scaled in
    rw micro_mul_pos (ground arith)

pub Micro-IsIeee : IsIeee Micro
Micro-IsIeee = record {
  number_of_le = λ x y h. ground arith;
  number_of_finite = λ x h. ground arith;
  decimal_number = λ m k. ground arith;
  le_trans = micro_le_trans;
  lt-eq-not-le = λ x y h k. ground arith;
  le_of_lt = λ x y h. ground arith;
  eq_le = λ x y h. ground arith;
  eq_of_le = λ x y h k. ground arith;
  sub_number = λ x y f h k. ground arith;
  div_number = λ x y f g h. ground arith;
  sub_finite = λ x y h f. ground arith;
  negate_nonneg = micro_negate;
  decimal_nonneg = λ m k. ground arith;
  decimal_le = micro_decimal_le;
  mul_within = micro_mul_within;
  sub_le = micro_sub_le;
  decimal_finite = λ m k. refl;
  add_nonneg = micro_add;
}

module _ {W : Type 0} ⦃d : Float W⦄ (laws : IsIeee W) where
  pub float_max_bounds :
      (x y : W)
      → IsNumber x
      → IsNumber y
      → (x ≼ float_max x y) × (y ≼ float_max x y) × IsNumber (float_max x y)
  float_max_bounds x y h k = ground (arith, laws.lt-eq-not-le x y h k, laws.le_of_lt x y)

  pub max_from_bounds :
      (a : W) (xs : List W)
      → IsNumber a
      → All IsNumber xs
      → (a ≼ max_from a xs) × All (λ x. x ≼ max_from a xs) xs
  unfolding max_from
  max_from_bounds a [] h k = (h, tt)
  max_from_bounds a (x ∷ xs) h (k, ks) =
      let (left, right, number) = float_max_bounds a x h k in
      let (head, tail) = max_from_bounds (float_max a x) xs number ks in
      (
        laws.le_trans a (float_max a x) _ left head,
        (laws.le_trans x (float_max a x) _ right head, tail),
      )
