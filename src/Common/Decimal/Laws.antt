-- ===== src/Common/Decimal/Laws.antt =====
-- A number's text reads back, and joined texts split again.
use jetson_dlagreen.Common.Decimal.{
  is_space, onto, or_invalid, str, digits, read_digits, int_of, read_signed, split, split_once,
  join, is_digit, ok, or_invalid, pos,
}
use jetson_dlagreen.Common.Int.{pos}
use jetson_dlagreen.Common.Outcome.{ok}
use jetson_dlagreen.Common.Tests.{if_either}
use jetson_dlagreen.Common.Tests.{◌==◌}
use jetson_dlagreen.Common.Lists.{All}
use Prim.Native.Nat.{ℕ, zero, suc, ◌+◌, ◌*◌, ◌/◌, ◌%◌, ◌<◌}
use mathlib.Core.List.{List, [], ◌∷◌, ◌++◌}
use mathlib.Core.Option.{Option, none, some}
use mathlib.Core.Bool.{Bool, true, false}
use mathlib.Core.Path.{◌≡◌, refl, ap, ◌∙◌}
use native.Mathlib.Omega.{arith}

digit-is_digit : (n : ℕ) → is_digit (b'0' + n % 10) ≡ true
digit-is_digit n = ground arith

digits-All :
    (fuel n : ℕ) (rest : List ℕ)
    → All (λ c. is_digit c ≡ true) rest
    → All (λ c. is_digit c ≡ true) (digits fuel n rest)
unfolding digits
digits-All zero n rest h = h
digits-All (suc fuel) n rest h =
    if_either (All (λ c. is_digit c ≡ true)) (n / 10 == 0) _ _ (λ e. (digit-is_digit n, h))
      (λ e. digits-All fuel (n / 10) ((b'0' + n % 10) ∷ rest) (digit-is_digit n, h))

eq_self : (c : ℕ) → (c == c) ≡ true
eq_self c = ground arith

digit-not_space : (c : ℕ) → is_digit c ≡ true → is_space c ≡ false
digit-not_space c h = ground arith

digit-not_sign : (c : ℕ) → is_digit c ≡ true → ((c == b'-') ≡ false) × ((c == b'+') ≡ false)
digit-not_sign c h = (ground arith, ground arith)

read_digits-digit :
    (value : ℕ) (ended : Bool) (n : ℕ) (rest : List ℕ)
    → read_digits value ended ((b'0' + n % 10) ∷ rest) ≡ read_digits (value * 10 + n % 10) true rest
unfolding read_digits
read_digits-digit value ended n rest =
    rw (digit-is_digit n) (ap (λ v. read_digits (value * 10 + v) true rest) (omega arith))

read_digits-digits :
    (fuel n : ℕ) (ended : Bool) (rest : List ℕ)
    → n < fuel
    → read_digits 0 ended (digits fuel n rest) ≡ read_digits n true rest
unfolding digits
read_digits-digits zero n ended rest h = absurd (omega (arith, h))
read_digits-digits (suc fuel) n ended rest h =
    if_either (λ z. read_digits 0 ended z ≡ read_digits n true rest) (n / 10 == 0) _ _
      (λ e. read_digits-digit 0 ended n rest ∙ ap (λ v. read_digits v true rest) (ground arith))
      (λ e.
        read_digits-digits fuel (n / 10) ended ((b'0' + n % 10) ∷ rest) (ground arith)
        ∙ read_digits-digit (n / 10) true n rest
        ∙ ap (λ v. read_digits v true rest) (omega arith))

-- A text of digits.
abbrev pub IsDigits : List ℕ → Type 0
IsDigits text = All (λ c. is_digit c ≡ true) text

pub str-IsDigits : (n : ℕ) → IsDigits (str n)
unfolding str
str-IsDigits n = digits-All (suc n) n [] tt

starts_digit :
    (c : ℕ) (cs : List ℕ)
    → is_digit c ≡ true
    → int_of (c ∷ cs) ≡ or_invalid pos (read_digits 0 false (c ∷ cs))
unfolding int_of read_signed
starts_digit c cs h =
    let (minus, plus) = digit-not_sign c h in simp (digit-not_space c h, minus, plus)

int_of-IsDigits :
    (text : List ℕ) (n : ℕ)
    → IsDigits text
    → read_digits 0 false text ≡ some n
    → int_of text ≡ ok (pos n)
unfolding read_digits
int_of-IsDigits [] n h e = cc
int_of-IsDigits (c ∷ cs) n (h, hs) e = starts_digit c cs h ∙ ap (or_invalid pos) e

pub int_of-str : (n : ℕ) → int_of (str n) ≡ ok (pos n)
unfolding str read_digits
int_of-str n =
    int_of-IsDigits (str n) n (str-IsDigits n) (read_digits-digits (suc n) n false [] (omega arith))

-- No character of the text is the separator.
abbrev pub Lacks : ℕ → List ℕ → Type 0
Lacks sep text = All (λ c. (c == sep) ≡ false) text

pub split-append :
    (sep : ℕ) (text rest : List ℕ)
    → Lacks sep text
    → split sep (text ++ (sep ∷ rest)) ≡ text ∷ split sep rest
unfolding split
split-append sep [] rest h = rw (eq_self sep) refl
split-append sep (c ∷ cs) rest (h, hs) = rw h (ap (onto c) (split-append sep cs rest hs))

split_lacking : (sep : ℕ) (text : List ℕ) → Lacks sep text → split sep text ≡ text ∷ []
unfolding split
split_lacking sep [] h = refl
split_lacking sep (c ∷ cs) (h, hs) = rw h (ap (onto c) (split_lacking sep cs hs))

pub split-join :
    (sep : ℕ) (text : List ℕ) (texts : List (List ℕ))
    → All (Lacks sep) (text ∷ texts)
    → split sep (join sep (text ∷ texts)) ≡ text ∷ texts
unfolding join
split-join sep text [] (h, hs) = split_lacking sep text h
split-join sep text (u ∷ texts) (h, hs) =
    split-append sep text (join sep (u ∷ texts)) h
    ∙ ap (λ parts. text ∷ parts) (split-join sep u texts hs)

pub split_once_lacking :
    (sep : ℕ) (text : List ℕ) → Lacks sep text → split_once sep text ≡ (text, none)
unfolding split_once
split_once_lacking sep [] h = refl
split_once_lacking sep (c ∷ cs) (h, hs) =
    rw h (ap (λ (p : List ℕ × Option (List ℕ)). (c ∷ p.0, p.1)) (split_once_lacking sep cs hs))

pub split_once-append :
    (sep : ℕ) (text rest : List ℕ)
    → Lacks sep text
    → split_once sep (text ++ (sep ∷ rest)) ≡ (text, some rest)
unfolding split_once
split_once-append sep [] rest h = rw (eq_self sep) refl
split_once-append sep (c ∷ cs) rest (h, hs) =
    rw h (ap (λ (p : List ℕ × Option (List ℕ)). (c ∷ p.0, p.1)) (split_once-append sep cs rest hs))
