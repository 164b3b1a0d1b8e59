-- ===== src/Common/Decimal.antt =====
-- Python's str(n), int(text), text.split and sep.join, on lists of code points: `int_of` reads a
-- text of ASCII characters of any length.
pub mod Laws
use jetson_dlagreen.Common.Tests.{if◌then◌else◌, leb, ◌==◌}
use jetson_dlagreen.Common.Int.{ℤ, pos, negsuc}
use jetson_dlagreen.Common.Outcome.{Result, ok, err, value_error}
use Prim.Native.Nat.{ℕ, zero, suc, ◌+◌, ◌-◌, ◌*◌, ◌/◌, ◌%◌}
use mathlib.Core.List.{List, [], ◌∷◌, ◌++◌}
use mathlib.Core.Option.{Option, none, some}
use mathlib.Core.Bool.{Bool, true, false, ◌&&◌, ◌||◌}

abbrev pub is_digit : ℕ → Bool
is_digit c = leb b'0' c && leb c b'9'

abbrev pub is_space : ℕ → Bool
is_space c = leb 9 c && leb c 13 || c == 32

abbrev pub all_space : List ℕ → Bool
all_space [] = true
all_space (c ∷ cs) = is_space c && all_space cs

-- The digits of a number in front of a text; the fuel is more than the number.
unfoldable pub digits : ℕ → ℕ → List ℕ → List ℕ
digits zero n rest = rest
digits (suc fuel) n rest =
    let more = digits fuel (n / 10) ((b'0' + n % 10) ∷ rest) in
    if n / 10 == 0 then (b'0' + n % 10) ∷ rest else more

unfoldable pub str : ℕ → List ℕ
unfolding digits
str n = digits (suc n) n []

-- Digits with single underscores between them, then white space; `ended` after a digit.
unfoldable pub read_digits : ℕ → Bool → List ℕ → Option ℕ
read_digits value ended [] = if ended then some value else none
read_digits value ended (c ∷ cs) =
    let digit = read_digits (value * 10 + (c - b'0')) true cs in
    let underscore = read_digits value false cs in
    if is_digit c
    then digit
    else if ended && c == b'_'
    then underscore
    else if ended && is_space c && all_space cs
    then some value
    else none

abbrev pub opposite : ℕ → ℤ
opposite zero = pos zero
opposite (suc n) = negsuc n

abbrev pub or_invalid : (ℕ → ℤ) → Option ℕ → Result ℤ
or_invalid sign none = err (value_error "invalid literal for int()")
or_invalid sign (some n) = ok (sign n)

abbrev pub strip_left : List ℕ → List ℕ
strip_left [] = []
strip_left (c ∷ cs) = if is_space c then strip_left cs else c ∷ cs

unfoldable pub read_signed : List ℕ → Result ℤ
read_signed [] = err (value_error "invalid literal for int()")
read_signed (c ∷ cs) =
    if c == b'-'
    then or_invalid opposite (read_digits 0 false cs)
    else if c == b'+'
    then or_invalid pos (read_digits 0 false cs)
    else or_invalid pos (read_digits 0 false (c ∷ cs))

unfoldable pub int_of : List ℕ → Result ℤ
int_of text = read_signed (strip_left text)

abbrev pub onto : ℕ → List (List ℕ) → List (List ℕ)
onto c [] = (c ∷ []) ∷ []
onto c (part ∷ parts) = (c ∷ part) ∷ parts

-- text.split(sep) for a separator of one character.
unfoldable pub split : ℕ → List ℕ → List (List ℕ)
split sep [] = [] ∷ []
split sep (c ∷ cs) = let parts = split sep cs in if c == sep then [] ∷ parts else onto c parts

-- text.split(sep, 1)
unfoldable pub split_once : ℕ → List ℕ → List ℕ × Option (List ℕ)
split_once sep [] = ([], none)
split_once sep (c ∷ cs) =
    let (head, rest) = split_once sep cs in if c == sep then ([], some cs) else (c ∷ head, rest)

-- sep.join(texts)
unfoldable pub join : ℕ → List (List ℕ) → List ℕ
join sep [] = []
join sep (text ∷ []) = text
join sep (text ∷ u ∷ texts) = text ++ (sep ∷ join sep (u ∷ texts))
