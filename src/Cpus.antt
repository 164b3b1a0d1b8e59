-- ===== src/Cpus.antt =====
-- CPU lists such as "0-3,8": expand_cpu_list and format_cpu_list of runtime/mig_slack_governor.py.
pub mod RoundTrip
pub mod Signs
mod Tests
use jetson_dlagreen.Common.Sorting.{sort_by}
use jetson_dlagreen.Common.Float.{eq_ℤ}
use jetson_dlagreen.Common.{
  ℕ, zero, suc, ◌∷◌, [], none, some, Bool, true, false, String, List, Error, Result, Option,
  if◌then◌else◌, ◌||◌, value_error, err, ◌==◌, ok, ◌>>=◌, ◌+◌, ◌>>◌, ltb, ◌++◌, index_error,
  require, not,
}
use jetson_dlagreen.Common.Int.{ℤ, pos, negsuc, ◌+ℤ◌, ltb_ℤ, pos_part, ◌-ℤ◌}
use jetson_dlagreen.Common.Decimal.{str, int_of, split, split_once, join}

-- range(first, last + 1), by its length.
abbrev pub int_range : ℤ → ℕ → List ℤ
int_range first zero = []
int_range first (suc n) = first ∷ int_range (first +ℤ pos 1) n

abbrev pub range_length : ℤ → ℤ → ℕ
range_length first last = pos_part ((last +ℤ pos 1) -ℤ first)

-- The CPUs of an item, from its parts around the first dash.
unfoldable pub expand_bounds : List ℕ → Option (List ℕ) → Result (List ℤ)
expand_bounds bound none = int_of bound >>= (λ cpu. ok (cpu ∷ []))
expand_bounds bound (some rest) = do
  first ← int_of bound
  last ← int_of rest
  if ltb_ℤ last first
      then err (value_error "invalid CPU range")
      else ok (int_range first (range_length first last))

unfoldable pub expand_item : List ℕ → Result (List ℤ)
expand_item item = let (bound, rest) = split_once b'-' item in expand_bounds bound rest

unfoldable pub expand_items : List (List ℕ) → Result (List ℤ)
expand_items [] = ok []
expand_items (item ∷ items) = do
  cpus ← expand_item item
  others ← expand_items items
  ok (cpus ++ others)

abbrev pub has_cpu : ℤ → List ℤ → Bool
has_cpu c [] = false
has_cpu c (d ∷ ds) = eq_ℤ c d || has_cpu c ds

-- len(cpus) != len(set(cpus))
abbrev pub repeats : List ℤ → Bool
repeats [] = false
repeats (c ∷ cs) = has_cpu c cs || repeats cs

abbrev pub some_negative : List ℤ → Bool
some_negative [] = false
some_negative (c ∷ cs) = ltb_ℤ c (pos 0) || some_negative cs

abbrev pub is_empty : List ℤ → Bool
is_empty [] = true
is_empty (c ∷ cs) = false

abbrev pub not_a_list : Error
not_a_list = value_error "CPU list must be non-empty and contain no duplicates"

unfoldable pub expand_cpu_list : List ℕ → Result (List ℤ)
expand_cpu_list specification = do
  cpus ← expand_items (split b',' specification)
  require (not (is_empty cpus || some_negative cpus || repeats cpus)) not_a_list
  ok cpus

abbrev pub range_text : ℕ → ℕ → List ℕ
range_text first previous =
    if first == previous then str first else str first ++ (b'-' ∷ str previous)

-- The loop over the ordered CPUs behind the first.
unfoldable pub ranges_from : ℕ → ℕ → List ℕ → List (List ℕ)
ranges_from first previous [] = range_text first previous ∷ []
ranges_from first previous (cpu ∷ rest) =
    let longer = ranges_from first cpu rest in
    let ended = range_text first previous ∷ ranges_from cpu cpu rest in
    if cpu == previous + 1 then longer else ended

abbrev pub format_ordered : List ℕ → Result (List ℕ)
format_ordered [] = err index_error
format_ordered (cpu ∷ rest) = ok (join b',' (ranges_from cpu cpu rest))

-- For CPU numbers, which are not negative.
unfoldable pub format_cpu_list : List ℕ → Result (List ℕ)
format_cpu_list cpus = format_ordered (sort_by ltb cpus)
