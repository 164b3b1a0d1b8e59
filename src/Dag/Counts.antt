-- ===== src/Dag/Counts.antt =====
-- Counting a stage's occurrences and its incoming edges from stages that are not placed.
use jetson_dlagreen.Dag.{incoming, is_in, outgoing, has_duplicate}
use jetson_dlagreen.Common.{
  ℕ, List, String, ◌∷◌, [], ◌≡◌, All, str_eq, length, arith, false, ◌++◌, true, if◌then◌else◌, ◌+◌,
  ◌||◌, refl, str_eq_iff, suc, ap, ◌≤◌,
}

pub str_eq_refl : (s : String) → str_eq s s ≡ true
str_eq_refl s = (str_eq_iff s s).1 refl

pub str_eq_sym : (s t : String) → str_eq s t ≡ str_eq t s
str_eq_sym s t = ground (arith, str_eq_iff s t, str_eq_iff t s)

abbrev pub count_of : String → List String → ℕ
count_of s [] = 0
count_of s (x ∷ xs) = if str_eq s x then suc (count_of s xs) else count_of s xs

-- The members of `xs` outside `placed`, as often.
abbrev pub count_outside : List String → List String → ℕ
count_outside placed [] = 0
count_outside placed (x ∷ xs) =
    if is_in x placed then count_outside placed xs else suc (count_outside placed xs)

abbrev pub unresolved : List (String × String) → List String → String → ℕ
unresolved pairs placed stage = count_outside placed (incoming pairs stage)

pub is_in-append :
    (s : String) (xs ys : List String) → is_in s (xs ++ ys) ≡ (is_in s xs || is_in s ys)
is_in-append s [] ys = refl
is_in-append s (x ∷ xs) ys = ground (arith, is_in-append s xs ys)

-- Edges seen from their two ends.
pub count_of-incoming :
    (pairs : List (String × String)) (s t : String)
    → count_of s (incoming pairs t) ≡ count_of t (outgoing pairs s)
count_of-incoming [] s t = refl
count_of-incoming ((a, b) ∷ pairs) s t =
    ground (arith, count_of-incoming pairs s t, str_eq_sym s a, str_eq_sym t b)

-- Placing one more stage resolves its edges.
pub count_outside-snoc :
    (placed xs : List String) (s : String)
    → is_in s placed ≡ false
    → count_outside placed xs ≡ count_outside (placed ++ s ∷ []) xs + count_of s xs
count_outside-snoc placed [] s h = omega arith
count_outside-snoc placed (x ∷ xs) s h =
    ground (arith, count_outside-snoc placed xs s h, is_in-append x placed (s ∷ []), str_eq_iff s x)

pub count_outside-nil : (xs : List String) → count_outside [] xs ≡ length xs
count_outside-nil [] = refl
count_outside-nil (x ∷ xs) = ap suc (count_outside-nil xs)

-- Nothing outside is left exactly when all is placed.
pub count_outside-zero :
    (placed xs : List String) → count_outside placed xs ≡ 0 → All (λ x. is_in x placed ≡ true) xs
count_outside-zero placed [] h = tt
count_outside-zero placed (x ∷ xs) h = (ground arith, count_outside-zero placed xs (ground arith))

pub All-count_outside :
    (placed xs : List String) → All (λ x. is_in x placed ≡ true) xs → count_outside placed xs ≡ 0
All-count_outside placed [] h = refl
All-count_outside placed (x ∷ xs) (h, hs) = rw h (All-count_outside placed xs hs)

pub has_duplicate-snoc :
    (xs : List String) (s : String)
    → has_duplicate xs ≡ false
    → is_in s xs ≡ false
    → has_duplicate (xs ++ s ∷ []) ≡ false
has_duplicate-snoc [] s h k = refl
has_duplicate-snoc (x ∷ xs) s h k =
    ground (arith, has_duplicate-snoc xs s, is_in-append x xs (s ∷ []), str_eq_sym x s)

-- The member behind a prefix without duplicates is not in the prefix.
pub is_in-prefix :
    (xs ys : List String) (s : String) → has_duplicate (xs ++ s ∷ ys) ≡ false → is_in s xs ≡ false
is_in-prefix [] ys s h = refl
is_in-prefix (x ∷ xs) ys s h =
    ground (arith, is_in-prefix xs ys s, is_in-append x xs (s ∷ ys), str_eq_sym x s)

abbrev remove : String → List String → List String
remove s [] = []
remove s (x ∷ xs) = if str_eq x s then xs else x ∷ remove s xs

length-remove :
    (s : String) (xs : List String) → is_in s xs ≡ true → suc (length (remove s xs)) ≡ length xs
length-remove s [] h = cc
length-remove s (x ∷ xs) h = ground (arith, length-remove s xs)

All-remove :
    (s : String) (xs ys : List String)
    → is_in s ys ≡ false
    → All (λ y. is_in y xs ≡ true) ys
    → All (λ y. is_in y (remove s xs) ≡ true) ys
All-remove s xs [] h a = tt
All-remove s xs (y ∷ ys) h (a, rest) = (kept xs a, All-remove s xs ys (ground arith) rest)
  where
    apart : str_eq s y ≡ false
    apart = ground (arith, str_eq_sym s y)

    kept : (xs : List String) → is_in y xs ≡ true → is_in y (remove s xs) ≡ true
    kept [] k = cc
    kept (x ∷ xs) k = ground (arith, kept xs, str_eq_iff x s, str_eq_iff x y, str_eq_iff s y)

-- A list without duplicates is no longer than a list that has all its members.
pub length-le_of_All :
    (xs ys : List String)
    → has_duplicate xs ≡ false
    → All (λ x. is_in x ys ≡ true) xs
    → length xs ≤ length ys
length-le_of_All [] ys h a = omega arith
length-le_of_All (x ∷ xs) ys h (a, rest) = omega (
  arith,
  length-remove x ys a,
  length-le_of_All xs (remove x ys) (ground arith) (All-remove x ys xs (ground arith) rest),
)
