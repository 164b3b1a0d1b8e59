-- ===== src/Common/Sorting.antt =====
-- Python's sorted, min and max with a key: a stable sort, and the first least element.
pub mod Ordered
use Prim.Native.Nat.{ℕ, ◌+◌}
use native.Mathlib.Omega.{arith}
use jetson_dlagreen.Common.Tests.{◌==◌}
use jetson_dlagreen.Common.Dict.{IsAmong, keep, if-All, IsAmong-if_head, IsAmong-if_tail}
use mathlib.Core.Path.{◌≡◌, refl, subst}
use jetson_dlagreen.Common.Lists.{All, All-map}
use jetson_dlagreen.Common.Tests.{if◌then◌else◌, if_either, Bool-cases}
use mathlib.Core.List.{List, [], ◌∷◌, ◌++◌}
use mathlib.Core.Bool.{Bool, true, false}
use mathlib.Core.Logic.{◌↔◌, inl, inr}

module _ {A : Type 0} (lt : A → A → Bool) where
  abbrev pub insert_by : A → List A → List A
  insert_by x [] = x ∷ []
  insert_by x (y ∷ ys) = if lt y x then y ∷ insert_by x ys else x ∷ y ∷ ys

  -- sorted(xs, key=…), where `lt` compares the keys.
  abbrev pub sort_by : List A → List A
  sort_by [] = []
  sort_by (x ∷ xs) = insert_by x (sort_by xs)

  -- min(x, *xs, key=…).
  abbrev pub least_by : A → List A → A
  least_by best [] = best
  least_by best (x ∷ xs) = least_by (if lt x best then x else best) xs

module _ {A : Type 0} (lt : A → A → Bool) (P : A → Type 0) where
  insert_by-All : (x : A) (ys : List A) → (P x × All P ys) ↔ All P (insert_by lt x ys)
  insert_by-All x [] = (λ h. h, λ h. h)
  insert_by-All x (y ∷ ys) =
      let (to, from) = insert_by-All x ys in
      if_either (λ zs. (P x × (P y × All P ys)) ↔ All P zs) (lt y x) _ _
        (λ e. (λ (h, (k, hs)). (k, to (h, hs)), λ (k, hs). let (h, t) = from hs in (h, (k, t))))
        (λ e. (λ h. h, λ h. h))

  pub sort_by-All : (xs : List A) → All P xs ↔ All P (sort_by lt xs)
  sort_by-All [] = (λ h. h, λ h. h)
  sort_by-All (x ∷ xs) =
      let (to, from) = sort_by-All xs in
      let (into, out) = insert_by-All x (sort_by lt xs) in
      (λ (h, hs). into (h, to hs), λ hs. let (h, t) = out hs in (h, from t))

  pub least_by-All : (best : A) (xs : List A) → P best → All P xs → P (least_by lt best xs)
  least_by-All best [] h hs = h
  least_by-All best (x ∷ xs) h (k, ks) =
      least_by-All (if lt x best then x else best) xs
        (if_either P (lt x best) x best (λ e. k) (λ e. h)) ks

-- `R` is the order that `lt` tests.
pub least_by-least :
    {A : Type 0} (lt : A → A → Bool) (R : A → A → Type 0)
    → ((a : A) → R a a)
    → ((a b c : A) → R a b → R b c → R a c)
    → ((a b : A) → lt a b ≡ true → R a b)
    → ((a b : A) → lt a b ≡ false → R b a)
    → (best : A) (xs : List A) → R (least_by lt best xs) best × All (R (least_by lt best xs)) xs
least_by-least lt R same trans less more best [] = (same best, tt)
least_by-least lt R same trans less more best (x ∷ xs) =
    let least = least_by lt (if lt x best then x else best) xs in
    let (h, hs) = least_by-least lt R same trans less more (if lt x best then x else best) xs in
    let (to_best, to_x) =
      if_either (λ v. R v best × R v x) (lt x best) x best (λ e. (less x best e, same x))
        (λ e. (same best, more x best e)) in
    (trans least _ best h to_best, (trans least _ x h to_x, hs))

-- The same, where the test decides the order only on what has `P`.
pub least_by-least_on :
    {A : Type 0} (lt : A → A → Bool) (R : A → A → Type 0) (P : A → Type 0)
    → ((a : A) → P a → R a a)
    → ((a b c : A) → R a b → R b c → R a c)
    → ((a b : A) → lt a b ≡ true → R a b)
    → ((a b : A) → P a → P b → lt a b ≡ false → R b a)
    → (best : A) (xs : List A) → P best
    → All P xs
    → R (least_by lt best xs) best × All (R (least_by lt best xs)) xs
least_by-least_on lt R P same trans less more best [] p ps = (same best p, tt)
least_by-least_on lt R P same trans less more best (x ∷ xs) p (q, qs) =
    let least = least_by lt (if lt x best then x else best) xs in
    let (h, hs) =
      least_by-least_on lt R P same trans less more (if lt x best then x else best) xs
        (if_either P (lt x best) x best (λ e. q) (λ e. p)) qs in
    let (to_best, to_x) =
      if_either (λ v. R v best × R v x) (lt x best) x best (λ e. (less x best e, same x q))
        (λ e. (same best p, more x best q p e)) in
    (trans least _ best h to_best, (trans least _ x h to_x, hs))

pub IsAmong-keep :
    {A : Type 0} (test : A → Bool) (xs : List A) (x : A)
    → IsAmong x xs
    → test x ≡ true
    → IsAmong x (keep test xs)
IsAmong-keep test [] x m h = absurd m
IsAmong-keep test (y ∷ ys) x (inl e) h =
    IsAmong-if_head (test y) x y (keep test ys) (subst (λ z. test z ≡ true) e h) e
IsAmong-keep test (y ∷ ys) x (inr m) h =
    IsAmong-if_tail (test y) x y (keep test ys) (IsAmong-keep test ys x m h)

-- What a test keeps, of items that have `P`, and the items that it does not.
pub keep-All :
    {A : Type 0} (test : A → Bool) (P : A → Type 0) (xs : List A)
    → All P xs
    → All (λ x. P x × (test x ≡ true)) (keep test xs)
keep-All test P [] h = tt
keep-All test P (x ∷ xs) (h, hs) =
    if-All (λ y. P y × (test y ≡ true)) (test x) x (keep test xs) (λ e. (h, e))
      (keep-All test P xs hs)

pub All-keep :
    {A : Type 0} (test : A → Bool) (P : A → Type 0) (xs : List A)
    → All P (keep test xs)
    → All (λ x. test x ≡ true → P x) xs
All-keep test P [] h = tt
All-keep test P (x ∷ xs) h = elim (Bool-cases (test x)) [
  | inl e ↦
      let (k, ks) = subst (λ t. All P (if t then x ∷ keep test xs else keep test xs)) e h in
      (λ f. k, All-keep test P xs ks)
  | inr e ↦ (
    λ f. cc,
    All-keep test P xs (subst (λ t. All P (if t then x ∷ keep test xs else keep test xs)) e h),
  )
]

pub IsAmong-All : {A : Type 0} (xs : List A) → All (λ x. IsAmong x xs) xs
IsAmong-All [] = tt
IsAmong-All (x ∷ xs) = (inl refl, All-map _ _ xs (λ y h. inr h) (IsAmong-All xs))

-- How often a number occurs.
abbrev pub count : ℕ → List ℕ → ℕ
count k [] = 0
count k (x ∷ xs) = (if k == x then 1 else 0) + count k xs

count-insert_by :
    (lt : ℕ → ℕ → Bool) (k x : ℕ) (ys : List ℕ) → count k (insert_by lt x ys) ≡ count k (x ∷ ys)
count-insert_by lt k x [] = refl
count-insert_by lt k x (y ∷ ys) =
    if_either (λ zs. count k zs ≡ count k (x ∷ y ∷ ys)) (lt y x) _ _
      (λ e. omega (arith, count-insert_by lt k x ys)) (λ e. refl)

pub count-sort_by : (lt : ℕ → ℕ → Bool) (k : ℕ) (xs : List ℕ) → count k (sort_by lt xs) ≡ count k xs
count-sort_by lt k [] = refl
count-sort_by lt k (x ∷ xs) =
    omega (arith, count-insert_by lt k x (sort_by lt xs), count-sort_by lt k xs)

pub IsAmong-append : {A : Type 0} (xs ys : List A) (x : A) → IsAmong x ys → IsAmong x (xs ++ ys)
IsAmong-append [] ys x h = h
IsAmong-append (y ∷ xs) ys x h = inr (IsAmong-append xs ys x h)
