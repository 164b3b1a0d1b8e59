-- ===== src/Cpus/Signs.antt =====
-- An expanded list has no negative CPU, since a dash ends the text of a number.
use jetson_dlagreen.Common.Decimal.Laws.{Lacks}
use jetson_dlagreen.Common.{
  ℕ, zero, suc, ◌∷◌, [], none, some, false, List, All, Option, ◌≡◌, if_either, refl, arith, ok,
  ◌==◌, sym, subst, ok_injective, >>=-eq-ok, All-append,
}
use jetson_dlagreen.Common.Int.{ℤ, pos, ltb_ℤ, pos-add-one}
use jetson_dlagreen.Common.Decimal.{
  int_of, split_once, read_signed, or_invalid, strip_left, is_space, read_digits,
}
use jetson_dlagreen.Cpus.{
  expand_items, expand_bounds, expand_item, some_negative, int_range, range_length,
}

strip_left-Lacks : (sep : ℕ) (text : List ℕ) → Lacks sep text → Lacks sep (strip_left text)
strip_left-Lacks sep [] h = h
strip_left-Lacks sep (c ∷ cs) (h, hs) =
    if_either (Lacks sep) (is_space c) _ _ (λ e. strip_left-Lacks sep cs hs) (λ e. (h, hs))

or_invalid-pos : (o : Option ℕ) (z : ℤ) → or_invalid pos o ≡ ok z → (n : ℕ) × (z ≡ pos n)
or_invalid-pos none z h = cc
or_invalid-pos (some n) z h = (n, sym (ok_injective h))

read_signed-pos :
    (text : List ℕ) (z : ℤ) → Lacks b'-' text → read_signed text ≡ ok z → (n : ℕ) × (z ≡ pos n)
unfolding read_signed
read_signed-pos [] z l = λ h. cc
read_signed-pos (c ∷ cs) z (l, ls) =
    if_either (λ v. v ≡ ok z → (n : ℕ) × (z ≡ pos n)) (c == b'-') _ _ (λ e k. absurd (ground arith))
      (λ e.
        if_either (λ v. v ≡ ok z → (n : ℕ) × (z ≡ pos n)) (c == b'+') _ _
          (λ f k. or_invalid-pos (read_digits 0 false cs) z k)
          (λ f k. or_invalid-pos (read_digits 0 false (c ∷ cs)) z k))

int_of-pos : (text : List ℕ) (z : ℤ) → Lacks b'-' text → int_of text ≡ ok z → (n : ℕ) × (z ≡ pos n)
unfolding int_of
int_of-pos text z l h = read_signed-pos (strip_left text) z (strip_left-Lacks b'-' text l) h

split_once-Lacks : (sep : ℕ) (text : List ℕ) → Lacks sep (split_once sep text).0
unfolding split_once
split_once-Lacks sep [] = tt
split_once-Lacks sep (c ∷ cs) =
    if_either (λ (p : List ℕ × Option (List ℕ)). Lacks sep p.0) (c == sep) _ _ (λ e. tt)
      (λ e. (e, split_once-Lacks sep cs))

abbrev pub AreCpus : List ℤ → Type 0
AreCpus cpus = All (λ c. ltb_ℤ c (pos 0) ≡ false) cpus

int_range-AreCpus : (n i : ℕ) → AreCpus (int_range (pos i) n)
int_range-AreCpus zero i = tt
int_range-AreCpus (suc n) i = (
  ground arith,
  subst (λ z. AreCpus (int_range z n)) (sym (pos-add-one i)) (int_range-AreCpus n (suc i)),
)

expand_bounds-AreCpus :
    (bound : List ℕ) (rest : Option (List ℕ)) (cpus : List ℤ)
    → Lacks b'-' bound
    → expand_bounds bound rest ≡ ok cpus
    → AreCpus cpus
unfolding expand_bounds
expand_bounds-AreCpus bound none cpus l h =
    let (z, e, h1) = >>=-eq-ok (int_of bound) _ h in
    let (n, same) = int_of-pos bound z l e in
    subst AreCpus (ok_injective h1) (rw same (ground arith, tt))
expand_bounds-AreCpus bound (some rest) cpus l h =
    let (first, e, h1) = >>=-eq-ok (int_of bound) _ h in
    let (last, f, h2) = >>=-eq-ok (int_of rest) _ h1 in
    let (n, same) = int_of-pos bound first l e in
    if_either (λ v. v ≡ ok cpus → AreCpus cpus) (ltb_ℤ last first) _ _ (λ t k. cc)
      (λ t k. subst AreCpus (ok_injective k) (
        subst (λ z. AreCpus (int_range z (range_length first last))) (sym same)
          (int_range-AreCpus (range_length first last) n)))
      h2

pub expand_items-AreCpus :
    (items : List (List ℕ)) (cpus : List ℤ) → expand_items items ≡ ok cpus → AreCpus cpus
unfolding expand_items expand_item
expand_items-AreCpus [] cpus h = subst AreCpus (ok_injective h) tt
expand_items-AreCpus (item ∷ items) cpus h =
    let (xs, e, h1) = >>=-eq-ok (expand_item item) _ h in
    let (ys, f, h2) = >>=-eq-ok (expand_items items) _ h1 in
    subst AreCpus (ok_injective h2) (
      All-append (λ c. ltb_ℤ c (pos 0) ≡ false) xs ys
        (expand_bounds-AreCpus (split_once b'-' item).0 (split_once b'-' item).1 xs
          (split_once-Lacks b'-' item) e)
        (expand_items-AreCpus items ys f))

pub some_negative-AreCpus : (cpus : List ℤ) → AreCpus cpus → some_negative cpus ≡ false
some_negative-AreCpus [] h = refl
some_negative-AreCpus (c ∷ cs) (h, hs) = rw h (some_negative-AreCpus cs hs)
