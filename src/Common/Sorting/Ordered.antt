-- ===== src/Common/Sorting/Ordered.antt =====
-- That a sort orders, for the values on which its test decides an order.
use Prim.Native.Nat.{suc}
use mathlib.Core.Path.{◌≡◌, refl, ap, ◌∙◌}
use mathlib.Core.List.{List, [], ◌∷◌}
use mathlib.Core.Bool.{Bool, true, false}
use jetson_dlagreen.Common.Lists.{All, All-map, length}
use jetson_dlagreen.Common.Tests.{if_either}
use jetson_dlagreen.Common.Sorting.{insert_by, sort_by, insert_by-All, sort_by-All}

-- Each element before all that follow it.
abbrev pub IsOrdered : {A : Type 0} → (A → A → Type 0) → List A → Type 0
IsOrdered R [] = Unit {0}
IsOrdered R (x ∷ xs) = All (R x) xs × IsOrdered R xs

module _ {A : Type 0} (lt : A → A → Bool) (R : A → A → Type 0) (P : A → Type 0)
    (trans : (a b c : A) → R a b → R b c → R a c) (less : (a b : A) → lt a b ≡ true → R a b)
    (more : (a b : A) → P a → P b → lt b a ≡ false → R a b) where
  insert_by-IsOrdered :
      (x : A) (ys : List A) → P x → All P ys → IsOrdered R ys → IsOrdered R (insert_by lt x ys)
  insert_by-IsOrdered x [] p ps h = (tt, tt)
  insert_by-IsOrdered x (y ∷ ys) p (q, qs) (h, hs) =
      if_either (IsOrdered R) (lt y x) _ _
        (λ e. ((insert_by-All lt (R y) x ys).0 (less y x e, h), insert_by-IsOrdered x ys p qs hs))
        (λ e.
          let first = more x y p q e in
          ((first, All-map (R y) (R x) ys (λ z. trans x y z first) h), (h, hs)))

  pub sort_by-IsOrdered : (xs : List A) → All P xs → IsOrdered R (sort_by lt xs)
  sort_by-IsOrdered [] p = tt
  sort_by-IsOrdered (x ∷ xs) (p, ps) =
      insert_by-IsOrdered x (sort_by lt xs) p ((sort_by-All lt P xs).0 ps) (sort_by-IsOrdered xs ps)

module _ {A : Type 0} (lt : A → A → Bool) where
  length-insert_by : (x : A) (ys : List A) → length (insert_by lt x ys) ≡ suc (length ys)
  length-insert_by x [] = refl
  length-insert_by x (y ∷ ys) =
      if_either (λ zs. length zs ≡ suc (suc (length ys))) (lt y x) _ _
        (λ e. ap suc (length-insert_by x ys)) (λ e. refl)

  pub length-sort_by : (xs : List A) → length (sort_by lt xs) ≡ length xs
  length-sort_by [] = refl
  length-sort_by (x ∷ xs) = length-insert_by x (sort_by lt xs) ∙ ap suc (length-sort_by xs)
