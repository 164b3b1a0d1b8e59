-- ===== src/Planner/Best.antt =====
-- The choice of select_plan: feasible, and not below any feasible candidate.
use jetson_dlagreen.Common.Dict.{if-All, IsAmong, All_among, IsAmong-if_head, IsAmong-if_tail}
use jetson_dlagreen.Common.Float.{IsIeee, IsNumber, ◌≼◌}
use jetson_dlagreen.Planner.Profile.{Evaluation}
use jetson_dlagreen.Common.{
  ◌≡◌, List, All, true, false, Bool-cases, arith, inl, inr, Bool, if◌then◌else◌, ap, subst, sym,
  Option, none, some, refl, Error, All-map, ◌∙◌,
}
use jetson_dlagreen.Common.{[], ◌∷◌}
use jetson_dlagreen.Planner.Selection.{
  best_from, key_lt, Entry, feasible_of, select, refused, evaluated,
}
use jetson_dlagreen.Planner.{Float, Candidate}

module _ {W : Type 0} ⦃d : Float W⦄ where
  -- `x` has at least the goodput of `y`, and at equal goodput at least its slack.
  abbrev pub IsAbove : Evaluation W → Evaluation W → Type 0
  IsAbove x y =
      (y.background_goodput_rps ≼ x.background_goodput_rps)
      × (x.background_goodput_rps ≼ y.background_goodput_rps
          → y.reserved_slack_us ≼ x.reserved_slack_us)

  abbrev pub HasKey : Evaluation W → Type 0
  HasKey x = IsNumber x.background_goodput_rps × IsNumber x.reserved_slack_us

  -- The choice among the entries: no evaluation is feasible, or the selected one is an entry,
  -- feasible, and above each entry's evaluation that is.
  pub data IsChoice (entries : List (Entry W)) : Option (Evaluation W) → Type 0 where
    no_feasible :
        ((f : Evaluation W) → IsAmong (evaluated f) entries → f.feasible ≡ false)
        → IsChoice entries none
    chosen :
        (e : Evaluation W)
        → IsAmong (evaluated e) entries
        → e.feasible ≡ true
        → ((f : Evaluation W) → IsAmong (evaluated f) entries → f.feasible ≡ true → IsAbove e f)
        → IsChoice entries (some e)

module _ {W : Type 0} ⦃d : Float W⦄ (laws : IsIeee W) where
  IsAbove-trans : (x y z : Evaluation W) → IsAbove x y → IsAbove y z → IsAbove x z
  IsAbove-trans x y z (h, hs) (k, ks) = (
    laws.le_trans _ _ _ k h,
    λ e. laws.le_trans _ _ _ (ks (laws.le_trans _ _ _ h e)) (hs (laws.le_trans _ _ _ e k)),
  )

  IsAbove-refl : (x : Evaluation W) → HasKey x → IsAbove x x
  IsAbove-refl x (g, s) = (g, λ e. s)

  key_lt-IsAbove :
      (x y : Evaluation W)
      → HasKey x
      → HasKey y
      → (key_lt x y ≡ true → IsAbove y x) × (key_lt x y ≡ false → IsAbove x y)
  unfolding key_lt
  key_lt-IsAbove x y (xg, xs) (yg, ys) = ground (
    arith,
    laws.eq_le x.background_goodput_rps y.background_goodput_rps,
    laws.eq_of_le x.background_goodput_rps y.background_goodput_rps,
    laws.lt-eq-not-le x.background_goodput_rps y.background_goodput_rps xg yg,
    laws.le_of_lt x.background_goodput_rps y.background_goodput_rps,
    laws.lt-eq-not-le x.reserved_slack_us y.reserved_slack_us xs ys,
    laws.le_of_lt x.reserved_slack_us y.reserved_slack_us,
  )

  abbrev IsBest : Evaluation W → Evaluation W → List (Evaluation W) → Type 0
  IsBest m e es = IsAbove m e × All (λ f. IsAbove m f) es × HasKey m

  best_from-IsBest :
      (e : Evaluation W) (es : List (Evaluation W))
      → HasKey e
      → All HasKey es
      → IsBest (best_from e es) e es
  unfolding best_from
  best_from-IsBest e [] h hs = (IsAbove-refl e h, tt, h)
  best_from-IsBest e (x ∷ es) h (k, hs) = elim (Bool-cases (key_lt e x)) [
    | inl above ↦
        let (a, rest, n) = best_from-IsBest x es k hs in
        subst (λ next. IsBest (best_from next es) e (x ∷ es)) (sym (if_of above))
          (IsAbove-trans (best_from x es) x e a ((key_lt-IsAbove e x h k).0 above), (a, rest), n)
    | inr below ↦
        let (a, rest, n) = best_from-IsBest e es h hs in
        subst (λ next. IsBest (best_from next es) e (x ∷ es)) (sym (if_of below))
          (a, (IsAbove-trans (best_from e es) e x a ((key_lt-IsAbove e x h k).1 below), rest), n)
  ]
    where
      if_of : {v : Bool} → key_lt e x ≡ v → (if key_lt e x then x else e) ≡ (if v then x else e)
      if_of h = ap (λ v. if v then x else e) h

  best_from-All {κ} :
      (P : Evaluation W → Type κ) (e : Evaluation W) (es : List (Evaluation W))
      → P e
      → All P es
      → P (best_from e es)
  unfolding best_from
  best_from-All P e [] h hs = h
  best_from-All P e (x ∷ es) h (k, hs) =
      best_from-All P (if key_lt e x then x else e) es
        (elim (Bool-cases (key_lt e x)) [ inl above ↦ rw above k | inr below ↦ rw below h ]) hs

  -- What feasible_of keeps is feasible and of the entries, and it keeps all that are.
  feasible_of-All :
      (entries : List (Entry W))
      → All (λ e. (e.feasible ≡ true) × IsAmong (evaluated e) entries) (feasible_of entries)
  unfolding feasible_of
  feasible_of-All [] = tt
  feasible_of-All (refused c e ∷ entries) =
      All-map _ _ (feasible_of entries) (λ x h. (h.0, inr h.1)) (feasible_of-All entries)
  feasible_of-All (evaluated e ∷ entries) =
      if-All (λ x. (x.feasible ≡ true) × IsAmong (evaluated x) (evaluated e ∷ entries)) e.feasible e
        (feasible_of entries) (λ holds. (holds, inl refl))
        (All-map _ _ (feasible_of entries) (λ x h. (h.0, inr h.1)) (feasible_of-All entries))

  no_evaluation : {f : Evaluation W} {c : Candidate W} {e : Error} → ¬ (evaluated f ≡ refused c e)
  no_evaluation h = cc

  same_evaluation : {f e : Evaluation W} → evaluated f ≡ evaluated e → f ≡ e
  same_evaluation h = cc

  feasible_of-IsAmong :
      (entries : List (Entry W)) (f : Evaluation W)
      → IsAmong (evaluated f) entries
      → f.feasible ≡ true
      → IsAmong f (feasible_of entries)
  unfolding feasible_of
  feasible_of-IsAmong [] f m h = absurd m
  feasible_of-IsAmong (refused c e ∷ entries) f (inl same) h = absurd (no_evaluation same)
  feasible_of-IsAmong (refused c e ∷ entries) f (inr m) h = feasible_of-IsAmong entries f m h
  feasible_of-IsAmong (evaluated e ∷ entries) f (inl same) h =
      let equal = same_evaluation same in
      IsAmong-if_head e.feasible f e (feasible_of entries) (ap (λ z. z.feasible) (sym equal) ∙ h)
        equal
  feasible_of-IsAmong (evaluated e ∷ entries) f (inr m) h =
      IsAmong-if_tail e.feasible f e (feasible_of entries) (feasible_of-IsAmong entries f m h)

  pub select-IsChoice :
      (entries : List (Entry W))
      → All HasKey (feasible_of entries)
      → IsChoice entries (select (feasible_of entries))
  unfolding select
  select-IsChoice entries keys =
      go (feasible_of entries) keys (feasible_of-All entries) (feasible_of-IsAmong entries)
    where
      go :
          (es : List (Evaluation W))
          → All HasKey es
          → All (λ e. (e.feasible ≡ true) × IsAmong (evaluated e) entries) es
          → ((f : Evaluation W) → IsAmong (evaluated f) entries → f.feasible ≡ true → IsAmong f es)
          → IsChoice entries (select es)
      go [] k f all = no_feasible (λ x m. elim (Bool-cases x.feasible) [
        | inl feasible ↦ absurd (all x m feasible)
        | inr other ↦ other
      ])
      go (e ∷ es) (k, ks) (f, fs) all =
          let (a, rest, n) = best_from-IsBest e es k ks in
          let (feasible, among) =
            best_from-All (λ x. (x.feasible ≡ true) × IsAmong (evaluated x) entries) e es f fs in
          chosen (best_from e es) among feasible (λ x m holds.
            All_among (λ y. IsAbove (best_from e es) y) (e ∷ es) x (a, rest) (all x m holds))
