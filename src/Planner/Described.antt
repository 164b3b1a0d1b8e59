-- ===== src/Planner/Described.antt =====
-- A candidate's description in the planner's specification, and the readings of its parts in
-- runtime/quiet_stage_dag.py.
use jetson_dlagreen.Planner.Bound.{finite_nonnegative-value}
use jetson_dlagreen.Planner.Reservation.{checked_same}
use jetson_dlagreen.Common.Dict.{IsAmong}
use jetson_dlagreen.Planner.{
  Builtins, finite_nonnegative, Candidate, checked_nonnegative, ℤ, get_default,
}
use jetson_dlagreen.Common.Json.{
  Json, str, Fields, get_field, int, float, keys, bool, arr, obj, null,
}
use jetson_dlagreen.Planner.Candidates.{
  get_item, all_in, required_keys, optional_keys, metadata, all_text, placement_keys, read_path,
  read_scope, scopes, read_placement,
}
use jetson_dlagreen.Common.{
  Bool, List, String, ◌≡◌, All, ◌&&◌, ok, true, Result, none, arith, ◌∷◌, some, str_eq, [], inl,
  Bool-cases, err, false, ◌⊎◌, sym, subst, str_eq_iff, Option-cases, value_error, ◌++◌, refl,
  key_error, >>=-eq-ok, ap, ◌∙◌, inr, not, ok_injective, ◌>>=◌, if◌then◌else◌,
}
use jetson_dlagreen.Common.Float.{Float, IsIeee, nought, ◌≼◌}
use jetson_dlagreen.Dag.{nonempty_text, is_in}

module _ {W : Type 0} where
  -- A text that is not empty, at the key; or without the key the default.
  abbrev pub IsTextOr : String → String → Fields W → String → Type 0
  IsTextOr name default raw s =
      ((get_field name raw ≡ none) × (s ≡ default))
      ⊎ ((get_field name raw ≡ some (str s)) × (str_eq s "" ≡ false))

-- One of the three scopes.
abbrev pub IsScope : String → Type 0
IsScope s = (s ≡ "producer") ⊎ (s ≡ "consumer") ⊎ (s ≡ "pipeline")

module _ {W : Type 0} ⦃d : Float W⦄ (b : Builtins W) where
  -- A number from JSON, finite and not negative.
  pub record IsAmount (value : Json W) (x : W) : Type 0 where
    pub converted : ((n : ℤ) × (value ≡ int n) × (b.of_int n ≡ ok x)) ⊎ (value ≡ float x)
    pub finite : d.is_finite x ≡ true
    pub nonnegative : nought ≼ x

  abbrev pub HasAmount : String → Fields W → W → Type 0
  HasAmount name raw x = (value : Json W) × (get_field name raw ≡ some value) × IsAmount value x

  -- The candidate that an object describes: its keys are known and complete, and each of the
  -- candidate's parts is what the object has at its key.
  pub record IsParsed (resolve : String → Result String) (raw : Fields W) (c : Candidate W)
      : Type 0 where
    pub known : All (λ name. IsAmong name (required_keys ++ optional_keys ++ metadata)) (keys raw)
    pub complete : All (λ name. IsAmong name (keys raw)) required_keys
    pub candidate_id :
        (get_field "candidate_id" raw ≡ some (str c.candidate_id))
        × (str_eq c.candidate_id "" ≡ false)
    pub placement : get_field "placement" raw ≡ some (obj c.placement)
    pub placement_known :
        All (λ name. IsAmong name ("producer" ∷ "consumer" ∷ [])) (keys c.placement)
    pub placement_complete :
        All (λ name. IsAmong name (keys c.placement)) ("producer" ∷ "consumer" ∷ [])
    pub placement_text : all_text c.placement ≡ true
    pub variant :
        IsTextOr "placement_variant" "fixed-1g-producer-2g-consumer" raw c.placement_variant
    pub scope : IsTextOr "protection_scope" "producer" raw c.protection_scope
    pub scope_known : IsScope c.protection_scope
    pub path :
        (path : String) × (get_field "profile_path" raw ≡ some (str path))
        × (resolve path ≡ ok c.profile_path)
    pub goodput : HasAmount "background_goodput_rps" raw c.background_goodput_rps
    pub guard : HasAmount "pre_release_guard_p99_us" raw c.pre_release_guard_p99_us
    pub margin : HasAmount "reservation_margin_us" raw c.reservation_margin_us

pub split_and : (x y : Bool) → (x && y) ≡ true → (x ≡ true) × (y ≡ true)
split_and x y h = ground arith

is_in-IsAmong : (s : String) (xs : List String) → is_in s xs ≡ true → IsAmong s xs
is_in-IsAmong s [] h = cc
is_in-IsAmong s (x ∷ xs) h = elim (Bool-cases (str_eq x s)) [
  | inl same ↦ inl (sym ((str_eq_iff x s).0 same))
  | inr apart ↦ inr (is_in-IsAmong s xs (ground arith))
]

IsAmong-is_in : (s : String) (xs : List String) → IsAmong s xs → is_in s xs ≡ true
IsAmong-is_in s [] h = absurd h
IsAmong-is_in s (x ∷ xs) (inl same) =
    let e : str_eq x s ≡ true = (str_eq_iff x s).1 (sym same) in rw e refl
IsAmong-is_in s (x ∷ xs) (inr h) = ground (arith, IsAmong-is_in s xs h)

pub all_in-All : (xs ys : List String) → all_in xs ys ≡ true → All (λ name. IsAmong name ys) xs
all_in-All [] ys h = tt
all_in-All (x ∷ xs) ys h =
    let (first, rest) = split_and (is_in x ys) (all_in xs ys) h in
    (is_in-IsAmong x ys first, all_in-All xs ys rest)

pub All-all_in : (xs ys : List String) → All (λ name. IsAmong name ys) xs → all_in xs ys ≡ true
All-all_in [] ys h = refl
All-all_in (x ∷ xs) ys (h, hs) = rw (IsAmong-is_in x ys h, All-all_in xs ys hs) refl

module _ {W : Type 0} where
  pub get_item-value :
      (name : String) (raw : Fields W) (v : Json W)
      → get_item name raw ≡ ok v
      → get_field name raw ≡ some v
  unfolding get_item
  get_item-value name raw v h = elim (Option-cases (get_field name raw)) [
    | inl e ↦ absurd (no_item (rw (e, get_item) at h))
    | inr (w, e) ↦ e ∙ ap some (ok_injective (rw (e, get_item) at h))
  ]
    where
      no_item : ¬ (err key_error ≡ ok v)
      no_item k = cc

  pub get_item-found :
      (name : String) (raw : Fields W) (v : Json W)
      → get_field name raw ≡ some v
      → get_item name raw ≡ ok v
  unfolding get_item
  get_item-found name raw v h = rw (h, get_item) refl

  pub get_default-cases :
      (name : String) (default : Json W) (raw : Fields W)
      → ((get_field name raw ≡ none) × (get_default name default raw ≡ default))
        ⊎ (get_field name raw ≡ some (get_default name default raw))
  get_default-cases name default raw = elim (Option-cases (get_field name raw)) [
    | inl e ↦ inl (e, rw (e, get_default) refl)
    | inr (w, e) ↦ inr (e ∙ ap some (sym (rw (e, get_default) refl)))
  ]

  pub text_injective : {s t : String} → ◌≡◌ {A = Json W} (str s) (str t) → s ≡ t
  text_injective h = cc

  pub nonempty_text-value :
      (v : Json W) (label s : String)
      → nonempty_text v label ≡ ok s
      → (v ≡ str s) × (str_eq s "" ≡ false)
  nonempty_text-value (str t) label s h = elim (Bool-cases (str_eq t "")) [
    | inl e ↦ absurd (refusal (rw e at h))
    | inr e ↦
        let same = ok_injective (rw e at h) in
        (ap str same, subst (λ z. str_eq z "" ≡ false) same e)
  ]
    where
      refusal : ¬ (err (value_error label) ≡ ok s)
      refusal k = cc
  nonempty_text-value null label s h = cc
  nonempty_text-value (bool v) label s h = cc
  nonempty_text-value (int n) label s h = cc
  nonempty_text-value (float x) label s h = cc
  nonempty_text-value (arr xs) label s h = cc
  nonempty_text-value (obj fs) label s h = cc

module _ {W : Type 0} ⦃d : Float W⦄ (laws : IsIeee W) (b : Builtins W) where
  finite_nonnegative-IsAmount :
      (value : Json W) (x : W) → finite_nonnegative b value ≡ ok x → IsAmount b value x
  unfolding finite_nonnegative
  finite_nonnegative-IsAmount value x h =
      let (finite, low) = finite_nonnegative-value laws b value x h in
      record { converted = of_value value h; finite = finite; nonnegative = low }
    where
      of_value :
          (value : Json W)
          → finite_nonnegative b value ≡ ok x
          → ((n : ℤ) × (value ≡ int n) × (b.of_int n ≡ ok x)) ⊎ (value ≡ float x)
      of_value (int n) h =
          let (y, e, k) = >>=-eq-ok (b.of_int n) checked_nonnegative h in
          inl (n, refl, e ∙ ap ok (checked_same laws b y x k))
      of_value (float y) h = inr (ap float (checked_same laws b y x h))
      of_value null h = cc
      of_value (bool v) h = cc
      of_value (str s) h = cc
      of_value (arr xs) h = cc
      of_value (obj fs) h = cc

  IsAmount-checked : (x : W) → d.is_finite x ≡ true → nought ≼ x → checked_nonnegative x ≡ ok x
  unfolding checked_nonnegative
  IsAmount-checked x h k =
      let low : d.lt x nought ≡ false =
        laws.lt-eq-not-le x nought (laws.number_of_finite x h) (laws.decimal_number 0 0)
        ∙ ap not k in
      rw (h, low) refl

  pub IsAmount-finite_nonnegative :
      (value : Json W) (x : W) → IsAmount b value x → finite_nonnegative b value ≡ ok x
  unfolding finite_nonnegative
  IsAmount-finite_nonnegative value x a =
      let checked = IsAmount-checked x a.finite a.nonnegative in
      elim a.converted [
        | inl (n, e, k) ↦
            subst (λ v. finite_nonnegative b v ≡ ok x) (sym e)
              (ap (λ m. m >>= checked_nonnegative) k ∙ checked)
        | inr e ↦ subst (λ v. finite_nonnegative b v ≡ ok x) (sym e) checked
      ]

  pub HasAmount-read :
      (name : String) (raw : Fields W) (value : Json W) (x : W)
      → get_item name raw ≡ ok value
      → finite_nonnegative b value ≡ ok x
      → HasAmount b name raw x
  HasAmount-read name raw value x e h =
      (value, get_item-value name raw value e, finite_nonnegative-IsAmount value x h)

is_in-IsScope : (s : String) → is_in s scopes ≡ true → IsScope s
is_in-IsScope s h = elim (is_in-IsAmong s scopes h) [
  | inl e ↦ inl e
  | inr (inl e) ↦ inr (inl e)
  | inr (inr (inl e)) ↦ inr (inr e)
  | inr (inr (inr e)) ↦ absurd e
]

pub IsScope-in : (s : String) → IsScope s → is_in s scopes ≡ true
IsScope-in s (inl e) = IsAmong-is_in s scopes (inl e)
IsScope-in s (inr (inl e)) = IsAmong-is_in s scopes (inr (inl e))
IsScope-in s (inr (inr e)) = IsAmong-is_in s scopes (inr (inr (inl e)))

pub scope-text : (s : String) → IsScope s → str_eq s "" ≡ false
scope-text s (inl e) = subst (λ z. str_eq z "" ≡ false) (sym e) refl
scope-text s (inr (inl e)) = subst (λ z. str_eq z "" ≡ false) (sym e) refl
scope-text s (inr (inr e)) = subst (λ z. str_eq z "" ≡ false) (sym e) refl

module _ {W : Type 0} where
  pub text-IsTextOr :
      (name default label s : String) (raw : Fields W)
      → nonempty_text (get_default name (str default) raw) label ≡ ok s
      → IsTextOr name default raw s
  text-IsTextOr name default label s raw h =
      let (same, some_text) = nonempty_text-value (get_default name (str default) raw) label s h in
      elim (get_default-cases name (str default) raw) [
        | inl (e, f) ↦ inl (e, text_injective (sym same ∙ f))
        | inr e ↦ inr (e ∙ ap some same, some_text)
      ]

  pub IsTextOr-default :
      (name default s : String) (raw : Fields W)
      → IsTextOr name default raw s
      → get_default name (str default) raw ≡ str s
  IsTextOr-default name default s raw (inl (e, same)) =
      let found : get_default name (str default) raw ≡ str default = rw (e, get_default) refl in
      found ∙ ap str (sym same)
  IsTextOr-default name default s raw (inr (e, some_text)) = rw (e, get_default) refl

  pub read_scope-value : (v : Json W) (s : String) → read_scope v ≡ ok s → (v ≡ str s) × IsScope s
  unfolding read_scope
  read_scope-value (str t) s h = elim (Bool-cases (is_in t scopes)) [
    | inl e ↦
        let same = ok_injective (rw (e, read_scope) at h) in
        (ap str same, subst IsScope same (is_in-IsScope t e))
    | inr e ↦ absurd (refusal (rw (e, read_scope) at h))
  ]
    where
      refusal :
          ¬ (err (value_error "protection_scope must be producer, consumer, or pipeline") ≡ ok s)
      refusal k = cc
  read_scope-value null s h = cc
  read_scope-value (bool v) s h = cc
  read_scope-value (int n) s h = cc
  read_scope-value (float x) s h = cc
  read_scope-value (arr xs) s h = cc
  read_scope-value (obj fs) s h = cc

  abbrev pub IsPlacement : Json W → Fields W → Type 0
  IsPlacement v fields =
      (v ≡ obj fields)
      × ((all_in (keys fields) placement_keys
            && all_in placement_keys (keys fields)
            && all_text fields)
          ≡ true)

  pub read_placement-value :
      (v : Json W) (fields : Fields W) → read_placement v ≡ ok fields → IsPlacement v fields
  unfolding read_placement
  read_placement-value (obj found) fields h =
      go
        (all_in (keys found) placement_keys && all_in placement_keys (keys found) && all_text found)
        refl h
    where
      go :
          (test : Bool)
          → (all_in (keys found) placement_keys
              && all_in placement_keys (keys found)
              && all_text found)
            ≡ test
          → (if test
              then ok found
              else err (value_error "placement must map producer and consumer to instances"))
            ≡ ok fields
          → IsPlacement (obj found) fields
      go true e k = subst (IsPlacement (obj found)) (ok_injective k) (refl, e)
      go false e k = cc
  read_placement-value null fields h = cc
  read_placement-value (bool v) fields h = cc
  read_placement-value (int n) fields h = cc
  read_placement-value (float x) fields h = cc
  read_placement-value (str s) fields h = cc
  read_placement-value (arr xs) fields h = cc

  pub read_path-value :
      (resolve : String → Result String) (v : Json W) (s : String)
      → read_path resolve v ≡ ok s
      → (path : String) × (v ≡ str path) × (resolve path ≡ ok s)
  unfolding read_path
  read_path-value resolve (str path) s h = (path, refl, h)
  read_path-value resolve null s h = cc
  read_path-value resolve (bool v) s h = cc
  read_path-value resolve (int n) s h = cc
  read_path-value resolve (float x) s h = cc
  read_path-value resolve (arr xs) s h = cc
  read_path-value resolve (obj fs) s h = cc
