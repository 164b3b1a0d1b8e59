-- ===== src/Telemetry/Aggregated/Fresh.antt =====
-- The samples that aggregate adds for freshness, and the whole history.
use jetson_dlagreen.Telemetry.Healthy.{number, number-reverse, reverse-All, keep_all}
use mathlib.Core.List.{reverse}
use jetson_dlagreen.Common.Sorting.{IsAmong-All, keep-All}
use jetson_dlagreen.Telemetry.Complete.{keep-append}
use jetson_dlagreen.Common.Dict.{keep, IsAmong}
use jetson_dlagreen.Telemetry.Aggregate.{
  latest_observed, latest_valid, unless_same, unless_in_window, is_at,
}
use jetson_dlagreen.Common.{
  ℕ, suc, ◌∷◌, [], none, some, inl, inr, Bool, true, false, String, List, Result, Option, All, err,
  ◌>>=◌, if◌then◌else◌, if_either, ok, ◌≡◌, ltb, Bool-cases, refl, ◌++◌, All-append_split,
  append-nil, All-append, All-map, ap, length, ◌∙◌,
}
use jetson_dlagreen.Telemetry.{Sample}
use jetson_dlagreen.Telemetry.Window.{Interval, is_in_interval}
use jetson_dlagreen.Telemetry.Health.{all_present}

module _ {P W : Type 0} (Q : Sample P W → Type 0) where
  abbrev pub Holds : Option (ℕ × Sample P W) → Type 0
  Holds none = Unit {0}
  Holds (some (position, s)) = Q s

  abbrev pub HoldsIfOk : Result (Option (ℕ × Sample P W)) → Type 0
  HoldsIfOk (err e) = Unit {0}
  HoldsIfOk (ok o) = Holds o

  tested-Holds :
      (tested : Result Bool) (position : ℕ) (s : Sample P W)
      (rest : Result (Option (ℕ × Sample P W)))
      → Q s
      → HoldsIfOk rest
      → HoldsIfOk (tested >>= (λ valid. if valid then ok (some (position, s)) else rest))
  tested-Holds (err e) position s rest h k = tt
  tested-Holds (ok true) position s rest h k = h
  tested-Holds (ok false) position s rest h k = k

  pub latest_observed-Holds :
      (reference position : ℕ) (xs : List (Sample P W))
      → All Q xs
      → Holds (latest_observed reference position xs)
  unfolding latest_observed
  latest_observed-Holds reference position [] h = tt
  latest_observed-Holds reference position (x ∷ xs) (h, hs) =
      if_either Holds (ltb reference x.monotonic_ns) (latest_observed reference (suc position) xs)
        (some (position, x)) (λ e. latest_observed-Holds reference (suc position) xs hs) (λ e. h)

  unless_in_window-All :
      (i : Interval) (o : Option (ℕ × Sample P W)) → Holds o → All Q (unless_in_window i o)
  unless_in_window-All i none h = tt
  unless_in_window-All i (some (position, s)) h =
      if_either (All Q) (is_in_interval i s) [] (s ∷ []) (λ e. tt) (λ e. (h, tt))

  unless_same-Holds : (o v : Option (ℕ × Sample P W)) → Holds v → Holds (unless_same o v)
  unless_same-Holds o none h = tt
  unless_same-Holds o (some (position, s)) h =
      if_either Holds (is_at position o) none (some (position, s)) (λ e. tt) (λ e. h)

module _ {P W : Type 0} (present : Sample P W → String → Result Bool)
    (Q : Sample P W → Type 0) where
  pub latest_valid-Holds :
      (required : List String) (reference position : ℕ) (xs : List (Sample P W))
      → All Q xs
      → HoldsIfOk Q (latest_valid present required reference position xs)
  unfolding latest_valid
  latest_valid-Holds required reference position [] h = tt
  latest_valid-Holds required reference position (x ∷ xs) (h, hs) =
      let ih = latest_valid-Holds required reference (suc position) xs hs in
      if_either (HoldsIfOk Q) (ltb reference x.monotonic_ns) _ _ (λ e. ih)
        (λ e. tested-Holds Q (all_present present required x) position x _ h ih)

module _ {P W : Type 0} where
  unless_in_window-keep :
      (i : Interval) (o : Option (ℕ × Sample P W))
      → keep (is_in_interval i) (unless_in_window i o) ≡ []
  unless_in_window-keep i none = refl
  unless_in_window-keep i (some (position, s)) = elim (Bool-cases (is_in_interval i s)) [
    | inl e ↦ rw e refl
    | inr e ↦ rw (e, e) refl
  ]

  pub IsAmong-retained :
      (retained dropped : List (Sample P W)) → All (λ s. IsAmong s (retained ++ dropped)) retained
  IsAmong-retained retained dropped =
      (All-append_split (λ s. IsAmong s (retained ++ dropped)) retained dropped
        (IsAmong-All (retained ++ dropped))).0

  -- The samples that the aggregate is made of.
  abbrev pub with_fresh :
      Interval
      → List (Sample P W)
      → Option (ℕ × Sample P W)
      → Option (ℕ × Sample P W)
      → List (Sample P W)
  with_fresh i samples observed valid =
      samples ++ unless_in_window i observed ++ unless_in_window i (unless_same observed valid)

  pub with_fresh-keep :
      (i : Interval) (samples : List (Sample P W)) (observed valid : Option (ℕ × Sample P W))
      → keep (is_in_interval i) (with_fresh i samples observed valid)
        ≡ keep (is_in_interval i) samples
  with_fresh-keep i samples observed valid = simp (keep-append, unless_in_window-keep, append-nil)

  pub with_fresh-All :
      (Q : Sample P W → Type 0) (i : Interval) (samples : List (Sample P W))
      (observed valid : Option (ℕ × Sample P W))
      → All Q samples
      → Holds Q observed
      → Holds Q valid
      → All Q (with_fresh i samples observed valid)
  with_fresh-All Q i samples observed valid h k v =
      All-append Q (samples ++ unless_in_window i observed) _
        (All-append Q samples _ h (unless_in_window-All Q i observed k))
        (unless_in_window-All Q i (unless_same observed valid)
          (unless_same-Holds Q observed valid v))

  pub kept_in_order :
      (history : List (Sample P W)) (i : Interval) (test : Sample P W → Bool)
      → All (λ s. IsAmong s history) (reverse (keep (is_in_interval i) history))
        × (number test (keep (is_in_interval i) (reverse (keep (is_in_interval i) history)))
            ≡ number test (keep (is_in_interval i) history))
  kept_in_order history i test =
      let both = λ (s : Sample P W). IsAmong s history × (is_in_interval i s ≡ true) in
      let kept = keep (is_in_interval i) history in
      let back =
        reverse-All both kept
          (keep-All (is_in_interval i) (λ s. IsAmong s history) history (IsAmong-All history)) in
      let all =
        keep_all (is_in_interval i) (reverse kept)
          (All-map both _ (reverse kept) (λ s b. b.1) back) in
      (
        All-map both _ (reverse kept) (λ s b. b.0) back,
        ap (λ zs. length (keep test zs)) all ∙ number-reverse test kept,
      )
