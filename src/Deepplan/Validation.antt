-- ===== src/Deepplan/Validation.antt =====
-- What validate_layers accepts.
use jetson_dlagreen.Deepplan.Moves.{IsIndexed}
use jetson_dlagreen.Common.{
  ℕ, ◌∷◌, [], suc, ◌≡◌, true, List, ok, All, Bool, refl, arith, false, >>=-eq-ok, ◌&&◌, not,
  require, subst, value_error, ok_injective, require-true,
}
use jetson_dlagreen.Common.Int.{pos, negsuc, ltb_ℤ}
use jetson_dlagreen.Common.Json.{Items, Json, null, bool, int, float, str, arr, obj, elements, keys}
use jetson_dlagreen.Common.Float.{Float, IsIeee, nought, ◌≼◌}
use jetson_dlagreen.Planner.{Builtins}
use jetson_dlagreen.Deepplan.{
  Layer, time_of, validate_layer, validate_from, validate_layers, all_in, required_keys,
  check_index, field_of, nonempty_text, size_of,
}
use jetson_dlagreen.Deepplan.Trace.{IsTime, HasTimes}

-- float(n) of a number that is not negative is not negative.
abbrev pub IsConversion : {W : Type 0} ⦃d : Float W⦄ → Builtins W → Type 0
IsConversion {W} b = (n : ℕ) (x : W) → b.of_int (pos n) ≡ ok x → nought ≼ x

module _ {W : Type 0} ⦃d : Float W⦄ (laws : IsIeee W) (b : Builtins W)
    (conversion : IsConversion b) where
  both_of : (x y : Bool) → (x && not y) ≡ true → (x ≡ true) × (y ≡ false)
  both_of x y h = ground arith

  time_of-IsTime : (value : Json W) (x : W) → time_of b value ≡ ok x → IsTime x
  unfolding time_of
  time_of-IsTime (int (pos n)) x h =
      let (y, e, h1) = >>=-eq-ok (b.of_int (pos n)) _ h in
      let (u, r, h2) =
        >>=-eq-ok
          (require (d.is_finite y && not (ltb_ℤ (pos n) (pos 0)))
            (value_error "must be finite and nonnegative"))
          _ h1 in
      let (f, g) = both_of _ _ (require-true (d.is_finite y && not (ltb_ℤ (pos n) (pos 0))) _ r) in
      subst IsTime (ok_injective h2) (f, conversion n y e)
  time_of-IsTime (int (negsuc n)) x h =
      let (y, e, h1) = >>=-eq-ok (b.of_int (negsuc n)) _ h in
      let (u, r, h2) =
        >>=-eq-ok
          (require (d.is_finite y && not (ltb_ℤ (negsuc n) (pos 0)))
            (value_error "must be finite and nonnegative"))
          _ h1 in
      let (f, g) =
        both_of _ _ (require-true (d.is_finite y && not (ltb_ℤ (negsuc n) (pos 0))) _ r) in
      absurd (ground arith)
  time_of-IsTime (float y) x h =
      let (u, r, h1) =
        >>=-eq-ok
          (require (d.is_finite y && not (d.lt y nought))
            (value_error "must be finite and nonnegative"))
          _ h in
      let (f, g) = both_of _ _ (require-true (d.is_finite y && not (d.lt y nought)) _ r) in
      let number = laws.number_of_finite y f in
      subst IsTime (ok_injective h1)
        (f, ground (arith, laws.lt-eq-not-le y nought number (laws.decimal_number 0 0)))
  time_of-IsTime null x h = cc
  time_of-IsTime (bool v) x h = cc
  time_of-IsTime (str s) x h = cc
  time_of-IsTime (arr xs) x h = cc
  time_of-IsTime (obj fs) x h = cc

  validate_layer-IsAt :
      (i : ℕ) (source : Json W) (l : Layer W)
      → validate_layer b i source ≡ ok l
      → (l.index ≡ i) × HasTimes l
  unfolding validate_layer
  validate_layer-IsAt i (obj fields) l h =
      let (u, k, h1) =
        >>=-eq-ok
          (require (all_in (keys fields) required_keys && all_in required_keys (keys fields))
            (value_error "each layer must have the exact DeepPlan profile schema"))
          _ h in
      let (v, c, h2) = >>=-eq-ok (check_index i (field_of "index" fields)) _ h1 in
      let (t, e, h3) =
        >>=-eq-ok (nonempty_text (field_of "layer_type" fields) "layer_type must be nonempty") _
          h2 in
      let (n, z, h4) = >>=-eq-ok (size_of (field_of "size_bytes" fields)) _ h3 in
      let (x, p, h5) = >>=-eq-ok (time_of b (field_of "load_time_us" fields)) _ h4 in
      let (y, q, h6) = >>=-eq-ok (time_of b (field_of "cuda_exec_time_us" fields)) _ h5 in
      let (w, r, h7) = >>=-eq-ok (time_of b (field_of "cuda_host_exec_time_us" fields)) _ h6 in
      subst (λ z. (z.index ≡ i) × HasTimes z) (ok_injective h7)
        (refl, (time_of-IsTime _ x p, time_of-IsTime _ y q, time_of-IsTime _ w r))
  validate_layer-IsAt i null l h = cc
  validate_layer-IsAt i (bool v) l h = cc
  validate_layer-IsAt i (int n) l h = cc
  validate_layer-IsAt i (float x) l h = cc
  validate_layer-IsAt i (str s) l h = cc
  validate_layer-IsAt i (arr xs) l h = cc

  validate_from-IsIndexed :
      (i : ℕ) (sources : List (Json W)) (layers : List (Layer W))
      → validate_from b i sources ≡ ok layers
      → IsIndexed i layers × All HasTimes layers
  unfolding validate_from
  validate_from-IsIndexed i [] layers h =
      subst (λ z. IsIndexed i z × All HasTimes z) (ok_injective h) (tt, tt)
  validate_from-IsIndexed i (source ∷ sources) layers h =
      let (l, e, h1) = >>=-eq-ok (validate_layer b i source) _ h in
      let (rest, r, h2) = >>=-eq-ok (validate_from b (suc i) sources) _ h1 in
      let (at, t) = validate_layer-IsAt i source l e in
      let (xs, ts) = validate_from-IsIndexed (suc i) sources rest r in
      subst (λ z. IsIndexed i z × All HasTimes z) (ok_injective h2) ((at, xs), (t, ts))

  -- A profile that is accepted has its layers at their indices, with finite times that are not
  -- negative.
  pub validate_layers-IsIndexed :
      (value : Json W) (layers : List (Layer W))
      → validate_layers b value ≡ ok layers
      → IsIndexed 0 layers × All HasTimes layers
  unfolding validate_layers
  validate_layers-IsIndexed (arr (Items.cons x xs)) layers h =
      validate_from-IsIndexed 0 (x ∷ elements xs) layers h
  validate_layers-IsIndexed (arr Items.nil) layers h = cc
  validate_layers-IsIndexed null layers h = cc
  validate_layers-IsIndexed (bool v) layers h = cc
  validate_layers-IsIndexed (int n) layers h = cc
  validate_layers-IsIndexed (float x) layers h = cc
  validate_layers-IsIndexed (str s) layers h = cc
  validate_layers-IsIndexed (obj fs) layers h = cc
