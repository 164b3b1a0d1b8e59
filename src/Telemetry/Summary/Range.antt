-- ===== src/Telemetry/Summary/Range.antt =====
-- A numeric summary: that it is returned, and that its ends bound the values.
use jetson_dlagreen.Common.Sorting.{keep-All, sort_by-All, IsAmong-All}
use jetson_dlagreen.Common.Dict.{IsAmong}
use jetson_dlagreen.Common.Float.{IsIeee, nought, ◌≼◌}
use jetson_dlagreen.Common.Sorting.Ordered.{IsOrdered, sort_by-IsOrdered, length-sort_by}
use jetson_dlagreen.Telemetry.Summary.{
  Statistics, NumericSummary, numeric_summary, summary_of, percentile, interpolated, index_of,
  last_item, Float, keep, sort_by,
}
use jetson_dlagreen.Common.{
  ℕ, zero, suc, ◌∷◌, [], none, some, ok, List, All, ◌≡◌, ◌≤◌, ◌<◌, length, arith, true, ◌*◌, refl,
  false, ◌^◌, ◌⊎◌, if◌then◌else◌, inl, ◌==◌, Bool, inr, All-map, ◌∙◌, subst, sym, Result, Option,
}

index_of-ok : {A : Type 0} (xs : List A) (i : ℕ) → i < length xs → (x : A) × (index_of xs i ≡ ok x)
index_of-ok [] i h = absurd (omega arith)
index_of-ok (x ∷ xs) zero h = (x, refl)
index_of-ok (x ∷ xs) (suc i) h = index_of-ok xs i (omega arith)

module _ {W : Type 0} ⦃d : Float W⦄ where
  -- math.floor and math.ceil of a float between zero and n are at most n.
  pub record IsRounding (b : Statistics W) : Type 0 where
    pub floor_within : (x : W) (n : ℕ) → nought ≼ x → x ≼ d.decimal n 0 → b.floor x ≤ n
    pub ceil_within : (x : W) (n : ℕ) → nought ≼ x → x ≼ d.decimal n 0 → b.ceil x ≤ n

  -- The count of the finite values, and the least and the greatest of them.
  pub record IsSummary (values : List W) (s : NumericSummary W) : Type 0 where
    pub counts : s.count ≡ length (keep d.is_finite values)
    pub least_among : IsAmong s.min (keep d.is_finite values)
    pub least : All (λ v. s.min ≼ v) (keep d.is_finite values)
    pub greatest_among : IsAmong s.max (keep d.is_finite values)
    pub greatest : All (λ v. v ≼ s.max) (keep d.is_finite values)

  -- No value is finite and there is no summary, or there is the summary of the finite values.
  abbrev pub IsSummarized : List W → Result (Option (NumericSummary W)) → Type 0
  IsSummarized values result =
      ((keep d.is_finite values ≡ []) × (result ≡ ok none))
      ⊎ ((s : NumericSummary W) × (result ≡ ok (some s)) × IsSummary values s)

  abbrev IsFinite : W → Type 0
  IsFinite x = d.is_finite x ≡ true

module _ {W : Type 0} ⦃d : Float W⦄ (laws : IsIeee W) where
  not_less : (x y : W) → IsFinite x → IsFinite y → d.lt y x ≡ false → x ≼ y
  not_less x y f g e =
      let decided = laws.lt-eq-not-le y x (laws.number_of_finite y g) (laws.number_of_finite x f) in
      ground (arith, e, decided)

  last_item-greatest :
      (x : W) (xs : List W)
      → All IsFinite (x ∷ xs)
      → IsOrdered ◌≼◌ (x ∷ xs)
      → All (λ v. v ≼ last_item x xs) (x ∷ xs)
  last_item-greatest x [] (f, fs) h = (laws.number_of_finite x f, tt)
  last_item-greatest x (y ∷ ys) (f, fs) ((h, hs), k) =
      let (to_last, others) = last_item-greatest y ys fs k in
      (laws.le_trans x y _ h to_last, (to_last, others))

empty : {A : Type 0} (xs : List A) → 0 ≡ length xs → xs ≡ []
empty [] h = refl
empty (x ∷ xs) h = absurd (omega (arith, h))

kept : {A : Type 0} (test : A → Bool) (xs : List A) → All (λ x. test x ≡ true) (keep test xs)
kept test xs =
    All-map (λ x. IsAmong x xs × (test x ≡ true)) _ (keep test xs) (λ x h. h.1)
      (keep-All test (λ x. IsAmong x xs) xs (IsAmong-All xs))

last_item-All :
    {A : Type 0} (P : A → Type 0) (x : A) (xs : List A) → P x → All P xs → P (last_item x xs)
last_item-All P x [] h hs = h
last_item-All P x (y ∷ ys) h (k, ks) = last_item-All P y ys k ks

module _ {W : Type 0} ⦃d : Float W⦄ (b : Statistics W) where
  interpolated-ok :
      (position : W) (lower upper : ℕ) (ordered : List W) (below above : W)
      → index_of ordered lower ≡ ok below
      → index_of ordered upper ≡ ok above
      → (p : W) × (interpolated b position lower upper ordered ≡ ok p)
  unfolding interpolated
  interpolated-ok position lower upper ordered below above e f =
      let weight = d.sub position (d.decimal lower 0) in
      (
        if lower == upper
            then below
            else d.add (d.mul below (d.sub (d.decimal 1 0) weight)) (d.mul above weight),
        rw (e, f) refl,
      )

module _ {W : Type 0} ⦃d : Float W⦄ (laws : IsIeee W) (b : Statistics W)
    (rounds : IsRounding b) where
  percentile-ok :
      (x : W) (xs : List W) (m k : ℕ)
      → m ≤ 1 * 10 ^ k
      → (p : W) × (percentile b (x ∷ xs) (d.decimal m k) ≡ ok p)
  unfolding percentile
  percentile-ok x [] m k h = (x, refl)
  percentile-ok x (y ∷ ys) m k h =
      let n = length (y ∷ ys) in
      let position = d.mul (d.decimal m k) (d.decimal n 0) in
      let (least, most) =
        laws.mul_within (d.decimal m k) (d.decimal n 0) (laws.decimal_nonneg m k)
          (laws.decimal_le m k 1 h) (laws.decimal_nonneg n 0) (laws.decimal_finite n 0) in
      let (below, e) =
        index_of-ok (x ∷ y ∷ ys) (b.floor position)
          (omega (arith, rounds.floor_within position n least most)) in
      let (above, f) =
        index_of-ok (x ∷ y ∷ ys) (b.ceil position)
          (omega (arith, rounds.ceil_within position n least most)) in
      interpolated-ok b position (b.floor position) (b.ceil position) (x ∷ y ∷ ys) below above e f

  -- The summary of values in order.
  summary_of-IsRange :
      (x : W) (ordered : List W)
      → (s : NumericSummary W) × (summary_of b (x ∷ ordered) ≡ ok (some s))
        × (s.count ≡ length (x ∷ ordered))
        × (s.min ≡ x)
        × (s.max ≡ last_item x ordered)
  unfolding summary_of
  summary_of-IsRange x ordered =
      let (p50, e) = percentile-ok x ordered 50 2 (omega arith) in
      let (p95, f) = percentile-ok x ordered 95 2 (omega arith) in
      (
        record {
          count = length (x ∷ ordered);
          mean = b.fmean (x ∷ ordered);
          min = x;
          p50 = p50;
          p95 = p95;
          max = last_item x ordered;
        },
        rw (e, f) refl,
        refl,
        refl,
        refl,
      )

  -- What sorting keeps of the finite values.
  abbrev IsSortOf : List W → List W → Type 1
  IsSortOf finite ordered =
      (length ordered ≡ length finite)
      × All IsFinite ordered
      × All (λ v. IsAmong v finite) ordered
      × IsOrdered ◌≼◌ ordered
      × ((P : W → Type 0) → All P ordered → All P finite)

  ordered-IsSummary :
      (values ordered : List W)
      → IsSortOf (keep d.is_finite values) ordered
      → IsSummarized values (summary_of b ordered)
  unfolding summary_of
  ordered-IsSummary values [] h = inl (empty (keep d.is_finite values) h.0, refl)
  ordered-IsSummary values (x ∷ ordered) (same, finite, among, sorted, back) =
      let (s, e, counts, least, greatest) = summary_of-IsRange x ordered in
      inr (
        s,
        e,
        record {
          counts = counts ∙ same;
          least_among = subst (λ v. IsAmong v (keep d.is_finite values)) (sym least) among.0;
          least =
              subst (λ m. All (λ v. m ≼ v) (keep d.is_finite values)) (sym least)
                (back (λ v. x ≼ v) (laws.number_of_finite x finite.0, sorted.0));
          greatest_among =
              subst (λ v. IsAmong v (keep d.is_finite values)) (sym greatest)
                (last_item-All (λ v. IsAmong v (keep d.is_finite values)) x ordered among.0
                  among.1);
          greatest =
              subst (λ m. All (λ v. v ≼ m) (keep d.is_finite values)) (sym greatest)
                (back (λ v. v ≼ last_item x ordered)
                  (last_item-greatest laws x ordered finite sorted));
        },
      )

  -- Under the float laws, with a floor and a ceiling that keep a float between zero and n to at most
  -- n, _numeric_summary returns for every list of values: None if none is finite, and otherwise the
  -- number of the finite values, the least and the greatest of them.
  pub numeric_summary-IsSummary : (values : List W) → IsSummarized values (numeric_summary b values)
  unfolding numeric_summary
  numeric_summary-IsSummary values =
      let finite = keep d.is_finite values in
      let all = kept d.is_finite values in
      ordered-IsSummary values (sort_by d.lt finite) (
        length-sort_by d.lt finite,
        (sort_by-All d.lt IsFinite finite).0 all,
        (sort_by-All d.lt (λ v. IsAmong v finite) finite).0 (IsAmong-All finite),
        sort_by-IsOrdered d.lt ◌≼◌ IsFinite laws.le_trans laws.le_of_lt (not_less laws) finite all,
        λ P h. (sort_by-All d.lt P finite).1 h,
      )
