-- ===== src/Telemetry/Retention.antt =====
-- What the monitor retains of the history of its samples.
use jetson_dlagreen.Common.{
  ℕ, suc, ◌∷◌, [], none, some, true, false, List, ◌≡◌, All, Option, ◌≤◌, ◌++◌, length, ◌⊎◌, ap,
  refl, arith, subst, ◌∙◌, if_either, sym, append_assoc, All-map, Result, ok, err,
}
use jetson_dlagreen.Telemetry.{Sample, regresses, Writer}
use jetson_dlagreen.Telemetry.Monitor.{
  Monitor, append_sample, but_last, last_item, stamped, is_full, appended_full, check_entry,
  appended, after_write,
}

module _ {P W : Type 0} where
  -- The timestamp of the newest of the samples.
  abbrev pub newest_ns : List (Sample P W) → Option ℕ
  newest_ns [] = none
  newest_ns (s ∷ older) = some s.monotonic_ns

  -- Each sample is no older than those behind it.
  abbrev pub NewestFirst : List (Sample P W) → Type 0
  NewestFirst [] = Unit {0}
  NewestFirst (s ∷ older) = All (λ t. t.monotonic_ns ≤ s.monotonic_ns) older × NewestFirst older

  -- No sample is newer than the last timestamp.
  abbrev pub NoneLater : Option ℕ → List (Sample P W) → Type 0
  NoneLater none history = history ≡ []
  NoneLater (some last) history = All (λ s. s.monotonic_ns ≤ last) history

-- Of a positive capacity, as much as fits.
abbrev pub WithinCapacity : Option ℕ → ℕ → ℕ → Type 0
WithinCapacity none retained dropped = dropped ≡ 0
WithinCapacity (some capacity) retained dropped =
    (1 ≤ capacity) × (retained ≤ capacity) × ((dropped ≡ 0) ⊎ (retained ≡ capacity))

module _ {P M W : Type 0} where
  -- The monitor retains the newest samples of the history and accounts for the others.
  pub record Retains (history : List (Sample P W)) (m : Monitor P M W) : Type 0 where
    pub dropped : List (Sample P W)
    pub is_all : history ≡ m.newest_first ++ dropped
    pub is_counted : m.dropped_samples ≡ length dropped
    pub is_last_dropped : m.last_dropped_sample_ns ≡ newest_ns dropped
    pub is_newest_first : NewestFirst history
    pub is_current : NoneLater m.last_monotonic_ns history
    pub is_within : WithinCapacity m.max_samples (length m.newest_first) (length dropped)

split_last : {A : Type 0} (x : A) (xs : List A) → x ∷ xs ≡ but_last x xs ++ (last_item x xs ∷ [])
split_last x [] = refl
split_last x (y ∷ ys) = ap (λ zs. x ∷ zs) (split_last y ys)

length-but_last : {A : Type 0} (x : A) (xs : List A) → length (but_last x xs) ≡ length xs
length-but_last x [] = refl
length-but_last x (y ∷ ys) = ap suc (length-but_last y ys)

within_one :
    (capacity : Option ℕ) (dropped : ℕ)
    → WithinCapacity capacity 0 dropped
    → WithinCapacity capacity 1 dropped
within_one none dropped h = h
within_one (some capacity) dropped h = ground arith

within_full :
    (capacity : Option ℕ) (retained dropped : ℕ)
    → is_full capacity retained ≡ true
    → WithinCapacity capacity retained dropped
    → WithinCapacity capacity retained (suc dropped)
within_full none retained dropped e h = cc
within_full (some capacity) retained dropped e h = ground arith

within_room :
    (capacity : Option ℕ) (retained dropped : ℕ)
    → is_full capacity retained ≡ false
    → WithinCapacity capacity retained dropped
    → WithinCapacity capacity (suc retained) dropped
within_room none retained dropped e h = h
within_room (some capacity) retained dropped e h = ground arith

-- Each sample is at most as late as a timestamp that does not regress.
none_later :
    {P W : Type 0} (last : Option ℕ) (timestamp : ℕ) (history : List (Sample P W))
    → regresses last timestamp ≡ false
    → NoneLater last history
    → All (λ s. s.monotonic_ns ≤ timestamp) history
none_later none timestamp history e h = subst (All (λ s. s.monotonic_ns ≤ timestamp)) (sym h) tt
none_later (some last) timestamp history e h = All-map _ _ history (λ s k. ground (arith, k)) h

module _ {P M W : Type 0} where
  append-Retains :
      (history : List (Sample P W)) (m : Monitor P M W) (s : Sample P W) (xs : List (Sample P W))
      → m.newest_first ≡ xs
      → Retains history m
      → All (λ t. t.monotonic_ns ≤ s.monotonic_ns) history
      → Retains (s ∷ history) (stamped s.monotonic_ns (append_sample xs s) m)
  unfolding append_sample
  append-Retains history m s [] e r newer = record {
    dropped = r.dropped;
    is_all = ap (λ zs. s ∷ zs) (r.is_all ∙ ap (λ zs. zs ++ r.dropped) e);
    is_counted = r.is_counted;
    is_last_dropped = r.is_last_dropped;
    is_newest_first = (newer, r.is_newest_first);
    is_current = (omega arith, newer);
    is_within =
        within_one m.max_samples (length r.dropped)
          (subst (λ zs. WithinCapacity m.max_samples (length zs) (length r.dropped)) e r.is_within);
  }
  append-Retains history m s (x ∷ xs) e r newer =
      let kept =
        subst (λ zs. WithinCapacity m.max_samples (length zs) (length r.dropped)) e r.is_within in
      let all = r.is_all ∙ ap (λ zs. zs ++ r.dropped) e in
      if_either (λ n. Retains (s ∷ history) (record n { last_monotonic_ns = some s.monotonic_ns }))
        (is_full m.max_samples (length (x ∷ xs))) (appended_full x xs s m) (appended (x ∷ xs) s m)
        (λ full. record {
          dropped = last_item x xs ∷ r.dropped;
          is_all =
              ap (λ zs. s ∷ zs)
                (all
                  ∙ ap (λ zs. zs ++ r.dropped) (split_last x xs)
                  ∙ append_assoc (but_last x xs) (last_item x xs ∷ []) r.dropped);
          is_counted = omega (arith, r.is_counted);
          is_last_dropped = refl;
          is_newest_first = (newer, r.is_newest_first);
          is_current = (omega arith, newer);
          is_within =
              subst (λ n. WithinCapacity m.max_samples (suc n) (suc (length r.dropped)))
                (sym (length-but_last x xs))
                (within_full m.max_samples (length (x ∷ xs)) (length r.dropped) full kept);
        })
        (λ room. record {
          dropped = r.dropped;
          is_all = ap (λ zs. s ∷ zs) all;
          is_counted = r.is_counted;
          is_last_dropped = r.is_last_dropped;
          is_newest_first = (newer, r.is_newest_first);
          is_current = (omega arith, newer);
          is_within = within_room m.max_samples (length (x ∷ xs)) (length r.dropped) room kept;
        })

  -- The history and the monitor after a call that records a sample, or fails.
  abbrev pub noted :
      List (Sample P W) → Monitor P M W × Result (Sample P W) → List (Sample P W) × Monitor P M W
  noted history (m, err e) = (history, m)
  noted history (m, ok s) = (s ∷ history, m)

  abbrev pub RetainsAll : List (Sample P W) × Monitor P M W → Type 0
  RetainsAll (history, m) = Retains history m

  pub writer-Retains :
      (history : List (Sample P W)) (m : Monitor P M W) (w : Writer)
      → Retains history m
      → Retains history (record m { writer = w })
  writer-Retains history m w r = record {
    dropped = r.dropped;
    is_all = r.is_all;
    is_counted = r.is_counted;
    is_last_dropped = r.is_last_dropped;
    is_newest_first = r.is_newest_first;
    is_current = r.is_current;
    is_within = r.is_within;
  }

  pub after_write-Retains :
      (history : List (Sample P W)) (m : Monitor P M W) (s : Sample P W)
      (w : Writer × Result (Unit {0}))
      → Retains history m
      → All (λ t. t.monotonic_ns ≤ s.monotonic_ns) history
      → RetainsAll (
          noted history
            (after_write m w (stamped s.monotonic_ns (append_sample m.newest_first s)) s))
  after_write-Retains history m s (w, err e) r newer = writer-Retains history m w r
  after_write-Retains history m s (w, ok done) r newer =
      append-Retains history (record m { writer = w }) s m.newest_first refl
        (writer-Retains history m w r) newer

  pub check_entry-newer :
      (history : List (Sample P W)) (m : Monitor P M W) (timestamp : ℕ) (u : Unit {0})
      → check_entry m timestamp ≡ ok u
      → Retains history m
      → All (λ t. t.monotonic_ns ≤ timestamp) history
  unfolding check_entry
  check_entry-newer history m timestamp u h r =
      none_later m.last_monotonic_ns timestamp history (ground (arith, h)) r.is_current
