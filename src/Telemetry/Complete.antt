-- ===== src/Telemetry/Complete.antt =====
-- A query of the monitor answers as the whole history would, if nothing that it asks for was dropped.
use jetson_dlagreen.Telemetry.Runs.{run_calls, new_monitor-Retains}
use jetson_dlagreen.Common.Sorting.{IsAmong-append, IsAmong-All, keep-All}
use jetson_dlagreen.Telemetry.Healthy.{reverse-All}
use jetson_dlagreen.Telemetry.Retention.{NewestFirst, Retains, newest_ns}
use jetson_dlagreen.Common.Dict.{keep, IsAmong}
use mathlib.Core.List.{reverse}
use jetson_dlagreen.Common.{
  ℕ, zero, suc, ◌∷◌, [], none, some, inl, inr, Bool, true, false, String, List, ◌<◌, leb, Option,
  ◌≡◌, ◌++◌, All, ltb, take, All-append_split, ◌≤◌, not, length, Bool-cases, refl, arith,
  if◌then◌else◌, ◌==◌, ◌-◌, take-nil, subst, ap, ok, ◌∙◌, Result, append-nil, >>=-eq-ok, sym,
  require, value_error, ok_injective, All-map, ◌&&◌,
}
use jetson_dlagreen.Common.Float.{Float}
use jetson_dlagreen.Common.Int.{ℤ, pos_part, pos, ltb_ℤ, ◌≤ℤ◌, negsuc}
use jetson_dlagreen.Telemetry.{Sample, Entry, Writer, validated_monotonic_ns}
use jetson_dlagreen.Telemetry.Monitor.{Monitor, Call, new_monitor}
use jetson_dlagreen.Telemetry.Window.{
  scan, Interval, is_after, no_room, selected, one_less, reaches_back, SampleWindow,
  sample_window_locked, sample_window, checked_limit, is_in_interval,
}

none_more : (n : ℕ) → ltb n 0 ≡ false
none_more n = ground arith

abbrev pub asked_limit : Option ℤ → Option ℕ
asked_limit none = none
asked_limit (some n) = some (pos_part n)

asked_limit-checked :
    (limit : Option ℤ) (room : Option ℕ) → checked_limit limit ≡ ok room → asked_limit limit ≡ room
asked_limit-checked none room h = ok_injective h
asked_limit-checked (some (pos zero)) room h = cc
asked_limit-checked (some (pos (suc n))) room h = ok_injective h
asked_limit-checked (some (negsuc n)) room h = cc

start_le :
    (start_ns : ℤ) (start n : ℕ)
    → validated_monotonic_ns start_ns ≡ ok start
    → start ≤ n
    → start_ns ≤ℤ pos n
start_le (pos k) start n e h = ground (arith, ok_injective {x = k} {y = start})
start_le (negsuc k) start n e h = cc

module _ {P W : Type 0} where
  -- The first of the samples, up to the limit; and whether there are more.
  abbrev pub limited : Option ℕ → List (Sample P W) → List (Sample P W)
  limited none samples = samples
  limited (some n) samples = take n samples

  abbrev pub exceeds : Option ℕ → List (Sample P W) → Bool
  exceeds none samples = false
  exceeds (some n) samples = ltb n (length samples)

  pub keep-append :
      (test : Sample P W → Bool) (xs ys : List (Sample P W))
      → keep test (xs ++ ys) ≡ keep test xs ++ keep test ys
  keep-append test [] ys = refl
  keep-append test (x ∷ xs) ys = elim (Bool-cases (test x)) [
    | inl e ↦ rw (e, keep-append test xs ys) refl
    | inr e ↦ rw (e, keep-append test xs ys) refl
  ]

  keep_early :
      (i : Interval) (bound : ℕ) (xs : List (Sample P W))
      → bound < i.start_ns
      → All (λ s. s.monotonic_ns ≤ bound) xs
      → keep (is_in_interval i) xs ≡ []
  keep_early i bound [] h k = refl
  keep_early i bound (x ∷ xs) h (k, ks) =
      let early : leb i.start_ns x.monotonic_ns ≡ false = ground arith in
      rw early (keep_early i bound xs h ks)

  NewestFirst-append :
      (xs ys : List (Sample P W)) → NewestFirst (xs ++ ys) → NewestFirst xs × NewestFirst ys
  NewestFirst-append [] ys h = (tt, h)
  NewestFirst-append (x ∷ xs) ys (h, hs) =
      let (left, right) = NewestFirst-append xs ys hs in
      (((All-append_split _ xs ys h).0, left), right)

  -- The loop from a sample of the interval.
  scan_within :
      (i : Interval) (room : Option ℕ) (x : Sample P W) (xs kept : List (Sample P W))
      → ((r : Option ℕ) → scan i r xs ≡ (limited r kept, exceeds r kept))
      → (if no_room room then ([], true) else selected x (scan i (one_less room) xs))
        ≡ (limited room (x ∷ kept), exceeds room (x ∷ kept))
  scan_within i none x xs kept ih = rw (ih none) refl
  scan_within i (some zero) x xs kept ih =
      let more : ltb 0 (suc (length kept)) ≡ true = ground arith in rw more refl
  scan_within i (some (suc n)) x xs kept ih =
      let some_room : (suc n == 0) ≡ false = ground arith in
      let less : suc n - 1 ≡ n = omega arith in
      let shift : ltb (suc n) (suc (length kept)) ≡ ltb n (length kept) = ground arith in
      rw (some_room, less, ih (some n), shift) refl

  ended :
      (room : Option ℕ)
      → ◌≡◌ {A = List (Sample P W) × Bool} ([], false) (limited room [], exceeds room [])
  ended none = refl
  ended (some n) = rw (take-nil {A = Sample P W} n, none_more n) refl

  scan-keep :
      (i : Interval) (room : Option ℕ) (xs : List (Sample P W))
      → NewestFirst xs
      → scan i room xs
        ≡ (limited room (keep (is_in_interval i) xs), exceeds room (keep (is_in_interval i) xs))
  unfolding scan
  scan-keep i room [] h = ended room
  scan-keep i room (x ∷ xs) (h, hs) = elim (Bool-cases (is_after i x.monotonic_ns)) [
    | inl e ↦
        let outside : is_in_interval i x ≡ false = ground (arith, e) in
        rw (outside, e) (scan-keep i room xs hs)
    | inr e ↦ elim (Bool-cases (ltb x.monotonic_ns i.start_ns)) [
      | inl f ↦
          let outside : is_in_interval i x ≡ false = ground (arith, f) in
          rw (outside, e, f, keep_early i x.monotonic_ns xs (ground (arith, f)) h) (ended room)
      | inr f ↦
          let inside : is_in_interval i x ≡ true = ground (arith, e, f) in
          rw (inside, e, f)
            (scan_within i room x xs (keep (is_in_interval i) xs) (λ r. scan-keep i r xs hs))
    ]
  ]

  abbrev pub in_order : Bool → List (Sample P W) → List (Sample P W)
  in_order in_reverse samples = if in_reverse then samples else reverse samples

  -- The answer that a query of an interval has by the whole history: complete, up to the limit, or a
  -- sample that was asked for is dropped and the answer says so.
  pub record Answers (history : List (Sample P W)) (i : Interval) (in_reverse : Bool)
      (limit : Option ℕ) (w : SampleWindow P W) : Type 0 where
    pub is_complete :
        w.interval_complete ≡ true
        → (w.samples ≡ in_order in_reverse (limited limit (keep (is_in_interval i) history)))
          × (w.limit_reached ≡ exceeds limit (keep (is_in_interval i) history))
    pub is_truncated :
        w.interval_complete ≡ false
        → (s : Sample P W) × IsAmong s history
          × (i.start_ns ≤ s.monotonic_ns)
          × (1 ≤ w.dropped_samples)

  -- A sample's time is at or after the start and before the end, or at it if it counts.
  abbrev pub lies_in : ℤ → ℤ → Bool → Sample P W → Bool
  lies_in start_ns end_ns end_inclusive s =
      not (ltb_ℤ (pos s.monotonic_ns) start_ns)
      && (if end_inclusive
          then not (ltb_ℤ end_ns (pos s.monotonic_ns))
          else ltb_ℤ (pos s.monotonic_ns) end_ns)

  -- The answer to a query, by its arguments and the whole history.
  pub record IsAnswer (history : List (Sample P W)) (start_ns end_ns : ℤ)
      (end_inclusive in_reverse : Bool) (limit : Option ℤ) (w : SampleWindow P W) : Type 0 where
    pub is_complete :
        w.interval_complete ≡ true
        → (w.samples
            ≡ in_order in_reverse (
                limited (asked_limit limit) (keep (lies_in start_ns end_ns end_inclusive) history)))
          × (w.limit_reached
              ≡ exceeds (asked_limit limit) (keep (lies_in start_ns end_ns end_inclusive) history))
    pub is_truncated :
        w.interval_complete ≡ false
        → (s : Sample P W) × IsAmong s history
          × (start_ns ≤ℤ pos s.monotonic_ns)
          × (1 ≤ w.dropped_samples)

  pub keep_same :
      (test other : Sample P W → Bool) (xs : List (Sample P W))
      → ((s : Sample P W) → test s ≡ other s)
      → keep test xs ≡ keep other xs
  keep_same test other [] h = refl
  keep_same test other (x ∷ xs) h = rw (h x, keep_same test other xs h) refl

  -- The interval of arguments that passed the checks.
  pub is_in_interval-lies_in :
      (start_ns end_ns : ℤ) (end_inclusive : Bool) (start end : ℕ)
      → validated_monotonic_ns start_ns ≡ ok start
      → validated_monotonic_ns end_ns ≡ ok end
      → (s : Sample P W)
      → is_in_interval (record { start_ns = start; end_ns = end; end_inclusive = end_inclusive }) s
        ≡ lies_in start_ns end_ns end_inclusive s
  is_in_interval-lies_in (negsuc n) end_ns end_inclusive start end e f s = cc
  is_in_interval-lies_in (pos n) (negsuc k) end_inclusive start end e f s = cc
  is_in_interval-lies_in (pos n) (pos k) true start end e f s =
      ground (arith, ok_injective {x = n} {y = start}, ok_injective {x = k} {y = end})
  is_in_interval-lies_in (pos n) (pos k) false start end e f s =
      ground (arith, ok_injective {x = n} {y = start}, ok_injective {x = k} {y = end})

  Answers-IsAnswer :
      (history : List (Sample P W)) (start_ns end_ns : ℤ) (end_inclusive in_reverse : Bool)
      (limit : Option ℤ) (start end : ℕ) (room : Option ℕ) (w : SampleWindow P W)
      → validated_monotonic_ns start_ns ≡ ok start
      → validated_monotonic_ns end_ns ≡ ok end
      → checked_limit limit ≡ ok room
      → Answers history
          (record { start_ns = start; end_ns = end; end_inclusive = end_inclusive })
          in_reverse
          room
          w
      → IsAnswer history start_ns end_ns end_inclusive in_reverse limit w
  Answers-IsAnswer history start_ns end_ns end_inclusive in_reverse limit start end room w e f g a =
      let i : Interval = record { start_ns = start; end_ns = end; end_inclusive = end_inclusive } in
      let kept =
        keep_same (is_in_interval i) (lies_in start_ns end_ns end_inclusive) history
          (is_in_interval-lies_in start_ns end_ns end_inclusive start end e f) in
      let asked = asked_limit-checked limit room g in
      record {
        is_complete = λ c.
            let (samples, reached) = a.is_complete c in
            (
              samples
                  ∙ ap (λ zs. in_order in_reverse (limited room zs)) kept
                  ∙ ap
                      (λ l.
                        in_order in_reverse
                          (limited l (keep (lies_in start_ns end_ns end_inclusive) history)))
                      (sym asked),
              reached
                  ∙ ap (exceeds room) kept
                  ∙ ap (λ l. exceeds l (keep (lies_in start_ns end_ns end_inclusive) history))
                      (sym asked),
            );
        is_truncated = λ c.
            let (s, m, after, dropped) = a.is_truncated c in
            (s, m, start_le start_ns start s.monotonic_ns e after, dropped);
      }

  dropped_early :
      (i : Interval) (dropped : List (Sample P W))
      → NewestFirst dropped
      → reaches_back (newest_ns dropped) i.start_ns ≡ false
      → keep (is_in_interval i) dropped ≡ []
  dropped_early i [] h e = refl
  dropped_early i (x ∷ xs) (h, hs) e =
      keep_early i x.monotonic_ns (x ∷ xs) (ground (arith, e)) (omega arith, h)

  dropped_late :
      (i : Interval) (retained dropped : List (Sample P W)) (count : ℕ)
      → count ≡ length dropped
      → reaches_back (newest_ns dropped) i.start_ns ≡ true
      → (s : Sample P W) × IsAmong s (retained ++ dropped)
        × (i.start_ns ≤ s.monotonic_ns)
        × (1 ≤ count)
  dropped_late i retained [] count c e = cc
  dropped_late i retained (x ∷ xs) count c e =
      (x, IsAmong-append retained (x ∷ xs) x (inl refl), ground (arith, e), omega (arith, c))

module _ {P M W : Type 0} where
  -- The query of a monitor that retains the newest of the history.
  pub sample_window_locked-Answers :
      (history : List (Sample P W)) (m : Monitor P M W) (i : Interval) (in_reverse : Bool)
      (limit : Option ℕ)
      → Retains history m
      → Answers history i in_reverse limit (sample_window_locked m i in_reverse limit)
  unfolding sample_window_locked
  sample_window_locked-Answers history m i in_reverse limit r =
      let parts =
        NewestFirst-append m.newest_first r.dropped
          (subst NewestFirst r.is_all r.is_newest_first) in
      let found = scan-keep i limit m.newest_first parts.0 in
      record {
        is_complete = λ e.
            let last : reaches_back (newest_ns r.dropped) i.start_ns ≡ false =
              subst (λ n. reaches_back n i.start_ns ≡ false) r.is_last_dropped
                (ground (arith, e)) in
            let same : keep (is_in_interval i) history ≡ keep (is_in_interval i) m.newest_first =
              ap (keep (is_in_interval i)) r.is_all
              ∙ keep-append (is_in_interval i) m.newest_first r.dropped
              ∙ ap (λ zs. keep (is_in_interval i) m.newest_first ++ zs)
                  (dropped_early i r.dropped parts.1 last)
              ∙ append-nil (keep (is_in_interval i) m.newest_first) in
            rw (same, found) (refl, refl);
        is_truncated = λ e.
            let last : reaches_back (newest_ns r.dropped) i.start_ns ≡ true =
              subst (λ n. reaches_back n i.start_ns ≡ true) r.is_last_dropped (ground (arith, e)) in
            subst
              (λ h.
                (s : Sample P W) × IsAmong s h
                × (i.start_ns ≤ s.monotonic_ns)
                × (1 ≤ m.dropped_samples))
              (sym r.is_all)
              (dropped_late i m.newest_first r.dropped m.dropped_samples r.is_counted last);
      }

  -- What a query in order and without a limit returns is of the history.
  pub sample_window-among :
      (history : List (Sample P W)) (m : Monitor P M W) (start_ns end_ns : ℤ) (end_inclusive : Bool)
      (w : SampleWindow P W)
      → Retains history m
      → sample_window m start_ns end_ns end_inclusive false none ≡ ok w
      → All (λ s. IsAmong s history) w.samples
  unfolding sample_window sample_window_locked
  sample_window-among history m start_ns end_ns end_inclusive w r h =
      let (start, e, h1) = >>=-eq-ok (validated_monotonic_ns start_ns) _ h in
      let (end, f, h2) = >>=-eq-ok (validated_monotonic_ns end_ns) _ h1 in
      let (u, ordered, h3) =
        >>=-eq-ok
          (require (not (ltb end start))
            (value_error "the telemetry query interval must not regress"))
          _ h2 in
      let i : Interval = record { start_ns = start; end_ns = end; end_inclusive = end_inclusive } in
      let parts =
        NewestFirst-append m.newest_first r.dropped
          (subst NewestFirst r.is_all r.is_newest_first) in
      let retained =
        (All-append_split (λ s. IsAmong s history) m.newest_first r.dropped
          (subst (All (λ s. IsAmong s history)) r.is_all (IsAmong-All history))).0 in
      let inside =
        All-map (λ s. IsAmong s history × (is_in_interval i s ≡ true)) (λ s. IsAmong s history)
          (keep (is_in_interval i) m.newest_first) (λ s k. k.0)
          (keep-All (is_in_interval i) (λ s. IsAmong s history) m.newest_first retained) in
      let found = scan-keep i none m.newest_first parts.0 in
      subst (λ (v : SampleWindow P W). All (λ s. IsAmong s history) v.samples) (ok_injective h3)
        (rw found
          (reverse-All (λ s. IsAmong s history) (keep (is_in_interval i) m.newest_first) inside))

  pub sample_window-IsAnswer :
      (history : List (Sample P W)) (m : Monitor P M W) (start_ns end_ns : ℤ)
      (end_inclusive in_reverse : Bool) (limit : Option ℤ) (w : SampleWindow P W)
      → Retains history m
      → sample_window m start_ns end_ns end_inclusive in_reverse limit ≡ ok w
      → IsAnswer history start_ns end_ns end_inclusive in_reverse limit w
  unfolding sample_window
  sample_window-IsAnswer history m start_ns end_ns end_inclusive in_reverse limit w r h =
      let (start, e, h1) = >>=-eq-ok (validated_monotonic_ns start_ns) _ h in
      let (end, f, h2) = >>=-eq-ok (validated_monotonic_ns end_ns) _ h1 in
      let (u, ordered, h3) =
        >>=-eq-ok
          (require (not (ltb end start))
            (value_error "the telemetry query interval must not regress"))
          _ h2 in
      let (room, g, h4) = >>=-eq-ok (checked_limit limit) _ h3 in
      Answers-IsAnswer history start_ns end_ns end_inclusive in_reverse limit start end room w e f g
        (subst
          (Answers history
            (record { start_ns = start; end_ns = end; end_inclusive = end_inclusive }) in_reverse
            room)
          (ok_injective h4)
          (sample_window_locked-Answers history m
            (record { start_ns = start; end_ns = end; end_inclusive = end_inclusive }) in_reverse
            room r))

module _ {P M W : Type 0} ⦃d : Float W⦄ (parse : List ℕ → P)
    (encode : Entry P M W → Result (List ℕ)) (blank : String → Bool) where
  -- After any calls of a new monitor, a query that returns answers from the samples that the calls
  -- returned: if it says that its interval is complete, with the newest, up to the limit asked for, of
  -- all of them that lie between the start and the end asked for, in the order asked for, and says
  -- whether there are more; and if it says otherwise, it counts a dropped sample at least, and one of
  -- the samples is at or after the start.
  pub run_calls-IsAnswer :
      (writer : Writer) (max_samples : Option ℤ) (m : Monitor P M W) (calls : List (Call M W))
      (start_ns end_ns : ℤ) (end_inclusive in_reverse : Bool) (limit : Option ℤ)
      (w : SampleWindow P W)
      → new_monitor writer max_samples ≡ ok m
      → sample_window
          (run_calls parse encode blank calls ([], m)).1
          start_ns
          end_ns
          end_inclusive
          in_reverse
          limit
        ≡ ok w
      → IsAnswer
          (run_calls parse encode blank calls ([], m)).0
          start_ns
          end_ns
          end_inclusive
          in_reverse
          limit
          w
  run_calls-IsAnswer writer max_samples m calls start_ns end_ns end_inclusive in_reverse limit w h
        e =
      let state = run_calls parse encode blank calls ([], m) in
      sample_window-IsAnswer state.0 state.1 start_ns end_ns end_inclusive in_reverse limit w
        (new_monitor-Retains parse encode blank writer max_samples m calls h) e
