-- ===== src/Telemetry/Runs.antt =====
-- Runs of the monitor from its start: what it retains of the samples that its calls returned.
use jetson_dlagreen.Telemetry.Retention.{
  Retains, RetainsAll, noted, after_write-Retains, writer-Retains, check_entry-newer,
  WithinCapacity,
}
use jetson_dlagreen.Common.{
  ℕ, zero, suc, ◌∷◌, [], none, some, inl, inr, err, ok, Bool, String, List, Result, ◌≡◌, All,
  Result-cases, ◌≤◌, if_either, >>=-eq-ok, require, Option, not, ◌++◌, value_error, subst,
  ok_injective, refl, arith,
}
use jetson_dlagreen.Common.Float.{Float}
use jetson_dlagreen.Common.Int.{ℤ, pos, negsuc}
use jetson_dlagreen.Telemetry.{
  Sample, Entry, sample, marker, Outcome, Writer, Marker, write, validated_monotonic_ns,
  close_writer,
}
use jetson_dlagreen.Telemetry.Monitor.{
  Monitor, record_line, mark, close, a_line, a_mark, a_close, Available, sample_of, marker_of,
  new_monitor, Call, after_write, closed_monitor, check_entry, stamped, available_of,
  checked_capacity,
}

checked_capacity-Within :
    (max_samples : Option ℤ) (capacity : Option ℕ)
    → checked_capacity max_samples ≡ ok capacity
    → WithinCapacity capacity 0 0
checked_capacity-Within none capacity h = subst (λ c. WithinCapacity c 0 0) (ok_injective h) refl
checked_capacity-Within (some (pos (suc n))) capacity h =
    subst (λ c. WithinCapacity c 0 0) (ok_injective h) (omega arith, omega arith, inl refl)
checked_capacity-Within (some (pos zero)) capacity h = cc
checked_capacity-Within (some (negsuc n)) capacity h = cc

module _ {P M W : Type 0} ⦃d : Float W⦄ (parse : List ℕ → P)
    (encode : Entry P M W → Result (List ℕ)) (blank : String → Bool) where
  sample_of-newer :
      (history : List (Sample P W)) (m : Monitor P M W) (line : List ℕ) (at : ℤ)
      (memory : Available W) (s : Sample P W)
      → Retains history m
      → sample_of parse m line at memory ≡ ok s
      → All (λ t. t.monotonic_ns ≤ s.monotonic_ns) history
  unfolding sample_of
  sample_of-newer history m line at memory s r h =
      let (timestamp, e, h1) = >>=-eq-ok (validated_monotonic_ns at) _ h in
      let (u, checked, h2) = >>=-eq-ok (check_entry m timestamp) _ h1 in
      let (available, f, h3) = >>=-eq-ok (available_of memory) _ h2 in
      subst (λ (x : Sample P W). All (λ t. t.monotonic_ns ≤ x.monotonic_ns) history)
        (ok_injective h3) (check_entry-newer history m timestamp u checked r)

  record_line-Retains :
      (history : List (Sample P W)) (m : Monitor P M W) (line : List ℕ) (at : ℤ)
      (memory : Available W) (io : Outcome)
      → Retains history m
      → RetainsAll (noted history (record_line parse encode m line at memory io))
  unfolding record_line
  record_line-Retains history m line at memory io r =
      elim (Result-cases (sample_of parse m line at memory)) [
        | inl (s, e) ↦ rw e (
            after_write-Retains history m s (write encode m.writer (sample s) io) r
              (sample_of-newer history m line at memory s r e))
        | inr (e, h) ↦ rw h r
      ]

  -- What a call that records no sample leaves: the history is as it was.
  abbrev RetainsStill : {A : Type 0} → List (Sample P W) → Monitor P M W × Result A → Type 0
  RetainsStill history (m, r) = Retains history m

  marker-Retains :
      (history : List (Sample P W)) (m : Monitor P M W) (k : Marker M)
      (w : Writer × Result (Unit {0}))
      → Retains history m
      → All (λ t. t.monotonic_ns ≤ k.monotonic_ns) history
      → RetainsStill history (
          after_write m w
            (stamped k.monotonic_ns (λ n. record n { markers = n.markers ++ (k ∷ []) }))
            k)
  marker-Retains history m k (w, err e) r newer = writer-Retains history m w r
  marker-Retains history m k (w, ok done) r newer = record {
    dropped = r.dropped;
    is_all = r.is_all;
    is_counted = r.is_counted;
    is_last_dropped = r.is_last_dropped;
    is_newest_first = r.is_newest_first;
    is_current = newer;
    is_within = r.is_within;
  }

  marker_of-newer :
      (history : List (Sample P W)) (m : Monitor P M W) (name : String) (metadata : M) (at : ℤ)
      (k : Marker M)
      → Retains history m
      → marker_of blank m name metadata at ≡ ok k
      → All (λ t. t.monotonic_ns ≤ k.monotonic_ns) history
  marker_of-newer history m name metadata at k r h =
      let (v, named, h0) =
        >>=-eq-ok (require (not (blank name)) (value_error "marker name must be non-empty")) _ h in
      let (timestamp, e, h1) = >>=-eq-ok (validated_monotonic_ns at) _ h0 in
      let (u, checked, h2) = >>=-eq-ok (check_entry m timestamp) _ h1 in
      subst (λ (x : Marker M). All (λ t. t.monotonic_ns ≤ x.monotonic_ns) history) (ok_injective h2)
        (check_entry-newer history m timestamp u checked r)

  mark-Retains :
      (history : List (Sample P W)) (m : Monitor P M W) (name : String) (metadata : M) (at : ℤ)
      (io : Outcome)
      → Retains history m
      → RetainsStill history (mark encode blank m name metadata at io)
  unfolding mark
  mark-Retains history m name metadata at io r =
      elim (Result-cases (marker_of blank m name metadata at)) [
        | inl (k, e) ↦ rw e (
            marker-Retains history m k (write encode m.writer (marker k) io) r
              (marker_of-newer history m name metadata at k r e))
        | inr (e, h) ↦ rw h r
      ]

  closed-Retains :
      (history : List (Sample P W)) (m : Monitor P M W) (w : Writer × Result (Unit {0}))
      → Retains history m
      → RetainsStill history (closed_monitor m w)
  closed-Retains history m (w, err e) r = writer-Retains history m w r
  closed-Retains history m (w, ok done) r = record {
    dropped = r.dropped;
    is_all = r.is_all;
    is_counted = r.is_counted;
    is_last_dropped = r.is_last_dropped;
    is_newest_first = r.is_newest_first;
    is_current = r.is_current;
    is_within = r.is_within;
  }

  close-Retains :
      (history : List (Sample P W)) (m : Monitor P M W) (io : Outcome)
      → Retains history m
      → RetainsStill history (close m io)
  unfolding close
  close-Retains history m io r =
      if_either (RetainsStill history) m.closed _ _ (λ e. r)
        (λ e. closed-Retains history m (close_writer m.writer io) r)

  -- A run of calls: the samples that they returned, newest first, and the monitor.
  unfoldable pub run_calls :
      List (Call M W) → List (Sample P W) × Monitor P M W → List (Sample P W) × Monitor P M W
  run_calls [] state = state
  run_calls (a_line line at memory io ∷ calls) (history, m) =
      run_calls calls (noted history (record_line parse encode m line at memory io))
  run_calls (a_mark name metadata at io ∷ calls) (history, m) =
      run_calls calls (history, (mark encode blank m name metadata at io).0)
  run_calls (a_close io ∷ calls) (history, m) = run_calls calls (history, (close m io).0)

  run_calls-Retains :
      (calls : List (Call M W)) (state : List (Sample P W) × Monitor P M W)
      → RetainsAll state
      → RetainsAll (run_calls calls state)
  unfolding run_calls
  run_calls-Retains [] state r = r
  run_calls-Retains (a_line line at memory io ∷ calls) (history, m) r =
      run_calls-Retains calls _ (record_line-Retains history m line at memory io r)
  run_calls-Retains (a_mark name metadata at io ∷ calls) (history, m) r =
      run_calls-Retains calls _ (mark-Retains history m name metadata at io r)
  run_calls-Retains (a_close io ∷ calls) (history, m) r =
      run_calls-Retains calls _ (close-Retains history m io r)

  -- After any calls a monitor retains the newest of the samples that its calls returned: as many as
  -- its capacity allows, with the number of the others and the timestamp of the newest of them.
  pub new_monitor-Retains :
      (w : Writer) (max_samples : Option ℤ) (m : Monitor P M W) (calls : List (Call M W))
      → new_monitor w max_samples ≡ ok m
      → RetainsAll (run_calls calls ([], m))
  unfolding new_monitor
  new_monitor-Retains w max_samples m calls h =
      run_calls-Retains calls ([], m)
        (let (capacity, e, h1) = >>=-eq-ok (checked_capacity max_samples) _ h in
          subst (Retains []) (ok_injective h1) (record {
            dropped = [];
            is_all = refl;
            is_counted = refl;
            is_last_dropped = refl;
            is_newest_first = tt;
            is_current = refl;
            is_within = checked_capacity-Within max_samples capacity e;
          }))
