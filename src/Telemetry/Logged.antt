-- ===== src/Telemetry/Logged.antt =====
-- What a run of the monitor leaves in the stream of its writer.
use jetson_dlagreen.Telemetry.Runs.{run_calls}
use jetson_dlagreen.Telemetry.Retention.{noted}
use jetson_dlagreen.Telemetry.Monitor.{
  Monitor, append_sample, closed_monitor, is_full, after_write, stamped, appended_full, appended,
  close, Call, mark, record_line, a_line, a_mark, Available, a_close, marker_of, sample_of,
}
use jetson_dlagreen.Telemetry.{
  Sample, Entry, sample, Writer, Outcome, write_line, after_line, after_stream, flushed_writer,
  write_encoded, flushes, regresses, close_writer, Marker, marker, Float, write, ℤ, released_writer,
}
use jetson_dlagreen.Common.{
  ℕ, ◌∷◌, [], ok, err, Bool, List, Result, ◌≡◌, ◌++◌, refl, sym, ap, ◌∙◌, if_either, append-nil,
  append_assoc, ◌+◌, length, subst, String, Result-cases, inl, true, false, inr,
}

-- What a write leaves: lines behind those before; if it succeeds, the line of the entry alone.
abbrev Writes : List (List ℕ) → Result (List ℕ) → Writer × Result (Unit {0}) → Type 0
Writes lines encoded (w, err e) = (more : List (List ℕ)) × (w.lines ≡ lines ++ more)
Writes lines encoded (w, ok done) =
    (line : List ℕ) × (encoded ≡ ok line) × (w.lines ≡ lines ++ (line ∷ []))

nothing_more : {A : Type 0} (lines : List A) → (more : List A) × (lines ≡ lines ++ more)
nothing_more lines = ([], sym (append-nil lines))

flushed-Writes :
    (lines : List (List ℕ)) (line : List ℕ) (w : Writer) (timestamp : ℕ)
    (flushed : Result (Unit {0}))
    → w.lines ≡ lines ++ (line ∷ [])
    → Writes lines (ok line) (flushed_writer w timestamp flushed)
flushed-Writes lines line w timestamp (err e) h = (line ∷ [], h)
flushed-Writes lines line w timestamp (ok done) h = (line, refl, h)

stream-Writes :
    (w : Writer) (boundary : Bool) (timestamp : ℕ) (line : List ℕ) (io : Outcome)
    (written : Result (Unit {0}))
    → Writes w.lines (ok line) (after_stream w boundary timestamp line io written)
unfolding after_line
stream-Writes w boundary timestamp line io (err e) = nothing_more w.lines
stream-Writes w boundary timestamp line io (ok done) =
    let next = record w {
      lines = w.lines ++ (line ∷ []);
      records_since_flush = w.records_since_flush + 1;
    } in
    if_either (Writes w.lines (ok line)) (flushes next boundary) _ _
      (λ e. flushed-Writes w.lines line next timestamp io.flushed refl) (λ e. (line, refl, refl))

encoded-Writes :
    (w : Writer) (boundary : Bool) (timestamp : ℕ) (io : Outcome) (encoded : Result (List ℕ))
    → Writes w.lines encoded (write_encoded w boundary timestamp io encoded)
unfolding write_line
encoded-Writes w boundary timestamp io (err e) = nothing_more w.lines
encoded-Writes w boundary timestamp io (ok line) =
    if_either (Writes w.lines (ok line)) w.closed _ _ (λ e. nothing_more w.lines)
      (λ e.
        if_either (Writes w.lines (ok line)) (regresses w.last_monotonic_ns timestamp) _ _
          (λ f. nothing_more w.lines) (λ f. stream-Writes w boundary timestamp line io io.written))

released_writer-lines :
    (w : Writer) (released : Result (Unit {0})) → (released_writer w released).0.lines ≡ w.lines
released_writer-lines w (err e) = refl
released_writer-lines w (ok done) = refl

close_writer-lines : (w : Writer) (io : Outcome) → (close_writer w io).0.lines ≡ w.lines
unfolding close_writer
close_writer-lines w io =
    if_either (λ (r : Writer × Result (Unit {0})). r.0.lines ≡ w.lines) w.closed _ _ (λ e. refl)
      (λ e. elim (Result-cases io.flushed) [
        | inl (done, f) ↦
            rw f (released_writer-lines (record w { flushed_lines = length w.lines }) io.released)
        | inr (x, f) ↦ rw f refl
      ])

module _ {P M W : Type 0} (encode : Entry P M W → Result (List ℕ)) where
  -- The samples, newest first, have their lines among the given ones, in the order of their calls.
  abbrev pub IsLogged : List (Sample P W) → List (List ℕ) → Type 0
  IsLogged [] lines = Unit {0}
  IsLogged (s ∷ older) lines =
      (before : List (List ℕ)) × (line : List ℕ) × (after : List (List ℕ)) × (encode (sample s)
        ≡ ok line)
      × (lines ≡ before ++ (line ∷ after))
      × IsLogged older before

  IsLogged-append :
      (history : List (Sample P W)) (lines more : List (List ℕ))
      → IsLogged history lines
      → IsLogged history (lines ++ more)
  IsLogged-append [] lines more h = tt
  IsLogged-append (s ∷ older) lines more (before, line, after, e, parts, h) = (
    before,
    line,
    after ++ more,
    e,
    ap (λ ls. ls ++ more) parts ∙ append_assoc before (line ∷ after) more,
    h,
  )

  -- What a run has left behind the first lines.
  pub record HasLog (first : List (List ℕ)) (history : List (Sample P W)) (w : Writer)
      : Type 0 where
    pub log : List (List ℕ)
    pub is_appended : w.lines ≡ first ++ log
    pub is_logged : IsLogged history log

  HasLog-more :
      (first : List (List ℕ)) (history : List (Sample P W)) (w w' : Writer) (more : List (List ℕ))
      → HasLog first history w
      → w'.lines ≡ w.lines ++ more
      → HasLog first history w'
  HasLog-more first history w w' more h e = record {
    log = h.log ++ more;
    is_appended = e ∙ ap (λ ls. ls ++ more) h.is_appended ∙ append_assoc first h.log more;
    is_logged = IsLogged-append history h.log more h.is_logged;
  }

  HasLog-sample :
      (first : List (List ℕ)) (history : List (Sample P W)) (w w' : Writer) (s : Sample P W)
      (line : List ℕ)
      → HasLog first history w
      → encode (sample s) ≡ ok line
      → w'.lines ≡ w.lines ++ (line ∷ [])
      → HasLog first (s ∷ history) w'
  HasLog-sample first history w w' s line h e k = record {
    log = h.log ++ (line ∷ []);
    is_appended =
        k ∙ ap (λ ls. ls ++ (line ∷ [])) h.is_appended ∙ append_assoc first h.log (line ∷ []);
    is_logged = (h.log, line, [], e, refl, h.is_logged);
  }

module _ {P M W : Type 0} (encode : Entry P M W → Result (List ℕ)) (first : List (List ℕ)) where
  -- The history and the monitor, or the monitor and the result, of a call.
  abbrev pub HasLogAt : List (Sample P W) × Monitor P M W → Type 0
  HasLogAt (history, m) = HasLog encode first history m.writer

  abbrev HasLogStill : {A : Type 0} → List (Sample P W) → Monitor P M W × Result A → Type 0
  HasLogStill history (m, r) = HasLog encode first history m.writer

  append_sample-writer :
      (xs : List (Sample P W)) (s : Sample P W) (m : Monitor P M W)
      → (append_sample xs s m).writer ≡ m.writer
  unfolding append_sample
  append_sample-writer [] s m = refl
  append_sample-writer (x ∷ xs) s m =
      if_either (λ (n : Monitor P M W). n.writer ≡ m.writer)
        (is_full m.max_samples (length (x ∷ xs))) (appended_full x xs s m) (appended (x ∷ xs) s m)
        (λ e. refl) (λ e. refl)

  sample-HasLog :
      (history : List (Sample P W)) (m : Monitor P M W) (s : Sample P W)
      (w : Writer × Result (Unit {0}))
      → HasLog encode first history m.writer
      → Writes m.writer.lines (encode (sample s)) w
      → HasLogAt (
          noted history
            (after_write m w (stamped s.monotonic_ns (append_sample m.newest_first s)) s))
  sample-HasLog history m s (w, err e) h (more, k) =
      HasLog-more encode first history m.writer w more h k
  sample-HasLog history m s (w, ok done) h (line, e, k) =
      subst (HasLog encode first (s ∷ history))
        (sym (append_sample-writer m.newest_first s (record m { writer = w })))
        (HasLog-sample encode first history m.writer w s line h e k)

  marker-HasLog :
      (history : List (Sample P W)) (m : Monitor P M W) (k : Marker M)
      (w : Writer × Result (Unit {0}))
      → HasLog encode first history m.writer
      → Writes m.writer.lines (encode (marker k)) w
      → HasLogStill history (
          after_write m w
            (stamped k.monotonic_ns (λ n. record n { markers = n.markers ++ (k ∷ []) }))
            k)
  marker-HasLog history m k (w, err e) h (more, l) =
      HasLog-more encode first history m.writer w more h l
  marker-HasLog history m k (w, ok done) h (line, e, l) =
      HasLog-more encode first history m.writer w (line ∷ []) h l

  closed-HasLog :
      (history : List (Sample P W)) (m : Monitor P M W) (w : Writer × Result (Unit {0}))
      → HasLog encode first history m.writer
      → w.0.lines ≡ m.writer.lines
      → HasLogStill history (closed_monitor m w)
  closed-HasLog history m (w, err e) h k =
      HasLog-more encode first history m.writer w [] h (k ∙ sym (append-nil m.writer.lines))
  closed-HasLog history m (w, ok done) h k =
      HasLog-more encode first history m.writer w [] h (k ∙ sym (append-nil m.writer.lines))

  close-HasLog :
      (history : List (Sample P W)) (m : Monitor P M W) (io : Outcome)
      → HasLog encode first history m.writer
      → HasLogStill history (close m io)
  unfolding close
  close-HasLog history m io h =
      if_either (HasLogStill history) m.closed _ _ (λ e. h)
        (λ e. closed-HasLog history m (close_writer m.writer io) h (close_writer-lines m.writer io))

module _ {P M W : Type 0} ⦃d : Float W⦄ (parse : List ℕ → P)
    (encode : Entry P M W → Result (List ℕ)) (blank : String → Bool) (first : List (List ℕ)) where
  record_line-HasLog :
      (history : List (Sample P W)) (m : Monitor P M W) (line : List ℕ) (at : ℤ)
      (memory : Available W) (io : Outcome)
      → HasLog encode first history m.writer
      → HasLogAt encode first (noted history (record_line parse encode m line at memory io))
  unfolding record_line write
  record_line-HasLog history m line at memory io h =
      elim (Result-cases (sample_of parse m line at memory)) [
        | inl (s, e) ↦ rw e (
            sample-HasLog encode first history m s (write encode m.writer (sample s) io) h
              (encoded-Writes m.writer false s.monotonic_ns io (encode (sample s))))
        | inr (e, k) ↦ rw k h
      ]

  mark-HasLog :
      (history : List (Sample P W)) (m : Monitor P M W) (name : String) (metadata : M) (at : ℤ)
      (io : Outcome)
      → HasLog encode first history m.writer
      → HasLogStill encode first history (mark encode blank m name metadata at io)
  unfolding mark write
  mark-HasLog history m name metadata at io h =
      elim (Result-cases (marker_of blank m name metadata at)) [
        | inl (k, e) ↦ rw e (
            marker-HasLog encode first history m k (write encode m.writer (marker k) io) h
              (encoded-Writes m.writer true k.monotonic_ns io (encode (marker k))))
        | inr (e, k) ↦ rw k h
      ]

  calls-HasLog :
      (calls : List (Call M W)) (state : List (Sample P W) × Monitor P M W)
      → HasLogAt encode first state
      → HasLogAt encode first (run_calls parse encode blank calls state)
  unfolding run_calls
  calls-HasLog [] state h = h
  calls-HasLog (a_line line at memory io ∷ calls) (history, m) h =
      calls-HasLog calls _ (record_line-HasLog history m line at memory io h)
  calls-HasLog (a_mark name metadata at io ∷ calls) (history, m) h =
      calls-HasLog calls _ (mark-HasLog history m name metadata at io h)
  calls-HasLog (a_close io ∷ calls) (history, m) h =
      calls-HasLog calls _ (close-HasLog encode first history m io h)

module _ {P M W : Type 0} ⦃d : Float W⦄ (parse : List ℕ → P)
    (encode : Entry P M W → Result (List ℕ)) (blank : String → Bool) where
  -- After any calls of a monitor, whatever the stream does, its writer has the lines from before, and
  -- behind them, in the order of the calls, the line of each sample that the calls returned.
  pub run_calls-HasLog :
      (m : Monitor P M W) (calls : List (Call M W))
      → HasLogAt encode m.writer.lines (run_calls parse encode blank calls ([], m))
  run_calls-HasLog m calls =
      calls-HasLog parse encode blank m.writer.lines calls ([], m)
        (record { log = []; is_appended = sym (append-nil m.writer.lines); is_logged = tt })
