-- ===== src/Telemetry/Durability.antt =====
-- How many of the writer's lines are not flushed.
use jetson_dlagreen.Common.{
  ℕ, suc, ◌∷◌, [], none, some, err, ok, Bool, true, false, List, Result, Option, ◌+◌, ◌≡◌, ◌<◌,
  length, if_either, arith, refl, ◌||◌, ◌++◌, ap,
}
use jetson_dlagreen.Telemetry.{
  Writer, write, write_line, after_line, flushes, Outcome, is_due, flushed_writer, Entry, regresses,
  after_stream, write_encoded, is_marker, timestamp_of,
}

-- Every line is flushed or counted as not flushed.
abbrev pub IsCounted : Writer → Type 0
IsCounted w = w.flushed_lines + w.records_since_flush ≡ length w.lines

abbrev pub BelowPeriod : Option ℕ → ℕ → Type 0
BelowPeriod none since = Unit {0}
BelowPeriod (some every) since = since < every

-- Nothing waits if each line is flushed, and fewer lines wait than the period of the flushes.
pub record IsFlushed (w : Writer) : Type 0 where
  pub each_line : w.flush ≡ true → w.records_since_flush ≡ 0
  pub in_time : BelowPeriod w.flush_every w.records_since_flush

-- What a write leaves: the count and, if it succeeds, the bound; and after a marker nothing waits.
abbrev pub Leaves : Writer → Bool → Writer × Result (Unit {0}) → Type 0
Leaves before marker_boundary (w, err e) = IsCounted w
Leaves before marker_boundary (w, ok done) =
    IsCounted w
    × IsFlushed w
    × (marker_boundary ≡ true → w.flushed_lines ≡ length w.lines)
    × (length w.lines ≡ suc (length before.lines))

abbrev pub HasPeriod : Writer → Type 0
HasPeriod w = BelowPeriod w.flush_every 0

below : (every : Option ℕ) (since : ℕ) → is_due every since ≡ false → BelowPeriod every since
below none since h = tt
below (some every) since h = ground arith

flushed-Leaves :
    (before w : Writer) (marker_boundary : Bool) (timestamp : ℕ) (flushed : Result (Unit {0}))
    → IsCounted w
    → HasPeriod w
    → length w.lines ≡ suc (length before.lines)
    → Leaves before marker_boundary (flushed_writer w timestamp flushed)
flushed-Leaves before w marker_boundary timestamp (err e) c p l = c
flushed-Leaves before w marker_boundary timestamp (ok done) c p l =
    (omega arith, record { each_line = λ h. refl; in_time = p }, λ h. refl, l)

after_line-Leaves :
    (before w : Writer) (marker_boundary : Bool) (timestamp : ℕ) (io : Outcome)
    → IsCounted w
    → HasPeriod w
    → length w.lines ≡ suc (length before.lines)
    → Leaves before marker_boundary (after_line w marker_boundary timestamp io)
unfolding after_line flushes
after_line-Leaves before w marker_boundary timestamp io c p l =
    if_either (Leaves before marker_boundary)
      (w.flush || marker_boundary || is_due w.flush_every w.records_since_flush) _ _
      (λ e. flushed-Leaves before w marker_boundary timestamp io.flushed c p l)
      (λ e. (
        c,
        record {
          each_line = λ h. absurd (ground (arith, e, h));
          in_time = below w.flush_every w.records_since_flush (ground (arith, e));
        },
        λ h. absurd (ground (arith, e, h)),
        l,
      ))

length-with_line :
    {A : Type 0} (lines : List A) (line : A) → length (lines ++ (line ∷ [])) ≡ suc (length lines)
length-with_line [] line = refl
length-with_line (x ∷ lines) line = ap suc (length-with_line lines line)

stream-Leaves :
    (w : Writer) (marker_boundary : Bool) (timestamp : ℕ) (line : List ℕ) (io : Outcome)
    (written : Result (Unit {0}))
    → IsCounted w
    → HasPeriod w
    → Leaves w marker_boundary (after_stream w marker_boundary timestamp line io written)
stream-Leaves w marker_boundary timestamp line io (err e) c p = c
stream-Leaves w marker_boundary timestamp line io (ok done) c p =
    after_line-Leaves w
      (record w { lines = w.lines ++ (line ∷ []); records_since_flush = w.records_since_flush + 1 })
      marker_boundary timestamp io (omega (arith, c, length-with_line w.lines line)) p
      (length-with_line w.lines line)

write_line-Leaves :
    (w : Writer) (marker_boundary : Bool) (timestamp : ℕ) (line : List ℕ) (io : Outcome)
    → IsCounted w
    → HasPeriod w
    → Leaves w marker_boundary (write_line w marker_boundary timestamp line io)
unfolding write_line
write_line-Leaves w marker_boundary timestamp line io c p =
    if_either (Leaves w marker_boundary) w.closed _ _ (λ e. c)
      (λ e.
        if_either (Leaves w marker_boundary) (regresses w.last_monotonic_ns timestamp) _ _ (λ f. c)
          (λ f. stream-Leaves w marker_boundary timestamp line io io.written c p))

encoded-Leaves :
    (w : Writer) (marker_boundary : Bool) (timestamp : ℕ) (io : Outcome) (encoded : Result (List ℕ))
    → IsCounted w
    → HasPeriod w
    → Leaves w marker_boundary (write_encoded w marker_boundary timestamp io encoded)
encoded-Leaves w marker_boundary timestamp io (err e) c p = c
encoded-Leaves w marker_boundary timestamp io (ok line) c p =
    write_line-Leaves w marker_boundary timestamp line io c p

module _ {P M W : Type 0} (encode : Entry P M W → Result (List ℕ)) where
  -- A write whose lines are counted, with a period above zero if there is one, keeps the count; if
  -- it succeeds it adds one line, of the lines fewer than the period wait, none if each is flushed,
  -- and none after a marker.
  pub write-Leaves :
      (w : Writer) (entry : Entry P M W) (io : Outcome)
      → IsCounted w
      → HasPeriod w
      → Leaves w (is_marker entry) (write encode w entry io)
  unfolding write
  write-Leaves w entry io c p =
      encoded-Leaves w (is_marker entry) (timestamp_of entry) io (encode entry) c p
