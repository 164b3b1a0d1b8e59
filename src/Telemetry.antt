-- ===== src/Telemetry.antt =====
-- The records, the writer and the monitor of runtime/tegrastats_telemetry.py: samples with their
-- timestamps, JSONL lines, bounded retention and markers.
pub mod Monitor
pub mod Window
pub mod Durability
pub mod Logged
pub mod Retention
pub mod Runs
pub mod Complete
pub mod Fields
pub mod Health
pub mod Aggregate
pub mod Healthy
pub mod Ruled
pub mod Summary
pub mod Aggregated
mod Tests
use jetson_dlagreen.Common.{
  ℕ, zero, suc, ◌∷◌, [], none, some, Bool, true, false, String, List, ◌||◌, Option, Result, ok, leb,
  err, ◌>>=◌, if◌then◌else◌, ltb, runtime_error, length, value_error, ◌++◌, ◌+◌,
}
use jetson_dlagreen.Common.Float.{Float}
use jetson_dlagreen.Common.Int.{ℤ, pos, negsuc}

-- A parsed line is a value of `P`.
pub record Sample (P W : Type 0) : Type 0 where
  pub monotonic_ns : ℕ
  pub raw : List ℕ
  pub parsed : P
  pub mem_available_mb : Option W
  pub collection_errors : List String

pub record Marker (M : Type 0) : Type 0 where
  pub monotonic_ns : ℕ
  pub name : String
  pub metadata : M

pub data Entry (P M W : Type 0) : Type 0 where
  sample : Sample P W → Entry P M W
  marker : Marker M → Entry P M W

-- An int that is not negative.
abbrev pub validated_monotonic_ns : ℤ → Result ℕ
validated_monotonic_ns (pos n) = ok n
validated_monotonic_ns (negsuc n) = err (value_error "monotonic_ns must be a non-negative integer")

-- self._last_monotonic_ns is not None and timestamp < self._last_monotonic_ns
abbrev pub regresses : Option ℕ → ℕ → Bool
regresses none timestamp = false
regresses (some last) timestamp = ltb timestamp last

-- What the stream's write, flush and close do at a call.
pub record Outcome : Type 0 where
  pub written : Result (Unit {0})
  pub flushed : Result (Unit {0})
  pub released : Result (Unit {0})

-- A JsonlTelemetryWriter with its stream: the lines written, and how many of them are flushed.
pub record Writer : Type 0 where
  pub lines : List (List ℕ)
  pub flushed_lines : ℕ
  pub flush : Bool
  pub flush_every : Option ℕ
  pub records_since_flush : ℕ
  pub closed : Bool
  pub last_monotonic_ns : Option ℕ

abbrev pub positive_or_none : Option ℤ → Result (Option ℕ)
positive_or_none none = ok none
positive_or_none (some (pos (suc n))) = ok (some (suc n))
positive_or_none (some _) = err (value_error "flush_every must be a positive integer")

-- The checks of the constructor on its numbers, over a stream without lines.
unfoldable pub new_writer : Bool → Option ℤ → Result Writer
new_writer flush every = do
  flush_every ← positive_or_none every
  ok (record {
    lines = [];
    flushed_lines = 0;
    flush = flush;
    flush_every = flush_every;
    records_since_flush = 0;
    closed = false;
    last_monotonic_ns = none;
  })

module _ {P M W : Type 0} where
  abbrev pub timestamp_of : Entry P M W → ℕ
  timestamp_of (sample s) = s.monotonic_ns
  timestamp_of (marker m) = m.monotonic_ns

  abbrev pub is_marker : Entry P M W → Bool
  is_marker (sample s) = false
  is_marker (marker m) = true

abbrev pub is_due : Option ℕ → ℕ → Bool
is_due none since = false
is_due (some every) since = leb every since

-- self._flush or marker_boundary or periodic_flush, after the record is counted.
unfoldable pub flushes : Writer → Bool → Bool
flushes w marker_boundary = w.flush || marker_boundary || is_due w.flush_every w.records_since_flush

abbrev pub flushed_writer : Writer → ℕ → Result (Unit {0}) → Writer × Result (Unit {0})
flushed_writer w timestamp (err e) = (w, err e)
flushed_writer w timestamp (ok done) = (
  record w {
    flushed_lines = length w.lines;
    records_since_flush = 0;
    last_monotonic_ns = some timestamp;
  },
  ok tt,
)

-- The writer behind the line's write.
unfoldable pub after_line : Writer → Bool → ℕ → Outcome → Writer × Result (Unit {0})
after_line w marker_boundary timestamp io =
    if flushes w marker_boundary
    then flushed_writer w timestamp io.flushed
    else (record w { last_monotonic_ns = some timestamp }, ok tt)

-- The writer behind a write of the stream that fails or succeeds.
abbrev pub after_stream :
    Writer → Bool → ℕ → List ℕ → Outcome → Result (Unit {0}) → Writer × Result (Unit {0})
after_stream w marker_boundary timestamp line io (err e) = (w, err e)
after_stream w marker_boundary timestamp line io (ok done) =
    after_line
      (record w { lines = w.lines ++ (line ∷ []); records_since_flush = w.records_since_flush + 1 })
      marker_boundary timestamp io

-- The writer's write under its lock.
unfoldable pub write_line : Writer → Bool → ℕ → List ℕ → Outcome → Writer × Result (Unit {0})
write_line w marker_boundary timestamp line io =
    if w.closed
    then (w, err (runtime_error "telemetry writer is closed"))
    else if regresses w.last_monotonic_ns timestamp
    then (w, err (value_error "telemetry timestamps must not regress"))
    else after_stream w marker_boundary timestamp line io io.written

-- A write of an entry that json.dumps fails on or encodes.
abbrev pub write_encoded :
    Writer → Bool → ℕ → Outcome → Result (List ℕ) → Writer × Result (Unit {0})
write_encoded w marker_boundary timestamp io (err e) = (w, err e)
write_encoded w marker_boundary timestamp io (ok line) =
    write_line w marker_boundary timestamp line io

module _ {P M W : Type 0} where
  -- `encode` is json.dumps of the entry's record.
  unfoldable pub write :
      (Entry P M W → Result (List ℕ)) → Writer → Entry P M W → Outcome → Writer × Result (Unit {0})
  write encode w entry io = write_encoded w (is_marker entry) (timestamp_of entry) io (encode entry)

-- The close of the stream, if the writer owns it, behind its flush.
abbrev pub released_writer : Writer → Result (Unit {0}) → Writer × Result (Unit {0})
released_writer w (err e) = (w, err e)
released_writer w (ok done) = (record w { closed = true }, ok tt)

unfoldable pub close_writer : Writer → Outcome → Writer × Result (Unit {0})
close_writer w io = if w.closed then (w, ok tt) else elim io.flushed [
  | err e ↦ (w, err e)
  | ok done ↦ released_writer (record w { flushed_lines = length w.lines }) io.released
]
