-- ===== src/Telemetry/Monitor.antt =====
-- TegrastatsMonitor of runtime/tegrastats_telemetry.py, one call at a time under its locks. The deque
-- is a list with the newest sample first.
use jetson_dlagreen.Common.{
  ℕ, suc, ◌∷◌, [], none, some, Bool, true, false, String, List, Error, if◌then◌else◌, Result,
  Option, err, value_error, ◌==◌, length, ◌>>◌, ◌>>=◌, ◌&&◌, ok, require, not, ◌||◌, os_error, ◌+◌,
  runtime_error, ◌++◌, type_error,
}
use jetson_dlagreen.Common.Float.{Float, nought}
use jetson_dlagreen.Common.Int.{ℤ, pos}
use jetson_dlagreen.Telemetry.{
  Sample, Marker, Entry, sample, marker, Writer, Outcome, validated_monotonic_ns, write,
  close_writer, regresses,
}

pub record Monitor (P M W : Type 0) : Type 0 where
  pub writer : Writer
  pub max_samples : Option ℕ
  pub newest_first : List (Sample P W)
  pub markers : List (Marker M)
  pub closed : Bool
  pub last_monotonic_ns : Option ℕ
  pub dropped_samples : ℕ
  pub last_dropped_sample_ns : Option ℕ

abbrev pub checked_capacity : Option ℤ → Result (Option ℕ)
checked_capacity none = ok none
checked_capacity (some (pos (suc n))) = ok (some (suc n))
checked_capacity (some _) = err (value_error "max_samples must be positive")

-- float(value) succeeded or failed; or no argument; or None.
pub data Available (W : Type 0) : Type 0 where
  from_reader : Result W → Available W
  absent : Available W
  given : Result W → Available W

abbrev pub error_name : Error → Option String
error_name (value_error message) = some "mem_available:ValueError"
error_name (os_error message) = some "mem_available:OSError"
error_name type_error = some "mem_available:TypeError"
error_name _ = none

abbrev pub trimmed : ℕ → List ℕ → List ℕ
trimmed c [] = if c == 10 || c == 13 then [] else c ∷ []
trimmed c (d ∷ ds) = c ∷ d ∷ ds

-- line.rstrip("\r\n")
abbrev pub rstrip_line : List ℕ → List ℕ
rstrip_line [] = []
rstrip_line (c ∷ cs) = trimmed c (rstrip_line cs)

abbrev pub last_item : {A : Type 0} → A → List A → A
last_item x [] = x
last_item x (y ∷ ys) = last_item y ys

abbrev pub but_last : {A : Type 0} → A → List A → List A
but_last x [] = []
but_last x (y ∷ ys) = x ∷ but_last y ys

abbrev pub is_full : Option ℕ → ℕ → Bool
is_full none retained = false
is_full (some capacity) retained = retained == capacity

module _ {P M W : Type 0} where
  unfoldable pub new_monitor : Writer → Option ℤ → Result (Monitor P M W)
  new_monitor writer max_samples = do
    capacity ← checked_capacity max_samples
    ok (record {
      writer = writer;
      max_samples = capacity;
      newest_first = [];
      markers = [];
      closed = false;
      last_monotonic_ns = none;
      dropped_samples = 0;
      last_dropped_sample_ns = none;
    })

  abbrev pub appended : List (Sample P W) → Sample P W → Monitor P M W → Monitor P M W
  appended retained s m = record m { newest_first = s ∷ retained }

  -- The append to a full deque drops its oldest sample.
  abbrev pub appended_full :
      Sample P W → List (Sample P W) → Sample P W → Monitor P M W → Monitor P M W
  appended_full newest older s m = record m {
    newest_first = s ∷ but_last newest older;
    dropped_samples = m.dropped_samples + 1;
    last_dropped_sample_ns = some (last_item newest older).monotonic_ns;
  }

  -- The append to the deque, with the account of what a full one drops.
  unfoldable pub append_sample : List (Sample P W) → Sample P W → Monitor P M W → Monitor P M W
  append_sample [] s m = appended [] s m
  append_sample (newest ∷ older) s m =
      if is_full m.max_samples (length (newest ∷ older))
      then appended_full newest older s m
      else appended (newest ∷ older) s m

  -- What the writer's write decides: the state, and the value or the error of the call.
  abbrev pub after_write :
      {A : Type 0}
      → Monitor P M W
      → Writer × Result (Unit {0})
      → (Monitor P M W → Monitor P M W)
      → A
      → Monitor P M W × Result A
  after_write m (writer, err e) store value = (record m { writer = writer }, err e)
  after_write m (writer, ok done) store value = (store (record m { writer = writer }), ok value)

  abbrev pub stamped : ℕ → (Monitor P M W → Monitor P M W) → Monitor P M W → Monitor P M W
  stamped timestamp store m = record (store m) { last_monotonic_ns = some timestamp }

  -- self._closed and self._check_timestamp_locked.
  unfoldable pub check_entry : Monitor P M W → ℕ → Result (Unit {0})
  check_entry m timestamp = do
    require (not m.closed) (runtime_error "telemetry monitor is closed")
    require (not (regresses m.last_monotonic_ns timestamp))
        (value_error "telemetry timestamps must not regress")

module _ {W : Type 0} ⦃d : Float W⦄ where
  abbrev pub validated_mem_available_mb : W → Result W
  validated_mem_available_mb available =
      if d.is_finite available && not (d.lt available nought)
      then ok available
      else err (value_error "MemAvailable must be finite and non-negative")

  abbrev pub caught : Error → Option String → Result (Option W × List String)
  caught e none = err e
  caught e (some name) = ok (none, name ∷ [])

  abbrev pub read_or_caught : Result W → Result (Option W × List String)
  read_or_caught (ok available) = ok (some available, [])
  read_or_caught (err e) = caught e (error_name e)

  unfoldable pub available_of : Available W → Result (Option W × List String)
  available_of (from_reader value) = read_or_caught (value >>= validated_mem_available_mb)
  available_of absent = ok (none, [])
  available_of (given value) =
      (value >>= validated_mem_available_mb) >>= (λ available. ok (some available, []))

module _ {P W : Type 0} (parse : List ℕ → P) where
  abbrev pub made_sample : List ℕ → ℕ → Option W × List String → Sample P W
  made_sample line timestamp available = record {
    monotonic_ns = timestamp;
    raw = rstrip_line line;
    parsed = parse line;
    mem_available_mb = available.0;
    collection_errors = available.1;
  }

module _ {P M W : Type 0} ⦃d : Float W⦄ (parse : List ℕ → P) where
  -- The sample of a line, by the checks and the reading before the write.
  unfoldable pub sample_of : Monitor P M W → List ℕ → ℤ → Available W → Result (Sample P W)
  sample_of m line monotonic_ns memory = do
    timestamp ← validated_monotonic_ns monotonic_ns
    check_entry m timestamp
    available ← available_of memory
    ok (made_sample parse line timestamp available)

module _ {P M W : Type 0} (encode : Entry P M W → Result (List ℕ)) where
  -- The write and the append of a sample.
  abbrev pub recorded :
      Monitor P M W → Outcome → Result (Sample P W) → Monitor P M W × Result (Sample P W)
  recorded m io (err e) = (m, err e)
  recorded m io (ok s) =
      after_write m (write encode m.writer (sample s) io)
        (stamped s.monotonic_ns (append_sample m.newest_first s)) s

module _ {P M W : Type 0} ⦃d : Float W⦄ (parse : List ℕ → P)
    (encode : Entry P M W → Result (List ℕ)) where
  unfoldable pub record_line :
      Monitor P M W → List ℕ → ℤ → Available W → Outcome → Monitor P M W × Result (Sample P W)
  record_line m line monotonic_ns memory io =
      recorded encode m io (sample_of parse m line monotonic_ns memory)

module _ {P M W : Type 0} where
  -- `blank name` is not name or name.isspace().
  abbrev pub marker_of : (String → Bool) → Monitor P M W → String → M → ℤ → Result (Marker M)
  marker_of blank m name metadata monotonic_ns = do
    require (not (blank name)) (value_error "marker name must be non-empty")
    timestamp ← validated_monotonic_ns monotonic_ns
    check_entry m timestamp
    ok (record { monotonic_ns = timestamp; name = name; metadata = metadata })

  -- The write and the append of a marker; `encode` is json.dumps of its record.
  abbrev pub marked :
      (Entry P M W → Result (List ℕ))
      → Monitor P M W
      → Outcome
      → Result (Marker M)
      → Monitor P M W × Result (Marker M)
  marked encode m io (err e) = (m, err e)
  marked encode m io (ok k) =
      after_write m (write encode m.writer (marker k) io)
        (stamped k.monotonic_ns (λ n. record n { markers = n.markers ++ (k ∷ []) })) k

  unfoldable pub mark :
      (Entry P M W → Result (List ℕ))
      → (String → Bool)
      → Monitor P M W
      → String
      → M
      → ℤ
      → Outcome
      → Monitor P M W × Result (Marker M)
  mark encode blank m name metadata monotonic_ns io =
      marked encode m io (marker_of blank m name metadata monotonic_ns)

module _ {P M W : Type 0} where
  abbrev pub closed_monitor :
      Monitor P M W → Writer × Result (Unit {0}) → Monitor P M W × Result (Unit {0})
  closed_monitor m (writer, err e) = (record m { writer = writer }, err e)
  closed_monitor m (writer, ok done) = (record m { writer = writer; closed = true }, ok tt)

  unfoldable pub close : Monitor P M W → Outcome → Monitor P M W × Result (Unit {0})
  close m io = if m.closed then (m, ok tt) else closed_monitor m (close_writer m.writer io)

-- A call of the monitor, with what it meets.
pub data Call (M W : Type 0) : Type 0 where
  a_line : List ℕ → ℤ → Available W → Outcome → Call M W
  a_mark : String → M → ℤ → Outcome → Call M W
  a_close : Outcome → Call M W
