-- ===== src/Telemetry/Summary.antt =====
-- The numeric summaries of aggregate_samples in runtime/tegrastats_telemetry.py.
pub mod Range
use jetson_dlagreen.Telemetry.Monitor.{last_item}
use jetson_dlagreen.Telemetry.Health.{distinct_from}
use jetson_dlagreen.Common.Dict.{find, keep}
use jetson_dlagreen.Common.Sorting.{sort_by}
use jetson_dlagreen.Common.{
  ℕ, ◌∷◌, [], none, some, Bool, false, String, List, Option, Result, ok, err, traverse, max,
  index_error, not, ◌>>=◌, get_elem?, if◌then◌else◌, length, map, count_up, ◌==◌, ◌++◌,
}
use jetson_dlagreen.Common.Float.{Float}
use jetson_dlagreen.Telemetry.{Sample}
use jetson_dlagreen.Telemetry.Fields.{CpuCore, RamSample, ClockActivity, ParsedTegrastats, is_some}

-- statistics.fmean, math.floor and math.ceil of a float that is not negative, and str's order.
pub record Statistics (W : Type 0) : Type 0 where
  pub fmean : List W → W
  pub floor : W → ℕ
  pub ceil : W → ℕ
  pub str_lt : String → String → Bool

pub record NumericSummary (W : Type 0) : Type 0 where
  pub count : ℕ
  pub mean : W
  pub min : W
  pub p50 : W
  pub p95 : W
  pub max : W

pub record CoreSummary (W : Type 0) : Type 0 where
  pub core : ℕ
  pub utilization_pct : Option (NumericSummary W)
  pub frequency_mhz : Option (NumericSummary W)
  pub online_samples : ℕ
  pub off_samples : ℕ
  pub unknown_samples : ℕ

pub record CpuSummary (W : Type 0) : Type 0 where
  pub mean_across_online_cores_pct : Option (NumericSummary W)
  pub cores : List (CoreSummary W)

pub record ClockSummary (W : Type 0) : Type 0 where
  pub utilization_pct : Option (NumericSummary W)
  pub frequencies_mhz : List (Option (NumericSummary W))

module _ {A B : Type 0} where
  -- [f(x) for x in xs if f(x) is not None]
  abbrev pub some_of : (A → Option B) → List A → List B
  some_of f [] = []
  some_of f (x ∷ xs) = elim (f x) [ some y ↦ y ∷ some_of f xs | none ↦ some_of f xs ]

  -- max((len(f(x)) for x in xs), default=0)
  abbrev pub longest_of : (A → List B) → List A → ℕ
  longest_of f [] = 0
  longest_of f (x ∷ xs) = max (length (f x)) (longest_of f xs)

abbrev pub index_of : {A : Type 0} → List A → ℕ → Result A
index_of xs i = elim (get_elem? xs i) [ some x ↦ ok x | none ↦ err index_error ]

-- The names of the mappings, in their order.
abbrev pub keys_of : {B : Type 0} → List (List (String × B)) → List String
keys_of [] = []
keys_of (mapping ∷ mappings) = map (λ e. e.0) mapping ++ keys_of mappings

abbrev pub is_online : Option Bool → Bool
is_online none = false
is_online (some online) = online

abbrev pub is_off : Option Bool → Bool
is_off none = false
is_off (some online) = not online

module _ {W : Type 0} ⦃d : Float W⦄ (b : Statistics W) where
  -- Between two neighbours of an ordered list of at least two.
  unfoldable pub interpolated : W → ℕ → ℕ → List W → Result W
  interpolated position lower upper ordered = do
    below ← index_of ordered lower
    above ← index_of ordered upper
    let weight = d.sub position (d.decimal lower 0) in
        ok (
          if lower == upper
          then below
          else d.add (d.mul below (d.sub (d.decimal 1 0) weight)) (d.mul above weight))

  unfoldable pub percentile : List W → W → Result W
  percentile [] fraction = err index_error
  percentile (x ∷ []) fraction = ok x
  percentile (x ∷ y ∷ ordered) fraction =
      let position = d.mul fraction (d.decimal (length (y ∷ ordered)) 0) in
      interpolated position (b.floor position) (b.ceil position) (x ∷ y ∷ ordered)

  unfoldable pub summary_of : List W → Result (Option (NumericSummary W))
  summary_of [] = ok none
  summary_of (x ∷ ordered) = do
    p50 ← percentile (x ∷ ordered) (d.decimal 50 2)
    p95 ← percentile (x ∷ ordered) (d.decimal 95 2)
    ok (
        some (record {
          count = length (x ∷ ordered);
          mean = b.fmean (x ∷ ordered);
          min = x;
          p50 = p50;
          p95 = p95;
          max = last_item x ordered;
        }))

  unfoldable pub numeric_summary : List W → Result (Option (NumericSummary W))
  numeric_summary values = summary_of (sort_by d.lt (keep d.is_finite values))

  -- The entries of a core over the samples.
  unfoldable pub core_summary : List (CpuCore W) → ℕ → Result (CoreSummary W)
  core_summary entries index = do
    utilization ← numeric_summary (some_of (λ e. e.utilization_pct) entries)
    frequency ← numeric_summary (some_of (λ e. e.frequency_mhz) entries)
    ok (record {
      core = index;
      utilization_pct = utilization;
      frequency_mhz = frequency;
      online_samples = length (keep (λ e. is_online e.online) entries);
      off_samples = length (keep (λ e. is_off e.online) entries);
      unknown_samples = length (keep (λ e. not (is_some e.online)) entries);
    })

  -- The mean of a sample's utilized cores, if there is one.
  abbrev pub mean_if_any : List W → Option W
  mean_if_any [] = none
  mean_if_any (x ∷ values) = some (b.fmean (x ∷ values))

  unfoldable pub per_cpu_aggregate : List (Sample (ParsedTegrastats W) W) → Result (CpuSummary W)
  per_cpu_aggregate samples = do
    cores ←
        traverse (λ index. core_summary (some_of (λ s. get_elem? s.parsed.cpu index) samples) index)
          (count_up 0 (longest_of (λ s. s.parsed.cpu) samples))
    mean ←
        numeric_summary
          (some_of (λ s. mean_if_any (some_of (λ core. core.utilization_pct) s.parsed.cpu)) samples)
    ok (record { mean_across_online_cores_pct = mean; cores = cores })

  -- The names of the getter's mappings without repetition, in order.
  unfoldable pub names_of : List (List (String × W)) → List String
  names_of mappings = sort_by b.str_lt (distinct_from [] (keys_of mappings))

  unfoldable pub mapping_aggregate :
      (Sample (ParsedTegrastats W) W → List (String × W))
      → List (Sample (ParsedTegrastats W) W)
      → Result (List (String × Option (NumericSummary W)))
  mapping_aggregate getter samples =
      traverse
        (λ name.
          numeric_summary (some_of (λ s. find name (getter s)) samples) >>= (λ v. ok (name, v)))
        (names_of (map getter samples))

  unfoldable pub clock_summary : List (ClockActivity W) → Result (Option (ClockSummary W))
  clock_summary [] = ok none
  clock_summary (c ∷ clocks) = do
    utilization ← numeric_summary (some_of (λ e. e.utilization_pct) (c ∷ clocks))
    frequencies ←
        traverse
          (λ index. numeric_summary (some_of (λ e. get_elem? e.frequencies_mhz index) (c ∷ clocks)))
          (count_up 0 (longest_of (λ e. e.frequencies_mhz) (c ∷ clocks)))
    ok (some (record { utilization_pct = utilization; frequencies_mhz = frequencies }))

  unfoldable pub clock_aggregate :
      (Sample (ParsedTegrastats W) W → Option (ClockActivity W))
      → List (Sample (ParsedTegrastats W) W)
      → Result (Option (ClockSummary W))
  clock_aggregate getter samples = clock_summary (some_of getter samples)

-- The numeric part of the aggregate.
pub record Metrics (W : Type 0) : Type 0 where
  pub used_mb : Option (NumericSummary W)
  pub total_mb : Option (NumericSummary W)
  pub headroom_mb : Option (NumericSummary W)
  pub largest_free_block_count : Option (NumericSummary W)
  pub largest_free_block_mb : Option (NumericSummary W)
  pub mem_available_mb : Option (NumericSummary W)
  pub cpu : CpuSummary W
  pub temperatures_c : List (String × Option (NumericSummary W))
  pub power_mw : List (String × Option (NumericSummary W))
  pub emc : Option (ClockSummary W)
  pub gr3d : Option (ClockSummary W)

module _ {W : Type 0} ⦃d : Float W⦄ (b : Statistics W) where
  abbrev pub free_blocks : RamSample W → Option W
  free_blocks ram = elim ram.largest_free_block_count [
    | some n ↦ some (d.decimal n 0)
    | none ↦ none
  ]

  unfoldable pub metrics_of : List (Sample (ParsedTegrastats W) W) → Result (Metrics W)
  metrics_of valid = do
    let ram = some_of (λ s. s.parsed.ram) valid
    used ← numeric_summary b (map (λ r. r.used_mb) ram)
    all ← numeric_summary b (map (λ r. r.total_mb) ram)
    headroom ← numeric_summary b (map (λ r. d.sub r.total_mb r.used_mb) ram)
    blocks ← numeric_summary b (some_of free_blocks ram)
    block_mb ← numeric_summary b (some_of (λ r. r.largest_free_block_mb) ram)
    available ← numeric_summary b (some_of (λ s. s.mem_available_mb) valid)
    cpu ← per_cpu_aggregate b valid
    temperatures ← mapping_aggregate b (λ s. s.parsed.temperatures_c) valid
    power ← mapping_aggregate b (λ s. map (λ e. (e.0, e.1.current_mw)) s.parsed.power) valid
    emc ← clock_aggregate b (λ s. s.parsed.emc) valid
    gr3d ← clock_aggregate b (λ s. s.parsed.gr3d) valid
    ok (record {
      used_mb = used;
      total_mb = all;
      headroom_mb = headroom;
      largest_free_block_count = blocks;
      largest_free_block_mb = block_mb;
      mem_available_mb = available;
      cpu = cpu;
      temperatures_c = temperatures;
      power_mw = power;
      emc = emc;
      gr3d = gr3d;
    })
