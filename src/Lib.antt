-- ===== src/Lib.antt =====
-- The runtime of JetsonDLAGreen: a Python controller that places inference workers on the two MIG
-- instances of a Jetson board around a critical task, a planner that selects a two-stage plan from
-- measured profiles, the contract that the plan's stage graph must meet, the feedback of the
-- simpler governors, and the schedulers and partitioners that it is compared with.
--
-- Parts, and how they interact:
--
-- * runtime/mig_slack_governor.py is Governor and the files below it. Each epoch of `run_policy`
--   takes the offered workload (Governor/Workload: `offered_for_epoch`), plans where each tenant
--   runs (Governor/Placement: `plan_for`), computes the guard before the critical release
--   (Governor/Guard: `guard_for`), runs the workers and the critical task, sums the results
--   (Governor/Results: `completed_by`, `time_weighted_epoch_rate`), and moves the controller's
--   state (Governor/Feedback: `update_feedback`, `fail_closed_feedback`); Governor/Epoch is the
--   loop (`run_epoch`, `run_epochs`, `run_policy`). Governor/Pipes is `dependency_pipes_for_plan`
--   with its cleanup when os.pipe fails. Governor/Thermal is `thermal_window_maximum_gap_seconds`,
--   `minimum_telemetry_samples` and `thermal_window_is_stable`, over the samples that the parameter
--   `sample_window` of the telemetry monitor returns; Governor/Thermal/Monitored takes the monitor
--   of Telemetry for it. Processes, CUDA and telemetry are the parameter `measure` of the epoch, a
--   function from the epoch, the plan and the guard to what was measured or an error.
-- * runtime/quiet_dag_contract.py is Dag: `validate_dag` reads the stages and the edges
--   (`read_stages`, `read_edges`), orders the stages (`topological_loop`) and describes the graph
--   (`topology_of`).
-- * runtime/quiet_stage_dag.py is Planner: Planner and Planner/Profile are `load_pipeline_profile`
--   from the profile's JSON on, which calls `validate_dag`; Planner/Selection is `select_plan` from
--   the parsed candidates on, and Planner/Candidates is `parse_candidate` of an object. Reading a
--   profile's file is the parameter `read_profile`, and making its path absolute `resolve`.
-- * Cpus is `expand_cpu_list` and `format_cpu_list` of runtime/mig_slack_governor.py, on lists of
--   code points, with int() for ASCII digits (Common/Decimal), and Controllers/Affinity the other
--   governors' `expand_cpu_list`.
-- * Telemetry is runtime/tegrastats_telemetry.py: the JSONL writer with its flushes (`write`,
--   `close_writer`), Telemetry/Monitor `record_line`, `mark` and `close` of TegrastatsMonitor with
--   its bounded deque, Telemetry/Window `sample_window`, Telemetry/Fields `_field_present`,
--   Telemetry/Health the checks, the counts and the health of `aggregate_samples`,
--   Telemetry/Summary its numeric summaries (statistics.fmean, math.floor, math.ceil and the order
--   of str are the parameter `Statistics`), and Telemetry/Aggregate `aggregate`, whose
--   rules Telemetry/Ruled describes. The monitor's
--   locks make its calls run one at a time, so a run is a list of calls (`Call`) in the order of
--   their locks, each with the clock's value, what the reading of the memory gives and what the
--   stream does (`Outcome`). Parameters: `parse` is parse_tegrastats_line, `encode` json.dumps of a
--   record, `blank` the test of a marker's name, `present` the test of a field and `empty` the
--   sample that it is tried on. A sample of the deque is in the window just if it is in the
--   interval.
-- * Controllers are the policies and the feedback of runtime/full_gpu_governor.py,
--   runtime/multimodal_governor.py and runtime/mig_governor.py (`policy_action`, `guard_for`,
--   `update_feedback`, `profiled_action`). Controllers/FullGpu/Epochs is `run_policy` of the first,
--   where `measure` starts the workers and the critical task of an epoch and returns what they
--   measured.
-- * baselines/bless/scheduler.py is Bless: the checks of its two records and `form_kernel_squad`,
--   and Bless/Shares with `strict_share_configurations`, both estimates and `choose_configuration`.
-- * baselines/deepplan/thor_adapter.py is Deepplan: `validate_layers`, `naive_plan`,
--   `execution_trace`, `static_plan` and `summarize`, and Deepplan/Dynamic with `dynamic_plan`;
--   Deepplan/Visits and Deepplan/Steps describe its run as a relation.
-- * Partitioners are `select_partition` of baselines/gpulet/run_thor.py, `next_allocation` and what
--   it calls of baselines/gslice/run_thor.py, and `configure_service`, `allocate_fixed` and the
--   outcome of `run` of baselines/parvagpu/thor_adapter.py, where the services are parsed already
--   and math.floor and math.fmod are the parameter `Rounding`.
--
-- State is passed explicitly: a record for each Python object, a list for a list or an ordered
-- dict. An exception is a value of `Result` (Common/Outcome), with the fixed part of its message.
-- JSON values are Common/Json. A float is a value of a type with the operations of the interface
-- `Float` (Common/Float); `IsIeee` has the laws that some theorems use, and `Micro`, fixed-point
-- numbers, meets them and runs the tests. int(), float() and int(str) of the planner are the
-- parameter `Builtins`. Integers are unbounded as in Python.
--
-- Loops are structural recursion, but for `topological_loop`, whose `while ready` runs on fuel: as
-- many rounds as there are stages. Each round places a stage that was not placed, so the loop runs
-- no more rounds than that. The digits of `str` run on fuel above the number, which each step divides
-- by ten.
--
-- Not modelled: processes, CUDA and tegrastats themselves; the guard locks, thermal qualification
-- and arguments of the governor; the parsing of tegrastats lines by regular expressions,
-- the reading of /proc/meminfo and `record_stream`; the specification's own checks and `actuate_selected_plan` of the
-- planner; the epoch loops of the multimodal and MIG governors, the other baselines, and of those
-- above the reading of files and the running of their profiles; the analysis and the scripts; the
-- C++ benchmarks, which depend on the GPU's libraries.
pub mod Common
pub mod Governor
pub mod Dag
pub mod Planner
pub mod Bless
pub mod Deepplan
pub mod Cpus
pub mod Telemetry
pub mod Controllers
pub mod Partitioners
