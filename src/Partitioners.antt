-- ===== src/Partitioners.antt =====
-- The spatial partitioners among the baselines: baselines/gpulet/run_thor.py,
-- baselines/gslice/run_thor.py and baselines/parvagpu/thor_adapter.py.
pub mod Gslice
pub mod Gpulet
pub mod Parvagpu
pub mod Tests
