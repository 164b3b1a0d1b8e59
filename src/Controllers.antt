-- ===== src/Controllers.antt =====
-- The policies and the feedback of the other governors: runtime/full_gpu_governor.py,
-- runtime/multimodal_governor.py and runtime/mig_governor.py.
pub mod FullGpu
pub mod Multimodal
pub mod MigProfile
pub mod Affinity
pub mod Tests
