-- ===== src/Governor/Tests.antt =====
-- Tests of the governor, and instances of its theorems.
mod Fixtures
mod Plans
mod Control
mod Pipes
mod Run
mod Thermal
