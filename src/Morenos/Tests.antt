-- ===== src/Morenos/Tests.antt =====
-- Runs of the theorems about the scheduler model at concrete inputs.
mod Data
mod Timelines
mod Commands
mod Planning
mod Passes
