-- ===== src/Examples.antt =====
-- The theorems at concrete inputs, and tests of the definitions.
mod Workflows
mod Tools
mod Data
mod Agents
mod Apps
mod Runs
