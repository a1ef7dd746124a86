-- ===== src/Tests.antt =====
-- Tests of the definitions, and the theorems at concrete inputs.
mod Memory
mod Samples
mod Runs
mod Requests
mod Values
mod Start
mod Copies
mod Retries
mod Launch
mod Deletions
