-- ===== src/Tests.antt =====
-- Runs at concrete inputs, and the theorems at inputs that meet their hypotheses.
mod Memory
mod Executions
mod Codec
mod Messages
mod Submissions
mod Loops
mod Runners
mod Stamps
mod Claims
mod Redeliveries
mod Lifespans
mod Configured
mod Successes
mod Wired
