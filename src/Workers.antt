-- ===== src/Workers.antt =====
-- workers/: the consumer of the command stream.
pub mod Execution
pub mod Loop
pub mod Fetch
