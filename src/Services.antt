-- ===== src/Services.antt =====
-- services/: the parts that the worker and the API call.
pub mod Execution
pub mod Callback
pub mod Processor
pub mod Submission
pub mod Recovery
