-- ===== src/Runtime.antt =====
-- runtime/: what runs on one Jupyter session.
pub mod Collector
pub mod Frames
pub mod Runner
