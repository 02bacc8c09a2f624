-- ===== src/Schemas.antt =====
-- The data that the service keeps and exchanges: schemas/command.py, schemas/state.py and
-- schemas/callback.py.
pub mod Value
pub mod Command
pub mod State
pub mod Callback
