-- ===== src/Clients.antt =====
-- clients/: the wrappers of the external services.
pub mod Redis
pub mod Agent
pub mod Jupyter
pub mod Scripts
pub mod Stream
pub mod Lifecycle
pub mod Reading
