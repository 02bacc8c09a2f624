-- ===== src/Api.antt =====
-- api/: the routes.
pub mod Executions
pub mod Health
