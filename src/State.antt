-- ===== src/State.antt =====
-- sync/state.py, one module for each group of tables.
pub mod Releases
pub mod Commands
pub mod Modes
pub mod Filters
pub mod Jobs
