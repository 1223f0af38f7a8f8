-- ===== src/Worker.antt =====
-- sync/worker.py: the schedule, the poller of control commands, and the loop of the worker.
pub mod Schedule
pub mod Poller
pub mod Loop
