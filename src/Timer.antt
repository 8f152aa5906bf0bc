-- ===== src/Timer.antt =====
-- The timer, commlib/timer.py.
pub mod Loop
pub mod Links
pub mod Tests
