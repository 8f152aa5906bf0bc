-- ===== src/Action.antt =====
-- Actions: commlib/action.py.
pub mod Goal
pub mod Service
pub mod Run
pub mod Statuses
pub mod Requests
pub mod Stuck
pub mod Tests
pub mod Client
pub mod Polls
