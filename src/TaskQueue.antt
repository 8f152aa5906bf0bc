-- ===== src/TaskQueue.antt =====
-- The task queue: commlib/task_queue.py.
pub mod Types
pub mod Context
pub mod Worker
pub mod Frame
pub mod Resources
pub mod Attempt
pub mod Lifecycle
pub mod Refinement
pub mod Threads
pub mod Producer
pub mod Handles
pub mod Outcomes
mod Tests
