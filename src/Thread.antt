-- ===== src/Thread.antt =====
-- libeva/Thread: the pool of threads that take tasks from each other's queues.
pub mod MyThreadPool
mod Tests
