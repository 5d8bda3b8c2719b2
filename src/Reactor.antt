-- ===== src/Reactor.antt =====
-- libeva/Reactor: the events of a reactor, their registration with epoll, and the functors that
-- other threads queue.
pub mod Event
pub mod Demultiplexer
pub mod Pending
pub mod ThreadPool
pub mod Timer
pub mod TimeWheel
pub mod Timers
mod Tests
