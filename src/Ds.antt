-- ===== src/Ds.antt =====
-- ds: the linked list, the hash set and the queues.
pub mod Sorted
pub mod LazyList
pub mod KeySet
pub mod UnorderedLazyList
pub mod HashSet
pub mod FineGrainedQueue
pub mod StealingQueue
mod Tests
