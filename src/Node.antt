-- ===== src/Node.antt =====
-- node/: the node, the pool of waiting transactions, and the headers that wait for their parents.
mod Tests
mod ProcessTests
pub mod Heap
pub mod Mempool
pub mod Orphans
pub mod State
pub mod Queries
pub mod Fork
pub mod Extend
pub mod Candidate
pub mod Process
pub mod Steps
pub mod Turns
pub mod Ends
pub mod Indexed
