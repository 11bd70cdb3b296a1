-- ===== src/Traverse.antt =====
-- engine/src/storage/traverse.rs: reachability by breadth first search.
pub mod Heap
pub mod Steps
pub mod Levels
pub mod Reach
pub mod Search
pub mod Answers
pub mod Compressed
pub mod Counting
pub mod Stretches
pub mod Packing
pub mod Csr
pub mod CsrReach
pub mod Marks
pub mod Simulation
pub mod Positions
pub mod Picks
pub mod CsrAnswers
pub mod Refines
pub mod Hops
pub mod Scanned
pub mod Touching
pub mod Distances
pub mod Meetings
pub mod Shortest
pub mod Alternating
pub mod Turning
pub mod HopCounts
mod Checks
