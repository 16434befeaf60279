-- ===== src/Graph.antt =====
-- internal/groundwork/graph: the graph, its index and what the index answers.
pub mod Types
pub mod Validation
pub mod Index
pub mod Adjacency
pub mod Walk
pub mod Reachability
pub mod Surface
pub mod Disclosure
