-- ===== src/Review.antt =====
-- internal/groundwork/review: what a branch changes in the graph.
pub mod RouteIo
pub mod WriteTargets
pub mod LostWrites
