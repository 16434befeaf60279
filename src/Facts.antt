-- ===== src/Facts.antt =====
-- internal/groundwork/facts: the deterministic graph facts that standing policy and claims share.
pub mod Types
pub mod Match
pub mod Traversal
pub mod Tree
pub mod Trails
pub mod Frontier
pub mod Reach
pub mod Cone
pub mod ReachSearch
pub mod Visibility
pub mod Blindness
pub mod FrontierLaws
pub mod ReachVerdict
pub mod ReachLaws
pub mod ReachAnswers
pub mod Obligation
pub mod ObligationLaws
pub mod PassThrough
pub mod PassThroughLaws
pub mod PassThroughAnswers
pub mod PassThroughGuard
pub mod Concurrent
pub mod ConcurrentLaws
pub mod ConcurrentAnswers
pub mod ConcurrentClean
