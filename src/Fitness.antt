-- ===== src/Fitness.antt =====
-- internal/groundwork/fitness: the judge of a graph against a policy.
pub mod Findings
pub mod Gate
pub mod Names
pub mod Messages
pub mod Reach
pub mod PassThrough
pub mod Concurrent
pub mod Layering
pub mod Effects
pub mod Budget
pub mod Check
pub mod BudgetLaws
pub mod WriteSurface
pub mod WriteBudget
pub mod EffectLaws
pub mod Liveness
pub mod Exceptions
pub mod ExceptionLaws
pub mod Breaks
pub mod ReachLaws
pub mod PassThroughLaws
pub mod ConcurrentLaws
pub mod Descent
pub mod DescentBound
pub mod LayeringLaws
pub mod Upheld
pub mod LivenessLaws
