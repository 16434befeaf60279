-- ===== src/Policy.antt =====
-- internal/groundwork/policy: the declared architecture that the fitness checks enforce.
pub mod Types
pub mod Validate
pub mod WellFormed
pub mod CheckLaws
pub mod Validity
pub mod Layers
pub mod LayerLaws
pub mod Brokers
pub mod BrokerLaws
