-- ===== src/TierMap.antt =====
-- The salience classifier: internal/tiermap and the tier layer of internal/config.
pub mod Defs
pub mod Laws
pub mod Precedence
