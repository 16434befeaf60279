-- ===== src/Tests.antt =====
-- Small inputs on which the theorems apply.
mod Samples
mod Reaching
mod Rules
mod Guards
mod Texts
mod Policies
mod Branches
