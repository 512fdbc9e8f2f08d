-- ===== src/Examples.antt =====
-- Concrete runs of the code, at which the theorems with hypotheses apply.
pub mod Plane
pub mod Issued
pub mod Budgets
pub mod Brokered
pub mod Discovered
pub mod Served
pub mod Declared
pub mod Schemas
pub mod Callers
