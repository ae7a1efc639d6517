-- ===== src/Tests.antt =====
-- Concrete runs of the services, and the theorems at concrete inputs.
pub mod Ratio
pub mod Shop
mod Charges
mod Reversals
mod Till
mod Access
mod Jobs
mod Views
mod People
