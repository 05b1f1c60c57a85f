-- ===== src/Tests.antt =====
-- Concrete runs of the theorems: sample parameters, and the sample data of each part.
pub mod Samples
mod Checks
mod Saved
mod Written
mod RolledBack
mod Listed
mod Served
mod Configured
mod Settled
