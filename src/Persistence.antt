-- ===== src/Persistence.antt =====
-- The evidence that vaaet-persistence keeps of what the workflows wrote.
pub mod Metadata
pub mod Runs
pub mod Repeats
pub mod Audit
pub mod Reconciled
pub mod Ordered
pub mod Fingerprint
pub mod Reordered
pub mod Receipts
pub mod Match
pub mod Batches
pub mod States
mod Examples
mod Contents
