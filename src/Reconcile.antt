-- ===== src/Reconcile.antt =====
-- reconcile/: what the local ledgers and the exchange say of each other.
pub mod Model
pub mod Classify
pub mod Attribution
pub mod Correlate
pub mod Gate
pub mod Balances
pub mod CrossDomain
