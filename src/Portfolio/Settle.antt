-- ===== src/Portfolio/Settle.antt =====
-- portfolio/Portfolio.ts: the three accounting paths that count an exchange order once, by execution
-- (`applyLiveFill`), by manual intent (`settleManualOrder`) and by attested live order
-- (`settleLiveOrderAttested`).
pub mod Aggregate
pub mod Execution
pub mod Intent
pub mod Attestation
pub mod Steps
pub mod Kept
pub mod Once
pub mod Added
pub mod Manual
pub mod Attested
pub mod Repeat
pub mod Pairing
pub mod Backing
