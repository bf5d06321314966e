-- ===== src/Portfolio.antt =====
-- portfolio/: the accounting of the bot. Model has the state, Ids the identities, Dicts the sums
-- over maps; the operations of portfolio/Portfolio.ts stand in Ownership, Reserve, Fill and Settle.
pub mod Model
pub mod Ids
pub mod Equity
pub mod Reserve
pub mod Ownership
pub mod Fill
pub mod Settle
pub mod Sums
