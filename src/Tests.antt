-- ===== src/Tests.antt =====
-- Concrete portfolios and amounts (money/Money.ts, portfolio/Portfolio.ts), and the code on them.
pub mod Data
pub mod Fills
pub mod Orders
mod Amounts
mod Gate
mod Settlements
mod Pools
mod Evidence
mod Controlled
mod Domains
mod Budgets
mod Live
mod Recoveries
mod Paper
mod Monitoring
mod Preparing
