-- ===== src/MarketData.antt =====
-- marketdata/: how fresh a snapshot is.
pub mod Freshness
