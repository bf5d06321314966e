-- ===== src/Risk.antt =====
-- risk/: the gate between the signal of a strategy and an order.
pub mod Doubles
pub mod Model
pub mod Judged
pub mod State
pub mod Quantity
pub mod Sell
pub mod Buy
pub mod Manager
