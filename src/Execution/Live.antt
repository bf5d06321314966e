-- ===== src/Execution/Live.antt =====
-- execution/LiveExecutionEngine.ts, with the hooks of liveHooks.ts that its callers give it.
pub mod Model
pub mod Validate
pub mod Hooks
pub mod Submit
pub mod Place
pub mod Recover
