-- ===== src/Balance.antt =====
-- crates/libsubby/src/balance: which sub serves a proxied request.
pub mod Failure
pub mod Exhaustion
pub mod Strategy
pub mod Router
pub mod Selection
pub mod Ladder
pub mod Select
pub mod History
mod Samples
