-- ===== src/Risk.antt =====
-- The risk engine: src/exchange/core/processors/RiskEngine.cpp and what it works on.
pub mod Position
pub mod Arithmetic
pub mod Users
pub mod Exchange
pub mod Engine
pub mod Margin
pub mod PostProcess
