-- ===== src/Common.antt =====
-- The data that the components exchange: include/exchange/core/common.
mod Enums
mod Records
pub mod Codes
pub use Enums.*
pub use Records.*
