-- ===== src/Console.antt =====
-- The administration console (internal/console).
mod Errors
pub mod Names
pub mod Values
pub mod Alerts
pub mod Auth
pub mod Retirement
pub use Errors.*
