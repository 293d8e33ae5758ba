-- ===== src/Safety.antt =====
-- The fleet's safety: what every transaction of the controller and of its agents preserves.
pub mod Effects
pub mod Operations
pub mod Sweeping
pub mod Invariant
pub mod Choice
pub mod Placing
pub mod Admitting
pub mod Ticking
pub mod Hosting
pub mod Serving
pub mod Requests
pub mod Cancelling
