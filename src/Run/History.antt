-- ===== src/Run/History.antt =====
-- What any accepted commands keep of a Run.
pub mod Extends
pub mod Steps
pub mod Traces
pub mod Cancelled
pub mod Redelivery
pub mod Started
pub mod Starts
pub mod Once
