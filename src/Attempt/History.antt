-- ===== src/Attempt/History.antt =====
-- What any accepted commands keep of an Attempt.
pub mod Steps
pub mod Traces
pub mod Lasting
pub mod Replay
