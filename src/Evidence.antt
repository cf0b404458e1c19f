-- ===== src/Evidence.antt =====
-- domain/evidence.py: the values that Attempt evidence is built from. Paths, the classification,
-- the canonical order of artifacts and the rebuilt manifest are the children.
pub mod Stop
pub mod FilePath
pub mod Classify
pub mod Ordering
pub mod Payload
pub mod Manifest
mod Examples
