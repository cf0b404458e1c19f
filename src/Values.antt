-- ===== src/Values.antt =====
-- The values that the aggregates of src/qarunner/domain share: times, identities, errors
-- (domain/errors.py) and the checks made on them.
mod Time
mod Identity
mod Errors
mod Checks
pub mod Canonical
pub mod Laws
pub use Time.*
unfoldable pub use Identity.{digest_eq, ref_eq, event_eq}
pub use Identity.{Digest, WorkerRef, AttemptAuthority, WorkerAuthority, AttemptEvent}
pub use Errors.*
unfoldable pub use Checks.{
  ensure_expected_version, require_utc, WorkerRef_post_init, AttemptAuthority_post_init,
  AttemptEvent_post_init,
}
