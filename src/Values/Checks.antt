-- ===== src/Values/Checks.antt =====
-- `ensure_expected_version` of domain/errors.py, the `_require_utc` of the aggregates, and the
-- constructors' checks of the values of Identity.
use qarunner.Prelude.{String, is_blank, negsuc, not, ok, pos, raise_if, raised, ℕ, ℤ, ◌==◌, ◌>>◌}
use qarunner.Values.Time.{DateTime, is_utc}
use qarunner.Values.Identity.{AttemptAuthority, AttemptEvent, WorkerRef}
use qarunner.Values.Errors.{Command, invalid, version_conflict}

unfoldable pub ensure_expected_version : String → String → ℕ → ℤ → Command (Unit {0})
ensure_expected_version entity_type entity_id current (negsuc n) =
    raised (invalid entity_type "expected_version" "negative")
ensure_expected_version entity_type entity_id current (pos n) =
    raise_if (not (n == current)) (version_conflict entity_type entity_id current n)

unfoldable pub require_utc : String → String → DateTime → Command (Unit {0})
require_utc entity_type field t = raise_if (not (is_utc t)) (invalid entity_type field "not_utc")

unfoldable pub WorkerRef_post_init : WorkerRef → Command WorkerRef
WorkerRef_post_init r = do
  raise_if (is_blank r.worker_id) (invalid "worker_ref" "worker_id" "empty_id")
  raise_if (r.generation == 0) (invalid "worker_ref" "generation" "not_positive")
  ok r

unfoldable pub AttemptAuthority_post_init : AttemptAuthority → Command AttemptAuthority
AttemptAuthority_post_init a = do
  raise_if (a.current_fence == 0) (invalid "attempt_authority" "current_fence" "not_positive")
  ok a

unfoldable pub AttemptEvent_post_init : AttemptEvent → Command AttemptEvent
AttemptEvent_post_init e = do
  raise_if (is_blank e.event_id) (invalid "attempt_event" "event_id" "empty")
  raise_if (is_blank e.event_type) (invalid "attempt_event" "event_type" "empty")
  raise_if (e.event_seq == 0) (invalid "attempt_event" "event_seq" "not_positive")
  ok e
