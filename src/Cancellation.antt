-- ===== src/Cancellation.antt =====
-- domain/cancellation.py: the request to stop a Run, and the digests that its replay is known by.
use qarunner.Prelude.{String, is_blank, ok, raise_if, ◌>>◌}
use qarunner.Values.{Command, DateTime, Digest, DomainError, invalid, require_utc}
use qarunner.Values.Canonical.{Hash, digest_json, end, member, obj, str, time}

pub data CancellationSource : Type 0 where
  user_request : CancellationSource
  deadline_exceeded : CancellationSource
  policy_enforcement : CancellationSource

abbrev source_value : CancellationSource → String
source_value user_request = "user_request"
source_value deadline_exceeded = "deadline_exceeded"
source_value policy_enforcement = "policy_enforcement"

pub record CancellationIntent : Type 0 where
  pub run_id : String
  pub idempotency_key : String
  pub source : CancellationSource
  pub actor_id : String
  pub reason : String
  pub recorded_at : DateTime

abbrev bad : String → String → DomainError
bad = invalid "cancellation_intent"

-- `CancellationIntent.__post_init__`.
unfoldable pub cancel_intent_post_init : CancellationIntent → Command CancellationIntent
unfolding require_utc
cancel_intent_post_init c = do
  raise_if (is_blank c.run_id) (bad "run_id" "empty")
  raise_if (is_blank c.idempotency_key) (bad "idempotency_key" "empty")
  raise_if (is_blank c.actor_id) (bad "actor_id" "empty")
  raise_if (is_blank c.reason) (bad "reason" "empty")
  require_utc "cancellation_intent" "recorded_at" c.recorded_at
  ok c

-- `request_digest`. Both payloads hold texts only, so `canonical_digest` never refuses them.
unfoldable pub cancel_request_digest : Hash → CancellationIntent → Digest
cancel_request_digest sha256 c = sha256 "qep.cancellation-request.v1" (
    obj (
      member "run_id" (str c.run_id) (
        member "idempotency_key" (str c.idempotency_key) (
          member "source" (str (source_value c.source))
            (member "actor_id" (str c.actor_id) (member "reason" (str c.reason) end))))))

-- `digest`.
unfoldable pub cancel_intent_digest : Hash → CancellationIntent → Digest
unfolding cancel_request_digest
cancel_intent_digest sha256 c = sha256 "qep.cancellation-intent.v1" (
    obj (
      member "request_digest" (digest_json (cancel_request_digest sha256 c))
        (member "recorded_at" (time c.recorded_at) end)))
