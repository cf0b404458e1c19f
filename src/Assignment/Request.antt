-- ===== src/Assignment/Request.antt =====
-- The identity of a closure request, by which its replay is known, and that of the whole closure.
use qarunner.Prelude.{Option, String, none, some, ◌>>=◌}
use qarunner.Values.{Command, Digest}
use qarunner.Values.Canonical.{
  Fields, Hash, canonical_digest, digest_json, end, member, obj, optional, str, time, worker_json,
}
use qarunner.Assignment.{AssignmentClosure, AssignmentClosureKind, cancelled, expired, released}

abbrev closure_kind_value : AssignmentClosureKind → String
closure_kind_value expired = "expired_prestart"
closure_kind_value released = "released_prestart"
closure_kind_value cancelled = "cancelled_prestart"

-- `request_digest`.
unfoldable pub closure_request_digest : Hash → AssignmentClosure → Command Digest
unfolding canonical_digest
closure_request_digest sha256 c = canonical_digest sha256 "qep.assignment-closure-request.v1" (
    obj (
      member "assignment_id" (str c.assignment_id) (
        member "idempotency_key" (str c.idempotency_key) (
          member "kind" (str (closure_kind_value c.kind))
            (member "worker" (optional worker_json c.worker) end)))))

-- `digest`. Its last field is there only with a cancellation intent.
abbrev cancellation_field : Option Digest → Fields
cancellation_field none = end
cancellation_field (some d) = member "cancellation_intent_digest" (digest_json d) end

unfoldable pub closure_digest : Hash → AssignmentClosure → Command Digest
unfolding closure_request_digest
closure_digest sha256 c = do
  request ← closure_request_digest sha256 c
  canonical_digest sha256 "qep.assignment-closure.v1" (
      obj (
        member "request_digest" (digest_json request) (
          member "effective_at" (time c.effective_at) (
            member "recorded_at" (time c.recorded_at)
              (cancellation_field c.cancellation_intent_digest)))))
