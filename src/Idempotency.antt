-- ===== src/Idempotency.antt =====
-- domain/idempotency.py: the stored response of a command, and its replay.
mod Examples
use qarunner.Prelude.{Bool, String, arith, not, ok, raise_if, raised, true, ℤ, ◌>>◌, ◌≡◌, ◌≢◌}
use qarunner.Values.{Command, Digest, digest_eq, idempotency_conflict}
use qarunner.Values.Laws.{digest_eq_iff}

pub record IdempotencyResolution : Type 0 where
  pub response_status : ℤ
  pub response_ref : String
  pub replayed : Bool

pub record IdempotencyRecord : Type 0 where
  pub scope : String
  pub key : String
  pub request_digest : Digest
  pub response_status : ℤ
  pub response_ref : String

unfoldable pub create_record : (scope key : String) → Digest → ℤ → String → IdempotencyRecord
create_record scope key request_digest response_status response_ref = record {
  scope = scope;
  key = key;
  request_digest = request_digest;
  response_status = response_status;
  response_ref = response_ref;
}

unfoldable pub resolve : IdempotencyRecord → Digest → Command IdempotencyResolution
unfolding digest_eq
resolve r request_digest = do
  raise_if (not (digest_eq request_digest r.request_digest))
      (idempotency_conflict r.scope r.key r.request_digest request_digest)
  ok (record {
    response_status = r.response_status;
    response_ref = r.response_ref;
    replayed = true;
  })

-- A response that was stored for a request comes back as it was, marked as replayed, when the same
-- request arrives again; a request with another digest under the same key is refused with both
-- digests.
pub resolve-create :
    (scope key : String) (request : Digest) (status : ℤ) (reference : String)
    → (resolve (create_record scope key request status reference) request
        ≡ ok (record { response_status = status; response_ref = reference; replayed = true }))
      × ((other : Digest)
          → other ≢ request
          → resolve (create_record scope key request status reference) other
            ≡ raised (idempotency_conflict scope key request other))
unfolding resolve create_record
resolve-create scope key request status reference = (
  ground (arith, digest_eq_iff request request),
  λ other n. ground (arith, digest_eq_iff other request),
)
