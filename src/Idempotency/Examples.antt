-- ===== src/Idempotency/Examples.antt =====
-- One stored response.
use qarunner.Prelude.{ok, pos, raised, true, ◌≡◌, ◌≢◌}
use qarunner.Values.{Digest, idempotency_conflict}
use qarunner.Idempotency.{create_record, resolve, resolve-create}

abbrev request : Digest
request = record { value = "d1" }

resolve-create_example :
    (resolve (create_record "cancel" "k1" request (pos 202) "r1") request
      ≡ ok (record { response_status = pos 202; response_ref = "r1"; replayed = true }))
    × ((other : Digest)
        → other ≢ request
        → resolve (create_record "cancel" "k1" request (pos 202) "r1") other
          ≡ raised (idempotency_conflict "cancel" "k1" request other))
resolve-create_example = resolve-create "cancel" "k1" request (pos 202) "r1"
