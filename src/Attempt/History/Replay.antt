-- ===== src/Attempt/History/Replay.antt =====
-- Commands that are delivered twice.
use qarunner.Prelude.{
  List, Option, [], arith, none, ok, refl, same_iff, some, true, ℕ, ℤ, ◌++◌, ◌∙◌, ◌∷◌, ◌≡◌,
}
use qarunner.Values.{AttemptAuthority, AttemptEvent, WorkerRef}
use qarunner.Values.Canonical.{Hash}
use qarunner.Attempt.{Attempt}
use qarunner.Attempt.Commands.{find_event, record_event}
use qarunner.Attempt.Validity.{IsValid}
use qarunner.Attempt.Events.{Recorded, ensure_authority_iff, record_event_iff}
use qarunner.Attempt.Finalize.{
  Facts, FinalizeEvidenceResult, finalize_stored, finalize_with_stop, replay, subject_of,
}
use qarunner.Evidence.Stop.{TrustedCancellationStop}
use qarunner.Evidence.Manifest.{EvidenceManifest}
use qarunner.Values.Laws.{digest_eq_iff}
use qarunner.Attempt.History.Traces.{report-Stepped}
use qarunner.Attempt.History.Steps.{Outcome, finalize-Outcome}

find_event-snoc :
    (e : AttemptEvent) (es : List AttemptEvent)
    → find_event e es ≡ none
    → find_event e (es ++ e ∷ []) ≡ some e
unfolding find_event
find_event-snoc e [] h = ground (arith, same_iff e.event_id e.event_id)
find_event-snoc e (f ∷ es) h = ground (arith, find_event-snoc e es)

-- Once recorded, the event is the stored one that shares its id or its number.
find_event-Recorded :
    (a v : Attempt) (e : AttemptEvent) (expected : ℤ) (o : Option AttemptEvent)
    → find_event e a.events ≡ o
    → Recorded a v e expected o
    → find_event e v.events ≡ some e
find_event-Recorded a v e expected none h r = ground (arith, find_event-snoc e a.events)
find_event-Recorded a v e expected (some existing) h r = ground arith

-- An event that was recorded once is accepted when it is delivered again, at any expected version,
-- and the repetition changes nothing.
pub record_event-again :
    (sha256 : Hash) (a v : Attempt) (e : AttemptEvent) (authority : AttemptAuthority)
    (worker : WorkerRef) (fence : ℕ) (expected again : ℤ)
    → IsValid sha256 a
    → record_event sha256 a e authority worker fence expected ≡ ok v
    → record_event sha256 v e authority worker fence again ≡ ok v
record_event-again sha256 a v e authority worker fence expected again valid h =
    let (auth, rec) = (record_event_iff sha256 a v e authority worker fence expected valid).0 h in
    let found = find_event-Recorded a v e expected (find_event e a.events) refl rec in
    let s = report-Stepped sha256 a v e authority worker fence expected valid h in
    (record_event_iff sha256 v v e authority worker fence again s.valid).1 (
      record {
        own_fence = s.same_fence ∙ auth.own_fence;
        caller_fence = auth.caller_fence;
        own_worker = s.same_worker ∙ auth.own_worker;
        caller_worker = auth.caller_worker;
      },
      ground (arith, found),
    )

Outcome-again :
    (sha256 : Hash) (a : Attempt) (r : FinalizeEvidenceResult) (f : Facts) (expected : ℤ)
    (stored : Option EvidenceManifest) (m : EvidenceManifest)
    → a.evidence ≡ stored
    → Outcome sha256 a r f expected stored m
    → (r.attempt.evidence ≡ some m)
      × (f.proposal_root ≡ m.root_digest)
      × (subject_of r.attempt ≡ subject_of a)
      × (r.attempt.fence ≡ a.fence)
      × (r.attempt.worker ≡ a.worker)
Outcome-again sha256 a r f expected none m e o = ground arith
Outcome-again sha256 a r f expected (some stored) m e o = ground arith

finalize_stored-same :
    (sha256 : Hash) (a : Attempt) (o : Option EvidenceManifest) (m : EvidenceManifest) (f : Facts)
    (expected : ℤ)
    → o ≡ some m
    → f.proposal_root ≡ m.root_digest
    → finalize_stored sha256 a o m f expected
      ≡ ok (record { attempt = a; evidence = m; replayed = true })
unfolding finalize_stored replay
finalize_stored-same sha256 a none m f expected e h = ground arith
finalize_stored-same sha256 a (some stored) m f expected e h =
    ground (arith, digest_eq_iff f.proposal_root m.root_digest)

-- A finalization that was accepted once is accepted when it is delivered again with the same facts,
-- at any expected version: it answers with the stored evidence and the Attempt as it is, marked as
-- a replay.
pub finalize-again :
    (sha256 : Hash) (a : Attempt) (r : FinalizeEvidenceResult) (f : Facts)
    (authority : AttemptAuthority) (worker : WorkerRef) (fence : ℕ) (expected again : ℤ)
    (stop : Option TrustedCancellationStop)
    → finalize_with_stop sha256 a f authority worker fence expected stop ≡ ok r
    → finalize_with_stop sha256 r.attempt f authority worker fence again stop
      ≡ ok (record { attempt = r.attempt; evidence = r.evidence; replayed = true })
unfolding finalize_with_stop
finalize-again sha256 a r f authority worker fence expected again stop h =
    let (auth, built, o) = finalize-Outcome sha256 a r f authority worker fence expected stop h in
    let (stored, root, subject, fence_same, worker_same) =
      Outcome-again sha256 a r f expected a.evidence r.evidence refl o in
    let allowed = (ensure_authority_iff r.attempt authority worker fence).1 (record {
      own_fence = fence_same ∙ auth.own_fence;
      caller_fence = auth.caller_fence;
      own_worker = worker_same ∙ auth.own_worker;
      caller_worker = auth.caller_worker;
    }) in
    rw (allowed, subject, built)
      (finalize_stored-same sha256 r.attempt r.attempt.evidence r.evidence f again stored root)
