-- ===== src/Evidence/Manifest.antt =====
-- `build_evidence_manifest`: the control plane rebuilds the evidence of an Attempt from its own
-- facts, and its root digest from the canonical document.
pub mod OrderFree
pub mod Ordered
pub mod Trust
use qarunner.Prelude.{
  Bool, List, Option, String, String-discrete, [], false, if◌then◌else◌, none, not, ok, raise_if,
  raised, same, some, true, ℕ, ℕ_discrete, ◌==◌, ◌>>=◌, ◌>>◌, ◌||◌, ◌∷◌,
}
use qarunner.Values.{
  Command, Digest, WorkerRef, artifact_invalid, digest_eq, evidence_not_ready, ref_eq,
}
use qarunner.Values.Canonical.{Fields, Hash, Json, canonical_digest, end}
use qarunner.Evidence.Stop.{TrustedCancellationStop, stop_digest}
use qarunner.Evidence.Classify.{
  EvidenceOutcome, PlatformExitClass, TrustedExitFacts, ValidatedCaseSummary, classify_outcome,
}
use qarunner.Evidence.Payload.{Subject, payload_json, stop_json}
use qarunner.Evidence.Ordering.{
  ArtifactClass, VerifiedArtifact, has_duplicate_path, sorted, structured_result,
}

pub record EvidenceManifest : Type 0 where
  pub schema_version : String
  pub attempt_id : String
  pub run_id : String
  pub attempt_no : ℕ
  pub assignment_id : String
  pub fence : ℕ
  pub worker : WorkerRef
  pub execution_spec_digest : Digest
  pub platform_exit : TrustedExitFacts
  pub case_summary : Option ValidatedCaseSummary
  pub artifacts : List VerifiedArtifact
  pub classification_version : String
  pub outcome : EvidenceOutcome
  pub root_digest : Digest
  pub cancellation_stop : Option TrustedCancellationStop

abbrev is_cancelled_exit : PlatformExitClass → Bool
is_cancelled_exit PlatformExitClass.cancelled = true
is_cancelled_exit _ = false

abbrev not_ready : String → Command (Unit {0})
not_ready reason = raised (evidence_not_ready reason)

-- `_ensure_cancellation_stop_binding`.
ensure_stop_binding :
    Subject → TrustedExitFacts → Option TrustedCancellationStop → Command (Unit {0})
ensure_stop_binding a e none = ok tt
ensure_stop_binding a e (some s) = do
  raise_if (not (is_cancelled_exit e.exit_class))
      (evidence_not_ready "trusted cancellation stop proof requires a cancelled exit")
  raise_if (not (same s.source_event_id e.source_event_id))
      (evidence_not_ready "cancellation stop source event does not match exit facts")
  raise_if
      (not (same s.run_id a.run_id)
        || not (same s.attempt_id a.attempt_id)
        || not (s.fence == a.fence)
        || not (ref_eq s.worker a.worker))
      (evidence_not_ready "cancellation stop proof does not match the attempt")

-- `next((artifact for artifact in artifacts if artifact.path == path), None)`.
unfoldable pub find_path : String → List VerifiedArtifact → Option VerifiedArtifact
find_path p [] = none
find_path p (a ∷ l) = if same a.path.value p then some a else find_path p l

abbrev is_structured : ArtifactClass → Bool
is_structured structured_result = true
is_structured _ = false

check_source : ValidatedCaseSummary → Option VerifiedArtifact → Command (Unit {0})
check_source s none = not_ready "case summary source artifact is missing"
check_source s (some a) = do
  raise_if (not (is_structured a.content_class))
      (evidence_not_ready "case summary source is not a structured result")
  raise_if (not (digest_eq a.digest s.source_artifact_digest))
      (evidence_not_ready "case summary source digest does not match the artifact")

-- `_ensure_case_summary_source`.
ensure_case_summary_source :
    Option ValidatedCaseSummary → List VerifiedArtifact → Command (Unit {0})
unfolding check_source find_path
ensure_case_summary_source none artifacts = ok tt
ensure_case_summary_source (some s) artifacts =
    check_source s (find_path s.source_artifact_path.value artifacts)

-- The root digest, with or without a cancellation stop.
root_of : Hash → Option TrustedCancellationStop → (Fields → Json) → Command (String × Digest)
unfolding canonical_digest stop_digest stop_json
root_of sha256 none payload = do
  root ← canonical_digest sha256 "qep.m0-attempt-evidence.v1" (payload end)
  ok ("qep.m0-attempt-evidence.v1", root)
root_of sha256 (some s) payload = do
  proof ← stop_digest sha256 s
  root ← canonical_digest sha256 "qep.m0-attempt-evidence.v2" (payload (stop_json proof s))
  ok ("qep.m0-attempt-evidence.v2", root)

build_from :
    Hash
    → Subject
    → TrustedExitFacts
    → Option ValidatedCaseSummary
    → List VerifiedArtifact
    → Option TrustedCancellationStop
    → Command EvidenceManifest
unfolding ensure_stop_binding ensure_case_summary_source payload_json root_of
build_from sha256 a e summary artifacts stop = do
  ensure_stop_binding a e stop
  let ordered = sorted artifacts
  raise_if (has_duplicate_path ordered) (artifact_invalid "path" "must be unique within an Attempt")
  ensure_case_summary_source summary ordered
  outcome ← classify_outcome e summary stop
  root ← root_of sha256 stop (payload_json a e summary ordered outcome)
  ok (record {
    schema_version = root.0;
    attempt_id = a.attempt_id;
    run_id = a.run_id;
    attempt_no = a.attempt_no;
    assignment_id = a.assignment_id;
    fence = a.fence;
    worker = a.worker;
    execution_spec_digest = a.execution_spec_digest;
    platform_exit = e;
    case_summary = summary;
    artifacts = ordered;
    classification_version = "qep.attempt-classification.v1";
    outcome = outcome;
    root_digest = root.1;
    cancellation_stop = stop;
  })

-- `build_evidence_manifest`.
unfoldable pub build_evidence_manifest :
    Hash
    → Subject
    → Option TrustedExitFacts
    → Option ValidatedCaseSummary
    → List VerifiedArtifact
    → Option TrustedCancellationStop
    → Command EvidenceManifest
unfolding build_from
build_evidence_manifest sha256 a none summary artifacts stop =
    raised (evidence_not_ready "trusted platform exit facts are missing")
build_evidence_manifest sha256 a (some e) summary artifacts stop =
    build_from sha256 a e summary artifacts stop

-- The equality of the dataclasses.
pub EvidenceManifest-discrete : Discrete EvidenceManifest
EvidenceManifest-discrete = hlevel (ℕ_discrete, String-discrete)
