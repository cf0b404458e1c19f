-- ===== src/Evidence/Examples.antt =====
-- The evidence of one passed attempt; the theorems at it.
use mathlib.Core.List.{Permᴰ}
use qarunner.Prelude.{String, [], false, none, ok, pos, raised, refl, some, ◌↔◌, ◌∷◌, ◌≡◌}
use qarunner.Values.{Digest, artifact_invalid, digest_eq, ref_eq}
use qarunner.Values.Canonical.{Hash, is_valid_json}
use qarunner.Evidence.FilePath.{ArtifactPath, path_post_init, segments, split_slash}
use qarunner.Evidence.FilePath.Safety.{path_stays_below, reverse_onto, walk}
use qarunner.Evidence.Classify.{
  EvidenceOutcome, PlatformExitClass, TrustedExitFacts, ValidatedCaseSummary, classify_outcome,
}
use qarunner.Evidence.Classify.Outcomes.{Shows, classify_outcome_iff}
use qarunner.Evidence.Payload.{Subject, artifacts_json, exit_json, payload_json, summary_json}
use qarunner.Evidence.Ordering.{
  VerifiedArtifact, codes_le, has_duplicate_path, log, sorted, structured_result,
}
use qarunner.Evidence.Manifest.{EvidenceManifest, build_evidence_manifest, find_path}
use qarunner.Evidence.Manifest.OrderFree.{build_evidence_manifest-perm}
use qarunner.Evidence.Manifest.Trust.{Trusted, build_evidence_manifest-Trusted}

-- A stand-in for SHA-256.
abbrev sha256 : Hash
sha256 schema payload = record { value = schema }

abbrev path : String → ArtifactPath
path s = record { value = s }

abbrev digest : String → Digest
digest s = record { value = s }

abbrev subject : Subject
subject = record {
  attempt_id = "t1";
  run_id = "r1";
  attempt_no = 1;
  assignment_id = "a1";
  fence = 1;
  worker = record { worker_id = "w1"; generation = 2 };
  execution_spec_digest = digest "spec";
}

abbrev exit_facts : TrustedExitFacts
exit_facts = record {
  source_event_id = "e9";
  pid = some (pos 41);
  exit_class = PlatformExitClass.completed;
  exit_code = some (pos 0);
  signal = none;
  oom = false;
  timeout = false;
}

abbrev results : VerifiedArtifact
results = record {
  path = path "out/results.json";
  content_class = structured_result;
  size_bytes = 120;
  digest = digest "res";
}

abbrev run_log : VerifiedArtifact
run_log = record {
  path = path "log.txt";
  content_class = log;
  size_bytes = 7;
  digest = digest "log";
}

abbrev summary : ValidatedCaseSummary
summary = record {
  schema_version = "v1";
  source_artifact_path = path "out/results.json";
  source_artifact_digest = digest "res";
  expected = 3;
  passed = 2;
  failed = 0;
  skipped = 1;
  not_reported = 0;
  unexpected = 0;
}

program : Unit {0}
unfolding build_evidence_manifest classify_outcome sorted has_duplicate_path find_path
    path_post_init split_slash codes_le ref_eq digest_eq is_valid_json payload_json summary_json
    artifacts_json exit_json
program = tt

abbrev built : EvidenceManifest
built = record {
  schema_version = "qep.m0-attempt-evidence.v1";
  attempt_id = "t1";
  run_id = "r1";
  attempt_no = 1;
  assignment_id = "a1";
  fence = 1;
  worker = subject.worker;
  execution_spec_digest = digest "spec";
  platform_exit = exit_facts;
  case_summary = some summary;
  artifacts = run_log ∷ results ∷ [];
  classification_version = "qep.attempt-classification.v1";
  outcome = EvidenceOutcome.passed;
  root_digest = digest "qep.m0-attempt-evidence.v1";
  cancellation_stop = none;
}

build_evidence_manifest-built :
    build_evidence_manifest sha256 subject
      (some exit_facts)
      (some summary)
      (results ∷ run_log ∷ [])
      none
    ≡ ok built
unfolding program
build_evidence_manifest-built = refl

build_evidence_manifest-perm_example :
    build_evidence_manifest sha256 subject
      (some exit_facts)
      (some summary)
      (results ∷ run_log ∷ [])
      none
    ≡ build_evidence_manifest sha256 subject
        (some exit_facts)
        (some summary)
        (run_log ∷ results ∷ [])
        none
build_evidence_manifest-perm_example =
    build_evidence_manifest-perm sha256 subject (some exit_facts) (some summary) none
      (Permᴰ.swap refl refl)

build_evidence_manifest-Trusted_example :
    (e : TrustedExitFacts) × (some exit_facts ≡ some e)
    × Trusted subject e (some summary) (results ∷ run_log ∷ []) none built
build_evidence_manifest-Trusted_example =
    build_evidence_manifest-Trusted sha256 subject (some exit_facts) (some summary)
      (results ∷ run_log ∷ []) none built build_evidence_manifest-built

classify_outcome_iff_example :
    (classify_outcome exit_facts (some summary) none ≡ ok EvidenceOutcome.passed)
    ↔ Shows EvidenceOutcome.passed exit_facts (some summary) none
classify_outcome_iff_example =
    classify_outcome_iff exit_facts (some summary) none EvidenceOutcome.passed

path_accepted : path_post_init (path "out/results.json") ≡ ok (path "out/results.json")
unfolding program
path_accepted = refl

path_stays_below_example :
    walk [] (segments (path "out/results.json"))
    ≡ some (reverse_onto [] (segments (path "out/results.json")))
path_stays_below_example =
    path_stays_below (path "out/results.json") (path "out/results.json") path_accepted

path_escaping :
    path_post_init (path "out/../../etc")
    ≡ raised (artifact_invalid "path" "contains an unsafe segment")
unfolding program
path_escaping = refl
