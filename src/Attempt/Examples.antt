-- ===== src/Attempt/Examples.antt =====
-- One Attempt that runs, reports and ends with evidence, and one that is lost; the theorems at
-- these lives.
use qarunner.Prelude.{
  String, [], arith, false, is_blank, none, ok, pos, refl, some, true, ℕ, ◌∷◌, ◌≡◌,
}
use qarunner.Values.{AttemptAuthority, AttemptEvent, Digest, WorkerRef, digest_eq, event_eq, ref_eq}
use qarunner.Values.Canonical.{Hash, is_valid_json}
use qarunner.Evidence.FilePath.{path_post_init, split_slash}
use qarunner.Evidence.Classify.{PlatformExitClass, TrustedExitFacts, classify_outcome}
use qarunner.Evidence.Payload.{artifacts_json, exit_json, payload_json, summary_json}
use qarunner.Evidence.Ordering.{VerifiedArtifact, codes_le, has_duplicate_path, log, report, sorted}
use qarunner.Evidence.Manifest.{EvidenceManifest, build_evidence_manifest, find_path}
use qarunner.Attempt.History.Lasting.{Reach, create-Reach, ended_stays, here, then}
use qarunner.Attempt.{
  Attempt, evidence_check, history_check, observation_check, post_init, provenance_check,
  provisioning, start_committed, uploading,
}
use qarunner.Attempt.Commands.{
  create, ensure_authority, enter_unknown, find_event, mark_stored, mark_unknown, record_event,
  record_found, transition, with_event,
}
use qarunner.Attempt.Finalize.{
  Facts, FinalizeEvidenceResult, finalize_stored, finalize_with_stop, first_finalize, subject_of,
  with_evidence,
}
use qarunner.Attempt.Validity.{IsValid}
use qarunner.Attempt.Events.{Authorised, NumberedFrom}
use qarunner.Attempt.History.Steps.{Outcome, finalize-Outcome, moved}
use qarunner.Attempt.History.Traces.{apply, change, finish, report}
use qarunner.Attempt.History.Replay.{finalize-again, record_event-again}

-- A stand-in for SHA-256.
abbrev sha256 : Hash
sha256 schema payload = record { value = schema }

abbrev digest : String → Digest
digest s = record { value = s }

abbrev w1 : WorkerRef
w1 = record { worker_id = "w1"; generation = 2 }

abbrev current : AttemptAuthority
current = record { current_fence = 1; current_worker = w1 }

abbrev fresh : Attempt
fresh = record {
  id = "t1";
  run_id = "r1";
  attempt_no = 1;
  fence = 1;
  assignment_id = "a1";
  worker = w1;
  spec_digest = digest "spec";
  start_commit_key = "k1";
  events = [];
  evidence = none;
  unknown_observation = none;
  adjudications = [];
  state = start_committed;
  version = 0;
  retry_provenance = none;
}

abbrev prepared : Attempt
prepared = moved fresh provisioning

abbrev sent : Attempt
sent = moved prepared uploading

abbrev log_line : ℕ → String → AttemptEvent
log_line n id = record {
  event_id = id;
  event_seq = n;
  event_type = "log";
  payload_digest = digest id;
}

abbrev logged : Attempt
logged = with_event sent (log_line 1 "e1")

abbrev exit_facts : TrustedExitFacts
exit_facts = record {
  source_event_id = "e9";
  pid = some (pos 41);
  exit_class = PlatformExitClass.infra_failed;
  exit_code = none;
  signal = none;
  oom = true;
  timeout = false;
}

abbrev run_log : VerifiedArtifact
run_log = record {
  path = record { value = "log.txt" };
  content_class = log;
  size_bytes = 7;
  digest = digest "log";
}

abbrev facts : Facts
facts = record {
  proposal_root = digest "qep.m0-attempt-evidence.v1";
  trusted_exit = some exit_facts;
  case_summary = none;
  artifacts = run_log ∷ [];
  required_artifact_paths = run_log.path ∷ [];
}

program : Unit {0}
unfolding build_evidence_manifest classify_outcome sorted has_duplicate_path find_path
    path_post_init split_slash codes_le ref_eq digest_eq event_eq is_valid_json payload_json
    summary_json artifacts_json exit_json create post_init is_blank evidence_check observation_check
    provenance_check history_check apply transition record_event record_found find_event
    ensure_authority mark_unknown mark_stored enter_unknown finalize_with_stop finalize_stored
    first_finalize
program = tt

abbrev manifest : EvidenceManifest
manifest = record {
  schema_version = "qep.m0-attempt-evidence.v1";
  attempt_id = "t1";
  run_id = "r1";
  attempt_no = 1;
  assignment_id = "a1";
  fence = 1;
  worker = w1;
  execution_spec_digest = digest "spec";
  platform_exit = exit_facts;
  case_summary = none;
  artifacts = run_log ∷ [];
  classification_version = "qep.attempt-classification.v1";
  outcome = qarunner.Evidence.Classify.EvidenceOutcome.infra_failed;
  root_digest = digest "qep.m0-attempt-evidence.v1";
  cancellation_stop = none;
}

abbrev ended : Attempt
ended = with_evidence logged manifest

abbrev finalized : FinalizeEvidenceResult
finalized = record { attempt = ended; evidence = manifest; replayed = false }

logged-IsValid : IsValid sha256 logged
unfolding program
logged-IsValid = ground arith

sent-IsValid : IsValid sha256 sent
unfolding program
sent-IsValid = ground arith

ended-IsValid : IsValid sha256 ended
unfolding program
ended-IsValid = ground arith

record_event-logged : record_event sha256 sent (log_line 1 "e1") current w1 1 (pos 2) ≡ ok logged
unfolding program
record_event-logged = refl

record_event-again_example :
    record_event sha256 logged (log_line 1 "e1") current w1 1 (pos 0) ≡ ok logged
record_event-again_example =
    record_event-again sha256 sent logged (log_line 1 "e1") current w1 1 (pos 2) (pos 0)
      sent-IsValid record_event-logged

finalize-ended : finalize_with_stop sha256 logged facts current w1 1 (pos 3) none ≡ ok finalized
unfolding program
finalize-ended = refl

finalize-Outcome_example :
    Authorised logged current w1 1
    × (build_evidence_manifest sha256 (subject_of logged) (some exit_facts) none (run_log ∷ []) none
        ≡ ok manifest)
    × Outcome sha256 logged finalized facts (pos 3) none manifest
finalize-Outcome_example =
    finalize-Outcome sha256 logged finalized facts current w1 1 (pos 3) none finalize-ended

finalize-again_example :
    finalize_with_stop sha256 ended facts current w1 1 (pos 0) none
    ≡ ok (record { attempt = ended; evidence = manifest; replayed = true })
finalize-again_example =
    finalize-again sha256 logged finalized facts current w1 1 (pos 3) (pos 0) none finalize-ended

create-fresh : create sha256 "t1" "r1" 1 1 "a1" w1 (digest "spec") "k1" none ≡ ok fresh
unfolding program
create-fresh = refl

fresh-Reach : Reach sha256 fresh ended
unfolding program
fresh-Reach =
    then
      (then (then (then here (change provisioning (pos 0)) refl) (change uploading (pos 1)) refl)
        (report (log_line 1 "e1") current w1 1 (pos 2)) refl)
      (finish facts current w1 1 (pos 3) none) refl

create-Reach_example :
    IsValid sha256 ended
    × (ended.id ≡ fresh.id)
    × (ended.fence ≡ fresh.fence)
    × (ended.worker ≡ fresh.worker)
    × NumberedFrom 1 (log_line 1 "e1" ∷ [])
create-Reach_example =
    create-Reach sha256 "t1" "r1" 1 1 "a1" w1 (digest "spec") "k1" none fresh ended create-fresh
      fresh-Reach

-- The last report again, after the end.
ended-Reach : Reach sha256 ended ended
unfolding program
ended-Reach = then here (report (log_line 1 "e1") current w1 1 (pos 9)) refl

ended_stays_example :
    (ended.state ≡ ended.state)
    × (ended.events ≡ ended.events)
    × (ended.evidence ≡ ended.evidence)
    × (ended.unknown_observation ≡ ended.unknown_observation)
ended_stays_example = ended_stays sha256 ended ended ended-IsValid refl ended-Reach
