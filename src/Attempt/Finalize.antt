-- ===== src/Attempt/Finalize.antt =====
-- `finalize_evidence`: the control plane rebuilds the evidence and gives the Attempt its outcome,
-- or answers a replay.
use qarunner.Prelude.{
  Bool, List, Option, [], any, false, holds, if◌then◌else◌, is_empty, none, not, ok, raise_if,
  raised, same, some, true, ℕ, ℤ, ◌&&◌, ◌+◌, ◌>>=◌, ◌>>◌, ◌∷◌,
}
use qarunner.Values.{
  AttemptAuthority, Command, Digest, WorkerRef, digest_eq, ensure_expected_version,
  evidence_conflict, evidence_digest_mismatch, evidence_not_ready,
}
use qarunner.Values.Canonical.{Hash}
use qarunner.Evidence.Stop.{TrustedCancellationStop}
use qarunner.Evidence.FilePath.{ArtifactPath}
use qarunner.Evidence.Classify.{TrustedExitFacts, ValidatedCaseSummary}
use qarunner.Evidence.Ordering.{VerifiedArtifact}
use qarunner.Evidence.Payload.{Subject}
use qarunner.Evidence.Manifest.{
  EvidenceManifest, EvidenceManifest-discrete, build_evidence_manifest,
}
use qarunner.Attempt.{Attempt, AttemptState, post_init, state_of_outcome, uploading}
use qarunner.Attempt.Commands.{ensure_authority, refused}

-- The facts that a finalization is made from; the untrusted proposal is its root digest.
pub record Facts : Type 0 where
  pub proposal_root : Digest
  pub trusted_exit : Option TrustedExitFacts
  pub case_summary : Option ValidatedCaseSummary
  pub artifacts : List VerifiedArtifact
  pub required_artifact_paths : List ArtifactPath

pub record FinalizeEvidenceResult : Type 0 where
  pub attempt : Attempt
  pub evidence : EvidenceManifest
  pub replayed : Bool

abbrev pub subject_of : Attempt → Subject
subject_of a = record {
  attempt_id = a.id;
  run_id = a.run_id;
  attempt_no = a.attempt_no;
  assignment_id = a.assignment_id;
  fence = a.fence;
  worker = a.worker;
  execution_spec_digest = a.spec_digest;
}

-- `requirements.required_artifact_paths - available_paths`.
abbrev pub missing_paths : List ArtifactPath → List VerifiedArtifact → List ArtifactPath
missing_paths [] artifacts = []
missing_paths (p ∷ ps) artifacts =
    let rest = missing_paths ps artifacts in
    if any (λ f. same f.path.value p.value) artifacts then rest else p ∷ rest

abbrev is_uploading : AttemptState → Bool
is_uploading uploading = true
is_uploading _ = false

abbrev pub with_evidence : Attempt → EvidenceManifest → Attempt
with_evidence a m = record a {
  evidence = some m;
  state = state_of_outcome m.outcome;
  version = a.version + 1;
}

-- The stored evidence answers a replay, and conflicts with anything else.
unfoldable pub replay :
    Attempt → EvidenceManifest → EvidenceManifest → Digest → Command FinalizeEvidenceResult
replay a stored candidate root =
    if holds (EvidenceManifest-discrete stored candidate) && digest_eq root candidate.root_digest
    then ok (record { attempt = a; evidence = stored; replayed = true })
    else raised (
        evidence_conflict stored.root_digest (
          if holds (EvidenceManifest-discrete stored candidate)
          then root
          else candidate.root_digest))

unfoldable pub first_finalize :
    Hash → Attempt → EvidenceManifest → Facts → ℤ → Command FinalizeEvidenceResult
unfolding ensure_expected_version
first_finalize sha256 a candidate f expected = do
  ensure_expected_version "attempt" a.id a.version expected
  raise_if (not (is_uploading a.state)) (refused a (state_of_outcome candidate.outcome) expected)
  raise_if (not (is_empty (missing_paths f.required_artifact_paths candidate.artifacts)))
      (evidence_not_ready "required artifacts are missing")
  raise_if (not (digest_eq f.proposal_root candidate.root_digest))
      (evidence_digest_mismatch f.proposal_root candidate.root_digest)
  finalized ← post_init sha256 (with_evidence a candidate)
  ok (record { attempt = finalized; evidence = candidate; replayed = false })

unfoldable pub finalize_stored :
    Hash
    → Attempt
    → Option EvidenceManifest
    → EvidenceManifest
    → Facts
    → ℤ
    → Command FinalizeEvidenceResult
finalize_stored sha256 a none candidate f expected = first_finalize sha256 a candidate f expected
finalize_stored sha256 a (some stored) candidate f expected =
    replay a stored candidate f.proposal_root

-- `_finalize_evidence`, which the owning Run calls with a cancellation stop.
unfoldable pub finalize_with_stop :
    Hash
    → Attempt
    → Facts
    → AttemptAuthority
    → WorkerRef
    → ℕ
    → ℤ
    → Option TrustedCancellationStop
    → Command FinalizeEvidenceResult
finalize_with_stop sha256 a f authority worker fence expected stop = do
  ensure_authority a authority worker fence
  candidate ←
      build_evidence_manifest sha256 (subject_of a) f.trusted_exit f.case_summary f.artifacts stop
  finalize_stored sha256 a a.evidence candidate f expected

-- `finalize_evidence`.
unfoldable pub finalize_evidence :
    Hash
    → Attempt
    → Facts
    → AttemptAuthority
    → WorkerRef
    → ℕ
    → ℤ
    → Option TrustedCancellationStop
    → Command FinalizeEvidenceResult
finalize_evidence sha256 a f authority worker fence expected (some stop) =
    raised (evidence_not_ready "cancelled evidence requires Run-owned finalization")
finalize_evidence sha256 a f authority worker fence expected none =
    finalize_with_stop sha256 a f authority worker fence expected none
