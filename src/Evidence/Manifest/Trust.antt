-- ===== src/Evidence/Manifest/Trust.antt =====
-- What a manifest that was built shows of its Attempt.
use mathlib.Core.List.{Memᴰ, Permᴰ}
use mathlib.Core.Path.{subst}
use qarunner.Evidence.Ordering.Canonical.{sorted-permᴰ}
use qarunner.Evidence.Manifest.Ordered.{DistinctPaths, InOrder, find_path-Memᴰ, sorted-InOrder}
use qarunner.Prelude.{List, Option, arith, false, none, ok, refl, same_iff, some, sym, ◌↔◌, ◌≡◌}
use qarunner.Values.Canonical.{Hash}
use qarunner.Values.Laws.{digest_eq_iff, ref_eq_iff}
use qarunner.Evidence.Stop.{TrustedCancellationStop}
use qarunner.Evidence.Classify.{PlatformExitClass, TrustedExitFacts, ValidatedCaseSummary}
use qarunner.Evidence.Classify.Outcomes.{Shows, classify_outcome_iff}
use qarunner.Evidence.Payload.{Subject}
use qarunner.Evidence.Ordering.{VerifiedArtifact, has_duplicate_path, sorted, structured_result}
use qarunner.Evidence.Manifest.{
  EvidenceManifest, build_evidence_manifest, build_from, check_source, ensure_case_summary_source,
  ensure_stop_binding, find_path,
}

-- A stop proof that names the Attempt, its worker and the platform's own exit event.
abbrev pub Bound : Subject → TrustedExitFacts → Option TrustedCancellationStop → Type 0
Bound a e none = Unit
Bound a e (some s) =
    (e.exit_class ≡ PlatformExitClass.cancelled)
    × (s.source_event_id ≡ e.source_event_id)
    × (s.run_id ≡ a.run_id)
    × (s.attempt_id ≡ a.attempt_id)
    × (s.fence ≡ a.fence)
    × (s.worker ≡ a.worker)

-- The summary's source is among the artifacts: the structured result at its path, with its digest.
abbrev pub Sourced : Option ValidatedCaseSummary → List VerifiedArtifact → Type 0
Sourced none artifacts = Unit
Sourced (some s) artifacts =
    (f : VerifiedArtifact) × Memᴰ f artifacts
    × (f.path.value ≡ s.source_artifact_path.value)
    × (f.content_class ≡ structured_result)
    × (f.digest ≡ s.source_artifact_digest)

-- What a built manifest rests on.
pub record Trusted (a : Subject) (e : TrustedExitFacts) (summary : Option ValidatedCaseSummary)
    (artifacts : List VerifiedArtifact) (stop : Option TrustedCancellationStop)
    (m : EvidenceManifest) : Type 0 where
  pub bound : Bound a e stop
  pub sourced : Sourced summary m.artifacts
  pub distinct : DistinctPaths m.artifacts
  pub shown : Shows m.outcome e summary stop
  pub of_attempt : (m.attempt_id ≡ a.attempt_id) × (m.run_id ≡ a.run_id)
  pub of_epoch : (m.attempt_no ≡ a.attempt_no) × (m.fence ≡ a.fence)
  pub of_worker : (m.worker ≡ a.worker) × (m.assignment_id ≡ a.assignment_id)
  pub of_spec : m.execution_spec_digest ≡ a.execution_spec_digest
  pub keeps : Permᴰ m.artifacts artifacts
  pub ascends : InOrder m.artifacts

ensure_stop_binding_iff :
    (a : Subject) (e : TrustedExitFacts) (stop : Option TrustedCancellationStop)
    → (ensure_stop_binding a e stop ≡ ok tt) ↔ Bound a e stop
unfolding ensure_stop_binding
ensure_stop_binding_iff a e none = ground arith
ensure_stop_binding_iff a e (some s) = ground (
  arith,
  same_iff s.source_event_id e.source_event_id,
  same_iff s.run_id a.run_id,
  same_iff s.attempt_id a.attempt_id,
  ref_eq_iff s.worker a.worker,
)

check_source-Sourced :
    (s : ValidatedCaseSummary) (l : List VerifiedArtifact) (o : Option VerifiedArtifact)
    → find_path s.source_artifact_path.value l ≡ o
    → check_source s o ≡ ok tt
    → Sourced (some s) l
unfolding check_source
check_source-Sourced s l none e h = cc
check_source-Sourced s l (some f) e h =
    let (m, k) = find_path-Memᴰ s.source_artifact_path.value l f e in
    let (class, source) : (f.content_class ≡ structured_result)
        × (f.digest ≡ s.source_artifact_digest) =
      ground (arith, digest_eq_iff f.digest s.source_artifact_digest) in
    (f, m, k, class, source)

ensure_source-Sourced :
    (summary : Option ValidatedCaseSummary) (l : List VerifiedArtifact)
    → ensure_case_summary_source summary l ≡ ok tt
    → Sourced summary l
unfolding ensure_case_summary_source
ensure_source-Sourced none l h = tt
ensure_source-Sourced (some s) l h =
    check_source-Sourced s l (find_path s.source_artifact_path.value l) refl h

build_evidence_manifest-none :
    (sha256 : Hash) (a : Subject) (summary : Option ValidatedCaseSummary)
    (artifacts : List VerifiedArtifact) (stop : Option TrustedCancellationStop)
    (m : EvidenceManifest)
    → ¬ (build_evidence_manifest sha256 a none summary artifacts stop ≡ ok m)
unfolding build_evidence_manifest
build_evidence_manifest-none sha256 a summary artifacts stop m h = ground (arith, h)

-- What the code checked and copied.
record Copied (a : Subject) (e : TrustedExitFacts) (summary : Option ValidatedCaseSummary)
    (artifacts : List VerifiedArtifact) (stop : Option TrustedCancellationStop)
    (m : EvidenceManifest) : Type 0 where
  checked_stop : ensure_stop_binding a e stop ≡ ok tt
  checked_source : ensure_case_summary_source summary (sorted artifacts) ≡ ok tt
  checked_paths : has_duplicate_path (sorted artifacts) ≡ false
  shows : Shows m.outcome e summary stop
  of_attempt : (m.attempt_id ≡ a.attempt_id) × (m.run_id ≡ a.run_id)
  of_epoch : (m.attempt_no ≡ a.attempt_no) × (m.fence ≡ a.fence)
  of_worker : (m.worker ≡ a.worker) × (m.assignment_id ≡ a.assignment_id)
  of_spec : m.execution_spec_digest ≡ a.execution_spec_digest
  copies : m.artifacts ≡ sorted artifacts

build_evidence_manifest-Copied :
    (sha256 : Hash) (a : Subject) (e : TrustedExitFacts) (summary : Option ValidatedCaseSummary)
    (artifacts : List VerifiedArtifact) (stop : Option TrustedCancellationStop)
    (m : EvidenceManifest)
    → build_evidence_manifest sha256 a (some e) summary artifacts stop ≡ ok m
    → Copied a e summary artifacts stop m
unfolding build_evidence_manifest build_from
build_evidence_manifest-Copied sha256 a e summary artifacts stop m h =
    ground (arith, classify_outcome_iff e summary stop m.outcome)

-- A manifest is built only when there are trusted exit facts, and then it is the given Attempt's: its
-- outcome is what these facts show, a stop proof names the same run, attempt, fence, worker and exit
-- event, a case summary comes from the structured result at its path, which is among the artifacts
-- and has its digest, and the artifacts are the given ones, in the order of the code points of their
-- paths, with no path twice.
pub build_evidence_manifest-Trusted :
    (sha256 : Hash) (a : Subject) (exit_facts : Option TrustedExitFacts)
    (summary : Option ValidatedCaseSummary) (artifacts : List VerifiedArtifact)
    (stop : Option TrustedCancellationStop) (m : EvidenceManifest)
    → build_evidence_manifest sha256 a exit_facts summary artifacts stop ≡ ok m
    → (e : TrustedExitFacts) × (exit_facts ≡ some e) × Trusted a e summary artifacts stop m
build_evidence_manifest-Trusted sha256 a none summary artifacts stop m h =
    absurd (build_evidence_manifest-none sha256 a summary artifacts stop m h)
build_evidence_manifest-Trusted sha256 a (some e) summary artifacts stop m h =
    let c = build_evidence_manifest-Copied sha256 a e summary artifacts stop m h in
    let (distinct, ascends) = sorted-InOrder artifacts c.checked_paths in
    let back = sym c.copies in
    (
      e,
      refl,
      record {
        bound = (ensure_stop_binding_iff a e stop).0 c.checked_stop;
        sourced =
            subst (λ l. Sourced summary l) back
              (ensure_source-Sourced summary (sorted artifacts) c.checked_source);
        distinct = subst (λ l. DistinctPaths l) back distinct;
        shown = c.shows;
        of_attempt = c.of_attempt;
        of_epoch = c.of_epoch;
        of_worker = c.of_worker;
        of_spec = c.of_spec;
        keeps = subst (λ l. Permᴰ l artifacts) back (sorted-permᴰ artifacts);
        ascends = subst (λ l. InOrder l) back ascends;
      },
    )
