-- ===== src/Attempt/History/Steps.antt =====
-- What each accepted command does to a valid Attempt.
use mathlib.Core.List.{Memᴰ}
use mathlib.Core.Path.{subst}
use qarunner.Prelude.Members.{any-Memᴰ}
use qarunner.Evidence.FilePath.{ArtifactPath}
use qarunner.Evidence.Ordering.{VerifiedArtifact}
use qarunner.Prelude.{
  >>=-eq-ok, List, Option, [], any, arith, false, is_empty, none, ok, pos, same, same_iff, some,
  sym, true, ℕ, ℤ, ◌++◌, ◌+◌, ◌↔◌, ◌∷◌, ◌≡◌, ◌⊎◌,
}
use qarunner.Values.{AttemptAuthority, WorkerRef}
use qarunner.Values.Canonical.{Hash}
use qarunner.Values.Laws.{digest_eq_iff}
use qarunner.Unknown.{UnknownAdjudication, UnknownObservation}
use qarunner.Attempt.{Attempt, AttemptState, attempt_unknown, is_terminal, uploading}
use qarunner.Attempt.Finalize.{
  Facts, FinalizeEvidenceResult, finalize_stored, finalize_with_stop, first_finalize, missing_paths,
  replay, subject_of, with_evidence,
}
use qarunner.Attempt.Validity.{
  IsValid, ObservationFits, history_check-nil, no_history, post_init-IsValid, post_init_accepts,
}
use qarunner.Attempt.Commands.{
  allowed_transitions, append_found, append_unknown_adjudication, as_unknown, ensure_authority,
  mark_stored, mark_unknown, transition,
}
use qarunner.Evidence.Manifest.{EvidenceManifest, build_evidence_manifest}
use qarunner.Attempt.Events.{Authorised, ensure_authority_iff}
use qarunner.Evidence.Stop.{TrustedCancellationStop}

abbrev pub moved : Attempt → AttemptState → Attempt
moved a target = record a { state = target; version = a.version + 1 }

pub moved-IsValid :
    (sha256 : Hash) (a : Attempt) (target : AttemptState)
    → IsValid sha256 a
    → allowed_transitions a.state target ≡ true
    → IsValid sha256 (moved a target)
moved-IsValid sha256 a target valid h = ground (
  arith,
  no_history sha256 a.id a.state a.unknown_observation a.adjudications,
  history_check-nil sha256 a.id target a.unknown_observation,
)

-- A valid Attempt takes a transition exactly when the version is the expected one and the edge is
-- one of the four between its live states; only the state and the version change.
pub attempt_transition_iff :
    (sha256 : Hash) (a v : Attempt) (target : AttemptState) (expected : ℤ)
    → IsValid sha256 a
    → (transition sha256 a target expected ≡ ok v) ↔ (
        (expected ≡ pos a.version)
        × (allowed_transitions a.state target ≡ true)
        × (v ≡ moved a target))
unfolding transition
attempt_transition_iff sha256 a v target expected valid = ground (
  arith,
  post_init-IsValid sha256 (moved a target) v,
  post_init_accepts sha256 (moved a target),
  moved-IsValid sha256 a target valid,
)

pub as_unknown-IsValid :
    (sha256 : Hash) (a : Attempt) (o : UnknownObservation)
    → IsValid sha256 a
    → is_terminal a.state ≡ false
    → IsValid sha256 (as_unknown a o)
as_unknown-IsValid sha256 a o valid h = ground (
  arith,
  no_history sha256 a.id a.state a.unknown_observation a.adjudications,
  history_check-nil sha256 a.id attempt_unknown (some o),
)

-- What marking as unknown does, by the stored observation.
abbrev pub Marked : Attempt → Attempt → UnknownObservation → ℤ → Option UnknownObservation → Type 0
Marked a v o expected (some stored) = (stored ≡ o) × (v ≡ a)
Marked a v o expected none =
    (expected ≡ pos a.version) × (is_terminal a.state ≡ false) × (v ≡ as_unknown a o)

mark_stored_iff :
    (sha256 : Hash) (a v : Attempt) (stored : Option UnknownObservation) (o : UnknownObservation)
    (expected : ℤ)
    → IsValid sha256 a
    → ObservationFits a.state stored
    → (mark_stored sha256 a stored o expected ≡ ok v) ↔ Marked a v o expected stored
unfolding mark_stored
mark_stored_iff sha256 a v none o expected valid fits = ground (
  arith,
  post_init-IsValid sha256 (as_unknown a o) v,
  post_init_accepts sha256 (as_unknown a o),
  as_unknown-IsValid sha256 a o valid,
)
mark_stored_iff sha256 a v (some stored) o expected valid fits =
    ground (arith, same_iff stored.id o.id)

-- A valid Attempt is marked unknown exactly when it is the current one under the authority, and
-- either it already holds the very observation, and nothing changes, or it holds none, the version
-- is the expected one and it has not ended; it then ends as unknown, with the observation.
pub mark_unknown_iff :
    (sha256 : Hash) (a v : Attempt) (o : UnknownObservation) (authority : AttemptAuthority)
    (expected : ℤ)
    → IsValid sha256 a
    → (mark_unknown sha256 a o authority expected ≡ ok v)
      ↔ (Authorised a authority a.worker a.fence × Marked a v o expected a.unknown_observation)
unfolding mark_unknown
mark_unknown_iff sha256 a v o authority expected valid = ground (
  arith,
  ensure_authority_iff a authority a.worker a.fence,
  mark_stored_iff sha256 a v a.unknown_observation o expected valid valid.observation_fits,
)

abbrev pub with_adjudication : Attempt → UnknownAdjudication → Attempt
with_adjudication a r = record a {
  adjudications = a.adjudications ++ r ∷ [];
  version = a.version + 1;
}

-- An accepted decision is appended, or is stored already and changes nothing.
pub append_cases :
    (sha256 : Hash) (a v : Attempt) (r : UnknownAdjudication) (expected : ℤ)
    → append_unknown_adjudication sha256 a r expected ≡ ok v
    → (v ≡ a) ⊎ (expected ≡ pos a.version) × (v ≡ with_adjudication a r) × IsValid sha256 v
unfolding append_unknown_adjudication append_found
append_cases sha256 a v r expected h =
    ground (arith, post_init-IsValid sha256 (with_adjudication a r) v)

-- An artifact has the path.
abbrev Present : List VerifiedArtifact → ArtifactPath → Type 0
Present l p = (x : VerifiedArtifact) × Memᴰ x l × (x.path.value ≡ p.value)

any-Present :
    (l : List VerifiedArtifact) (p : ArtifactPath)
    → any (λ x. same x.path.value p.value) l ≡ true
    → Present l p
any-Present l p h =
    let (x, m, e) = any-Memᴰ (λ y. same y.path.value p.value) l h in
    (x, m, (same_iff x.path.value p.value).0 e)

-- When no path is missing, there is an artifact for each that is required.
missing_paths-Present :
    (ps : List ArtifactPath) (l : List VerifiedArtifact)
    → is_empty (missing_paths ps l) ≡ true
    → {p : ArtifactPath} → Memᴰ p ps
    → Present l p
missing_paths-Present [] l h m = elim m [ ]
missing_paths-Present (q ∷ qs) l h (Memᴰ.head e) =
    subst (λ x. Present l x) (sym e) (any-Present l q (ground arith))
missing_paths-Present (q ∷ qs) l h (Memᴰ.tail m) = missing_paths-Present qs l (ground arith) m

-- What a first finalization rests on.
pub record Finalized (sha256 : Hash) (a v : Attempt) (f : Facts) (expected : ℤ)
    (m : EvidenceManifest) : Type 0 where
  pub at_version : expected ≡ pos a.version
  pub was_uploading : a.state ≡ uploading
  pub none_missing :
      (p : ArtifactPath)
      → Memᴰ p f.required_artifact_paths
      → (x : VerifiedArtifact) × Memᴰ x m.artifacts × (x.path.value ≡ p.value)
  pub root_agrees : f.proposal_root ≡ m.root_digest
  pub result : v ≡ with_evidence a m
  pub valid : IsValid sha256 v

-- What a finalization gives, by the stored evidence.
abbrev pub Outcome :
    Hash
    → Attempt
    → FinalizeEvidenceResult
    → Facts
    → ℤ
    → Option EvidenceManifest
    → EvidenceManifest
    → Type 0
Outcome sha256 a r f expected (some stored) m =
    (stored ≡ m)
    × (f.proposal_root ≡ m.root_digest)
    × (r.attempt ≡ a)
    × (r.evidence ≡ m)
    × (r.replayed ≡ true)
Outcome sha256 a r f expected none m =
    Finalized sha256 a r.attempt f expected m × (r.evidence ≡ m) × (r.replayed ≡ false)

first_finalize-Finalized :
    (sha256 : Hash) (a : Attempt) (r : FinalizeEvidenceResult) (m : EvidenceManifest) (f : Facts)
    (expected : ℤ)
    → first_finalize sha256 a m f expected ≡ ok r
    → Finalized sha256 a r.attempt f expected m × (r.evidence ≡ m) × (r.replayed ≡ false)
unfolding first_finalize
first_finalize-Finalized sha256 a r m f expected h =
    let present : is_empty (missing_paths f.required_artifact_paths m.artifacts) ≡ true =
      ground arith in
    let (at, up, root, result, valid, evidence, replayed) : (expected ≡ pos a.version)
        × (a.state ≡ uploading)
        × (f.proposal_root ≡ m.root_digest)
        × (r.attempt ≡ with_evidence a m)
        × IsValid sha256 r.attempt
        × (r.evidence ≡ m)
        × (r.replayed ≡ false) =
      ground (
        arith,
        digest_eq_iff f.proposal_root m.root_digest,
        post_init-IsValid sha256 (with_evidence a m) r.attempt,
      ) in
    (
      record {
        at_version = at;
        was_uploading = up;
        none_missing = λ p k. missing_paths-Present f.required_artifact_paths m.artifacts present k;
        root_agrees = root;
        result = result;
        valid = valid;
      },
      evidence,
      replayed,
    )

finalize_stored-Outcome :
    (sha256 : Hash) (a : Attempt) (r : FinalizeEvidenceResult) (stored : Option EvidenceManifest)
    (m : EvidenceManifest) (f : Facts) (expected : ℤ)
    → finalize_stored sha256 a stored m f expected ≡ ok r
    → Outcome sha256 a r f expected stored m
unfolding finalize_stored replay
finalize_stored-Outcome sha256 a r none m f expected h =
    (first_finalize-Finalized sha256 a r m f expected h)
finalize_stored-Outcome sha256 a r (some stored) m f expected h =
    ground (arith, digest_eq_iff f.proposal_root m.root_digest)

Outcome-evidence :
    (sha256 : Hash) (a : Attempt) (r : FinalizeEvidenceResult) (f : Facts) (expected : ℤ)
    (stored : Option EvidenceManifest) (m : EvidenceManifest)
    → Outcome sha256 a r f expected stored m
    → m ≡ r.evidence
Outcome-evidence sha256 a r f expected none m o = sym o.1
Outcome-evidence sha256 a r f expected (some stored) m o = sym o.3

-- An accepted finalization is by the current worker under the current fence, of evidence that was
-- built for this very Attempt, and is either a replay of the stored evidence, which changes
-- nothing, or the first one: at the expected version, from uploading, with every required artifact
-- there and the worker's root digest confirmed; the Attempt then ends with the evidence's outcome.
pub finalize-Outcome :
    (sha256 : Hash) (a : Attempt) (r : FinalizeEvidenceResult) (f : Facts)
    (authority : AttemptAuthority) (worker : WorkerRef) (fence : ℕ) (expected : ℤ)
    (stop : Option TrustedCancellationStop)
    → finalize_with_stop sha256 a f authority worker fence expected stop ≡ ok r
    → Authorised a authority worker fence
      × (build_evidence_manifest sha256
            (subject_of a)
            f.trusted_exit
            f.case_summary
            f.artifacts
            stop
          ≡ ok r.evidence)
      × Outcome sha256 a r f expected a.evidence r.evidence
unfolding finalize_with_stop
finalize-Outcome sha256 a r f authority worker fence expected stop h =
    let (u, authorised, h') = >>=-eq-ok (ensure_authority a authority worker fence) _ h in
    let (m, built, h'') =
      >>=-eq-ok
        (build_evidence_manifest sha256 (subject_of a) f.trusted_exit f.case_summary f.artifacts
          stop)
        _ h' in
    let o = finalize_stored-Outcome sha256 a r a.evidence m f expected h'' in
    let e = Outcome-evidence sha256 a r f expected a.evidence m o in
    ((ensure_authority_iff a authority worker fence).0 authorised, rw e at built, rw e at o)
