-- ===== src/Attempt/History/Traces.antt =====
-- What holds of an Attempt after any accepted commands.
use qarunner.Prelude.{Option, arith, none, ok, raised, refl, same, some, true, ℕ, ℤ, ◌≡◌, ◌≤◌}
use qarunner.Values.{AttemptAuthority, AttemptEvent, Command, WorkerRef}
use qarunner.Values.Canonical.{Hash}
use qarunner.Evidence.Manifest.{EvidenceManifest}
use qarunner.Unknown.{UnknownAdjudication, UnknownObservation}
use qarunner.Evidence.Stop.{TrustedCancellationStop}
use qarunner.Attempt.{Attempt, AttemptState, is_terminal}
use qarunner.Attempt.Commands.{append_unknown_adjudication, mark_unknown, record_event, transition}
use qarunner.Attempt.Finalize.{Facts, FinalizeEvidenceResult, finalize_with_stop}
use qarunner.Attempt.Validity.{IsValid}
use qarunner.Attempt.Events.{
  NumberedFrom, NumberedFrom-snoc, expected_next-length, record_event_iff, with_event-IsValid,
}
use qarunner.Attempt.History.Steps.{
  Outcome, append_cases, as_unknown-IsValid, attempt_transition_iff, finalize-Outcome,
  mark_unknown_iff, moved-IsValid,
}

pub data Request : Type 0 where
  change : (target : AttemptState) (expected : ℤ) → Request
  lose : (o : UnknownObservation) (authority : AttemptAuthority) (expected : ℤ) → Request
  adjudicate : (r : UnknownAdjudication) (expected : ℤ) → Request
  report :
      (e : AttemptEvent) (authority : AttemptAuthority) (worker : WorkerRef) (fence : ℕ)
      (expected : ℤ)
      → Request
  finish :
      (f : Facts) (authority : AttemptAuthority) (worker : WorkerRef) (fence : ℕ) (expected : ℤ)
      (stop : Option TrustedCancellationStop)
      → Request

-- The Attempt of a finalization's result.
abbrev pub attempt_of : Command FinalizeEvidenceResult → Command Attempt
attempt_of (ok r) = ok r.attempt
attempt_of (raised x) = raised x

unfoldable pub apply : Hash → Attempt → Request → Command Attempt
apply sha256 a (change target expected) = transition sha256 a target expected
apply sha256 a (lose o authority expected) = mark_unknown sha256 a o authority expected
apply sha256 a (adjudicate r expected) = append_unknown_adjudication sha256 a r expected
apply sha256 a (report e authority worker fence expected) =
    record_event sha256 a e authority worker fence expected
apply sha256 a (finish f authority worker fence expected stop) =
    attempt_of (finalize_with_stop sha256 a f authority worker fence expected stop)

-- The Attempt has ended, and an end is final: its state, log, evidence and observation stay.
pub record SameEnd (a v : Attempt) : Type 0 where
  pub same_state : v.state ≡ a.state
  pub same_events : v.events ≡ a.events
  pub same_evidence : v.evidence ≡ a.evidence
  pub same_observation : v.unknown_observation ≡ a.unknown_observation

-- What one accepted command tells of the Attempt before and after it.
pub record Stepped (sha256 : Hash) (a v : Attempt) : Type 0 where
  pub valid : IsValid sha256 v
  pub same_id : v.id ≡ a.id
  pub same_fence : v.fence ≡ a.fence
  pub same_worker : v.worker ≡ a.worker
  pub same_key : v.start_commit_key ≡ a.start_commit_key
  pub newer : a.version ≤ v.version
  pub numbered : NumberedFrom 1 a.events → NumberedFrom 1 v.events
  pub end_stays : is_terminal a.state ≡ true → SameEnd a v

change-Stepped :
    (sha256 : Hash) (a v : Attempt) (target : AttemptState) (expected : ℤ)
    → IsValid sha256 a
    → transition sha256 a target expected ≡ ok v
    → Stepped sha256 a v
change-Stepped sha256 a v target expected valid h = ground (
  arith,
  (attempt_transition_iff sha256 a v target expected valid).0 h,
  moved-IsValid sha256 a target valid,
)

lose-Stepped :
    (sha256 : Hash) (a v : Attempt) (o : UnknownObservation) (authority : AttemptAuthority)
    (expected : ℤ)
    → IsValid sha256 a
    → mark_unknown sha256 a o authority expected ≡ ok v
    → Stepped sha256 a v
lose-Stepped sha256 a v o authority expected valid h = ground (
  arith,
  (mark_unknown_iff sha256 a v o authority expected valid).0 h,
  as_unknown-IsValid sha256 a o valid,
)

adjudicate-Stepped :
    (sha256 : Hash) (a v : Attempt) (r : UnknownAdjudication) (expected : ℤ)
    → IsValid sha256 a
    → append_unknown_adjudication sha256 a r expected ≡ ok v
    → Stepped sha256 a v
adjudicate-Stepped sha256 a v r expected valid h =
    ground (arith, append_cases sha256 a v r expected h)

pub report-Stepped :
    (sha256 : Hash) (a v : Attempt) (e : AttemptEvent) (authority : AttemptAuthority)
    (worker : WorkerRef) (fence : ℕ) (expected : ℤ)
    → IsValid sha256 a
    → record_event sha256 a e authority worker fence expected ≡ ok v
    → Stepped sha256 a v
report-Stepped sha256 a v e authority worker fence expected valid h = ground (
  arith,
  (record_event_iff sha256 a v e authority worker fence expected valid).0 h,
  with_event-IsValid sha256 a e valid,
  expected_next-length a.events,
  NumberedFrom-snoc 1 a.events e,
)

-- A result that reached the caller came from a finalization.
attempt_of-ok :
    (c : Command FinalizeEvidenceResult) (v : Attempt)
    → attempt_of c ≡ ok v
    → (r : FinalizeEvidenceResult) × (c ≡ ok r) × (v ≡ r.attempt)
attempt_of-ok (ok r) v h = (r, refl, ground (arith, h))
attempt_of-ok (raised x) v h = ground (arith, h)

Outcome-Stepped :
    (sha256 : Hash) (a : Attempt) (r : FinalizeEvidenceResult) (f : Facts) (expected : ℤ)
    (stored : Option EvidenceManifest) (m : EvidenceManifest)
    → IsValid sha256 a
    → Outcome sha256 a r f expected stored m
    → Stepped sha256 a r.attempt
Outcome-Stepped sha256 a r f expected none m valid o = ground arith
Outcome-Stepped sha256 a r f expected (some stored) m valid o = ground arith

finish-Stepped :
    (sha256 : Hash) (a v : Attempt) (f : Facts) (authority : AttemptAuthority) (worker : WorkerRef)
    (fence : ℕ) (expected : ℤ) (stop : Option TrustedCancellationStop)
    → IsValid sha256 a
    → attempt_of (finalize_with_stop sha256 a f authority worker fence expected stop) ≡ ok v
    → Stepped sha256 a v
finish-Stepped sha256 a v f authority worker fence expected stop valid h =
    let (r, finalized, same) =
      attempt_of-ok (finalize_with_stop sha256 a f authority worker fence expected stop) v h in
    let (u, b, o) = finalize-Outcome sha256 a r f authority worker fence expected stop finalized in
    let s = Outcome-Stepped sha256 a r f expected a.evidence r.evidence valid o in rw (← same) at s

pub apply-Stepped :
    (sha256 : Hash) (a v : Attempt) (q : Request)
    → IsValid sha256 a
    → apply sha256 a q ≡ ok v
    → Stepped sha256 a v
unfolding apply
apply-Stepped sha256 a v (change target expected) valid h =
    change-Stepped sha256 a v target expected valid h
apply-Stepped sha256 a v (lose o authority expected) valid h =
    lose-Stepped sha256 a v o authority expected valid h
apply-Stepped sha256 a v (adjudicate r expected) valid h =
    adjudicate-Stepped sha256 a v r expected valid h
apply-Stepped sha256 a v (report e authority worker fence expected) valid h =
    report-Stepped sha256 a v e authority worker fence expected valid h
apply-Stepped sha256 a v (finish f authority worker fence expected stop) valid h =
    finish-Stepped sha256 a v f authority worker fence expected stop valid h
