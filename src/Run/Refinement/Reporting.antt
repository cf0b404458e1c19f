-- ===== src/Run/Refinement/Reporting.antt =====
-- The commands that record an event, finalize the evidence and adjudicate.
use qarunner.Prelude.{
  >>=-eq-ok, Bool, Option, String, arith, false, inl, last, none, not, ok, raise_if, refl, some,
  true, ℕ, ℤ, ◌≡◌,
}
use qarunner.Values.{AttemptAuthority, AttemptEvent, WorkerRef, ensure_expected_version}
use qarunner.Values.Canonical.{Hash}
use qarunner.Evidence.Stop.{TrustedCancellationStop}
use qarunner.Evidence.Manifest.{EvidenceManifest, build_evidence_manifest}
use qarunner.Attempt.{Attempt, is_terminal}
use qarunner.Attempt.Commands.{ensure_authority, find_event, record_event, record_found}
use qarunner.Attempt.Finalize.{
  Facts, FinalizeEvidenceResult, finalize_evidence, finalize_stored, finalize_with_stop,
  first_finalize, replay, subject_of,
}
use qarunner.Attempt.History.Traces.{Request, apply, finish, report}
use qarunner.Run.{Run, is_running}
use qarunner.Run.Current.{current_attempt, expect_version}
use qarunner.Run.Aggregate.{run_post_init}
use qarunner.Run.Change.{conclude}
use qarunner.Run.Refinement.{Accepted, Accepted-same, expect_version-same, made}
use qarunner.Run.Execution.{
  FinalizeResult, converge, converged_run, finalize_cancelled_attempt_evidence,
  finalize_current_attempt_evidence, record_current_attempt_event, stop_for_intent, store_attempt,
  store_finalized, unchanged,
}
use qarunner.Run.Refinement.Executing.{
  current_attempt-last, store_attempt-Accepted, store_changed-Accepted,
}

-- A new event is only recorded while the Attempt has not ended.
record_found-live :
    (sha256 : Hash) (a v : Attempt) (s : Option AttemptEvent) (e : AttemptEvent) (expected : ℤ)
    → record_found sha256 a s e expected ≡ ok v
    → unchanged a v ≡ false
    → is_terminal a.state ≡ false
unfolding record_found
record_found-live sha256 a v (some s) e expected h n = ground (arith, h, n)
record_found-live sha256 a v none e expected h n =
    let (u, e1, h1) = >>=-eq-ok (ensure_expected_version "attempt" a.id a.version expected) _ h in
    let (u', e2, h2) = >>=-eq-ok (raise_if (is_terminal a.state) _) _ h1 in ground (arith, e2)

record_event-live :
    (sha256 : Hash) (a v : Attempt) (e : AttemptEvent) (authority : AttemptAuthority)
    (worker : WorkerRef) (fence : ℕ) (expected : ℤ)
    → record_event sha256 a e authority worker fence expected ≡ ok v
    → unchanged a v ≡ false
    → is_terminal a.state ≡ false
unfolding record_event
record_event-live sha256 a v e authority worker fence expected h n =
    let (u, e1, h1) = >>=-eq-ok (ensure_authority a authority worker fence) _ h in
    record_found-live sha256 a v (find_event e a.events) e expected h1 n

pub record_current_attempt_event-Accepted :
    (sha256 : Hash) (r v : Run) (id : String) (e : AttemptEvent) (authority : AttemptAuthority)
    (worker : WorkerRef) (fence : ℕ) (expected at : ℤ)
    → record_current_attempt_event sha256 r id e authority worker fence expected at ≡ ok v
    → Accepted sha256 r expected v
unfolding record_current_attempt_event apply
record_current_attempt_event-Accepted sha256 r v id e authority worker fence expected at h =
    let (old, e1, h1) = >>=-eq-ok (current_attempt r id) _ h in
    let (a, e2, h2) = >>=-eq-ok (record_event sha256 old e authority worker fence at) _ h1 in
    store_changed-Accepted sha256 r v old a (report e authority worker fence at) expected
      (unchanged old a) (current_attempt-last r id old e1) e2
      (λ n. inl (record_event-live sha256 old a e authority worker fence at e2 n)) h2

-- A first finalization is of an Attempt that has not ended.
first_finalize-live :
    (sha256 : Hash) (a : Attempt) (m : EvidenceManifest) (f : Facts) (expected : ℤ)
    (d : FinalizeEvidenceResult)
    → first_finalize sha256 a m f expected ≡ ok d
    → is_terminal a.state ≡ false
unfolding first_finalize
first_finalize-live sha256 a m f expected d h =
    let (u, e1, h1) = >>=-eq-ok (ensure_expected_version "attempt" a.id a.version expected) _ h in
    ground (arith, h1)

finalize_stored-live :
    (sha256 : Hash) (a : Attempt) (s : Option EvidenceManifest) (m : EvidenceManifest) (f : Facts)
    (expected : ℤ) (d : FinalizeEvidenceResult)
    → finalize_stored sha256 a s m f expected ≡ ok d
    → d.replayed ≡ false
    → is_terminal a.state ≡ false
unfolding finalize_stored replay
finalize_stored-live sha256 a none m f expected d h n =
    first_finalize-live sha256 a m f expected d h
finalize_stored-live sha256 a (some s) m f expected d h n = ground (arith, h, n)

finalize_with_stop-live :
    (sha256 : Hash) (a : Attempt) (d : FinalizeEvidenceResult) (f : Facts)
    (authority : AttemptAuthority) (worker : WorkerRef) (fence : ℕ) (expected : ℤ)
    (stop : Option TrustedCancellationStop)
    → finalize_with_stop sha256 a f authority worker fence expected stop ≡ ok d
    → d.replayed ≡ false
    → is_terminal a.state ≡ false
unfolding finalize_with_stop
finalize_with_stop-live sha256 a d f authority worker fence expected stop h n =
    let (u, e1, h1) = >>=-eq-ok (ensure_authority a authority worker fence) _ h in
    let (m, e2, h2) =
      >>=-eq-ok
        (build_evidence_manifest sha256 (subject_of a) f.trusted_exit f.case_summary f.artifacts
          stop)
        _ h1 in
    finalize_stored-live sha256 a a.evidence m f expected d h2 n

store_finalized-Accepted :
    (sha256 : Hash) (r : Run) (v : FinalizeResult) (old : Attempt) (d : FinalizeEvidenceResult)
    (q : Request) (expected : ℤ) (b : Bool)
    → last r.attempts ≡ some old
    → apply sha256 old q ≡ ok d.attempt
    → (b ≡ false → is_terminal old.state ≡ false)
    → store_finalized sha256 r old d expected b ≡ ok v
    → Accepted sha256 r expected v.run
unfolding store_finalized
store_finalized-Accepted sha256 r v old d q expected true l e live h = inl (ground (arith, h))
store_finalized-Accepted sha256 r v old d q expected false l e live h =
    let (w, e1, h1) = >>=-eq-ok (store_attempt sha256 r d.attempt expected) _ h in
    let same_run : v.run ≡ w = ground (arith, h1) in
    Accepted-same sha256 r v.run w expected same_run
      (store_attempt-Accepted sha256 r w old d.attempt q expected l e (inl (live refl)) e1)

finish-attempt :
    (sha256 : Hash) (a : Attempt) (d : FinalizeEvidenceResult) (f : Facts)
    (authority : AttemptAuthority) (worker : WorkerRef) (fence : ℕ) (expected : ℤ)
    (stop : Option TrustedCancellationStop)
    → finalize_with_stop sha256 a f authority worker fence expected stop ≡ ok d
    → apply sha256 a (finish f authority worker fence expected stop) ≡ ok d.attempt
unfolding apply
finish-attempt sha256 a d f authority worker fence expected stop h = rw h

pub finalize_current_attempt_evidence-Accepted :
    (sha256 : Hash) (r : Run) (v : FinalizeResult) (id : String) (f : Facts)
    (authority : AttemptAuthority) (worker : WorkerRef) (fence : ℕ) (expected at : ℤ)
    → finalize_current_attempt_evidence sha256 r id f authority worker fence expected at ≡ ok v
    → Accepted sha256 r expected v.run
unfolding finalize_current_attempt_evidence finalize_evidence
finalize_current_attempt_evidence-Accepted sha256 r v id f authority worker fence expected at h =
    let (old, e1, h1) = >>=-eq-ok (current_attempt r id) _ h in
    let (d, e2, h2) =
      >>=-eq-ok (finalize_with_stop sha256 old f authority worker fence at none) _ h1 in
    store_finalized-Accepted sha256 r v old d (finish f authority worker fence at none) expected
      d.replayed (current_attempt-last r id old e1)
      (finish-attempt sha256 old d f authority worker fence at none e2)
      (λ n. finalize_with_stop-live sha256 old d f authority worker fence at none e2 n) h2

converge-Accepted :
    (sha256 : Hash) (r : Run) (v : FinalizeResult) (old : Attempt) (d : FinalizeEvidenceResult)
    (q : Request) (s : TrustedCancellationStop) (expected : ℤ)
    (stored : Option TrustedCancellationStop)
    → last r.attempts ≡ some old
    → apply sha256 old q ≡ ok d.attempt
    → converge sha256 r old d s expected stored ≡ ok v
    → Accepted sha256 r expected v.run
unfolding converge
converge-Accepted sha256 r v old d q s expected (some t) l e h = inl (ground (arith, h))
converge-Accepted sha256 r v old d q s expected none l e h =
    let (u, e1, h1) = >>=-eq-ok (expect_version r expected) _ h in
    let (u', e2, h2) = >>=-eq-ok (raise_if (not (is_running r.state)) _) _ h1 in
    let (w, e3, h3) = >>=-eq-ok (run_post_init sha256 (converged_run r d.attempt s)) _ h2 in
    let same_run : v.run ≡ w = ground (arith, h3) in
    Accepted-same sha256 r v.run w expected same_run (
      made sha256 r (converged_run r d.attempt s) w expected (expect_version-same r expected u e1)
        (conclude old d.attempt q s l e (ground (arith, e2))) e3)

pub finalize_cancelled_attempt_evidence-Accepted :
    (sha256 : Hash) (r : Run) (v : FinalizeResult) (id : String) (f : Facts)
    (s : TrustedCancellationStop) (authority : AttemptAuthority) (worker : WorkerRef) (fence : ℕ)
    (expected at : ℤ)
    → finalize_cancelled_attempt_evidence sha256 r id f s authority worker fence expected at ≡ ok v
    → Accepted sha256 r expected v.run
unfolding finalize_cancelled_attempt_evidence
finalize_cancelled_attempt_evidence-Accepted sha256 r v id f s authority worker fence expected at
      h =
    let (u, e1, h1) = >>=-eq-ok (stop_for_intent sha256 r.cancel_intent s) _ h in
    let (old, e2, h2) = >>=-eq-ok (current_attempt r id) _ h1 in
    let (d, e3, h3) =
      >>=-eq-ok (finalize_with_stop sha256 old f authority worker fence at (some s)) _ h2 in
    converge-Accepted sha256 r v old d (finish f authority worker fence at (some s)) s expected
      r.cancellation_stop (current_attempt-last r id old e2)
      (finish-attempt sha256 old d f authority worker fence at (some s) e3) h3
