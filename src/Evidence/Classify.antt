-- ===== src/Evidence/Classify.antt =====
-- The trusted facts that evidence rests on, and `_classify_outcome`: from the platform's exit facts
-- and the case summary to the outcome of an Attempt.
pub mod Outcomes
use qarunner.Prelude.{
  Bool, Option, String, equals, if◌then◌else◌, is_none, is_some, ltb, none, not, ok, positive?,
  raise_if, raised, some, true, ℕ, ℤ, ◌&&◌, ◌+◌, ◌==◌, ◌>>◌, ◌||◌,
}
use qarunner.Values.{Command, Digest, evidence_not_ready}
use qarunner.Evidence.FilePath.{ArtifactPath}
use qarunner.Evidence.Stop.{TrustedCancellationStop}

pub data PlatformExitClass : Type 0 where
  completed : PlatformExitClass
  infra_failed : PlatformExitClass
  cancelled : PlatformExitClass

pub data EvidenceOutcome : Type 0 where
  passed : EvidenceOutcome
  test_failed : EvidenceOutcome
  infra_failed : EvidenceOutcome
  cancelled : EvidenceOutcome

pub record TrustedExitFacts : Type 0 where
  pub source_event_id : String
  pub pid : Option ℤ
  pub exit_class : PlatformExitClass
  pub exit_code : Option ℤ
  pub signal : Option ℤ
  pub oom : Bool
  pub timeout : Bool

pub record ValidatedCaseSummary : Type 0 where
  pub schema_version : String
  pub source_artifact_path : ArtifactPath
  pub source_artifact_digest : Digest
  pub expected : ℕ
  pub passed : ℕ
  pub failed : ℕ
  pub skipped : ℕ
  pub not_reported : ℕ
  pub unexpected : ℕ

pub summary_post_init : ValidatedCaseSummary → Command ValidatedCaseSummary
summary_post_init s = do
  raise_if (not (s.expected == s.passed + s.failed + s.skipped + s.not_reported))
      (evidence_not_ready "case summary does not account for every expected case")
  ok s

-- `pid is None or pid <= 0`.
abbrev pub no_pid : Option ℤ → Bool
no_pid none = true
no_pid (some z) = is_none (positive? z)

abbrev contradictory : Command EvidenceOutcome
contradictory =
    raised (evidence_not_ready "process exit and validated case summary are contradictory")

classify_cases : ℤ → ValidatedCaseSummary → Command EvidenceOutcome
classify_cases exit_code s =
    let incomplete = ltb 0 s.not_reported || ltb 0 s.unexpected in
    if equals exit_code 0 && s.failed == 0 && not incomplete
    then ok passed
    else if not (equals exit_code 0) && ltb 0 s.failed && not incomplete
    then ok test_failed
    else contradictory

classify_code : Option ℤ → Option ValidatedCaseSummary → Command EvidenceOutcome
unfolding classify_cases
classify_code none summary =
    raised (evidence_not_ready "completed process facts require an exit code")
classify_code (some code) none =
    raised (evidence_not_ready "completed process facts require a validated case summary")
classify_code (some code) (some s) = classify_cases code s

classify_completed : TrustedExitFacts → Option ValidatedCaseSummary → Command EvidenceOutcome
unfolding classify_code
classify_completed e summary = do
  raise_if (no_pid e.pid) (evidence_not_ready "completed process facts require a positive pid")
  raise_if (is_some e.signal || e.oom || e.timeout)
      (evidence_not_ready "completed process facts contradict a platform failure")
  classify_code e.exit_code summary

classify_by :
    PlatformExitClass
    → TrustedExitFacts
    → Option ValidatedCaseSummary
    → Option TrustedCancellationStop
    → Command EvidenceOutcome
unfolding classify_completed
classify_by infra_failed e summary stop = ok EvidenceOutcome.infra_failed
classify_by cancelled e summary none =
    raised (evidence_not_ready "trusted cancellation stop proof is missing")
classify_by cancelled e summary (some s) = ok EvidenceOutcome.cancelled
classify_by completed e summary stop = classify_completed e summary

-- `_classify_outcome`.
unfoldable pub classify_outcome :
    TrustedExitFacts
    → Option ValidatedCaseSummary
    → Option TrustedCancellationStop
    → Command EvidenceOutcome
unfolding classify_by
classify_outcome e summary stop = classify_by e.exit_class e summary stop
