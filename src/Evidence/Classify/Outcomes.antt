-- ===== src/Evidence/Classify/Outcomes.antt =====
-- What each outcome of the classification rests on.
use qarunner.Prelude.{
  Option, arith, false, is_some, none, ok, pos, some, true, ℤ, ◌<◌, ◌↔◌, ◌≡◌, ◌≢◌,
}
use qarunner.Evidence.Stop.{TrustedCancellationStop}
use qarunner.Evidence.Classify.{
  EvidenceOutcome, PlatformExitClass, TrustedExitFacts, ValidatedCaseSummary, classify_outcome,
  completed, no_pid, passed, test_failed,
}

-- The process ran to its end on its own.
pub record RanToEnd (e : TrustedExitFacts) : Type 0 where
  pub completed_exit : e.exit_class ≡ completed
  pub has_pid : no_pid e.pid ≡ false
  pub no_signal : e.signal ≡ none
  pub no_oom : e.oom ≡ false
  pub no_timeout : e.timeout ≡ false

abbrev pub ExitedZero : Option ℤ → Type 0
ExitedZero none = ⊥
ExitedZero (some code) = code ≡ pos 0

abbrev pub ExitedNonzero : Option ℤ → Type 0
ExitedNonzero none = ⊥
ExitedNonzero (some code) = code ≢ pos 0

-- Every expected case was reported, and none besides.
pub record IsComplete (s : ValidatedCaseSummary) : Type 0 where
  pub all_reported : s.not_reported ≡ 0
  pub none_unexpected : s.unexpected ≡ 0

-- What the trusted facts must show for an outcome.
abbrev pub Shows :
    EvidenceOutcome
    → TrustedExitFacts
    → Option ValidatedCaseSummary
    → Option TrustedCancellationStop
    → Type 0
Shows EvidenceOutcome.infra_failed e summary stop = e.exit_class ≡ PlatformExitClass.infra_failed
Shows EvidenceOutcome.cancelled e summary stop =
    (e.exit_class ≡ PlatformExitClass.cancelled) × (is_some stop ≡ true)
Shows passed e none stop = ⊥
Shows passed e (some s) stop = RanToEnd e × ExitedZero e.exit_code × IsComplete s × (s.failed ≡ 0)
Shows test_failed e none stop = ⊥
Shows test_failed e (some s) stop =
    RanToEnd e × ExitedNonzero e.exit_code × IsComplete s × (0 < s.failed)

-- An outcome is given exactly when the trusted facts show it: a platform failure by the exit class;
-- a cancellation by the exit class and a stop proof; a pass or a test failure by a process that ran
-- to its end by itself, a complete case summary, and an exit code and a number of failed cases that
-- agree: both zero for a pass, neither for a failure.
pub classify_outcome_iff :
    (e : TrustedExitFacts) (summary : Option ValidatedCaseSummary)
    (stop : Option TrustedCancellationStop) (o : EvidenceOutcome)
    → (classify_outcome e summary stop ≡ ok o) ↔ Shows o e summary stop
unfolding classify_outcome
classify_outcome_iff e none stop passed = ground arith
classify_outcome_iff e none stop _ = ground arith
classify_outcome_iff e (some s) stop passed = ground arith
classify_outcome_iff e (some s) stop _ = ground arith
