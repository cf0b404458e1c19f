-- ===== src/Finalization.antt =====
-- domain/run_finalization.py: what a closed Run rests on. The enumerations and the checks that its
-- value types share.
pub mod Decisions
pub mod Keys
pub mod Items
pub mod Payload
pub mod ResolutionSet
pub mod Selection
pub mod Basis
pub mod State
mod Examples
use qarunner.Prelude.{
  Option, String, String-discrete, is_blank, is_none, is_some, none, raise_if, raised, some, ℕ,
  ◌==◌,
}
use qarunner.Values.{Command, Digest, invalid}
use qarunner.Retry.{
  AttemptExecutionFact, fact_cancelled, fact_infra_failed, fact_passed, fact_test_failed,
  fact_unknown,
}

pub data RunPhase : Type 0 where
  planned : RunPhase
  queued : RunPhase
  assigned : RunPhase
  phase_running : RunPhase
  phase_retry_queued : RunPhase
  phase_closed : RunPhase

pub data RunDisposition : Type 0 where
  review : RunDisposition
  retry_waiting : RunDisposition
  no_retry : RunDisposition

pub data RunOutcome : Type 0 where
  outcome_passed : RunOutcome
  outcome_test_failed : RunOutcome
  outcome_infra_failed : RunOutcome
  outcome_cancelled : RunOutcome

pub data OriginalSourceKind : Type 0 where
  attempt_result : OriginalSourceKind
  attempt_terminal_fallback : OriginalSourceKind
  source_prestart : OriginalSourceKind

pub data EffectiveSourceKind : Type 0 where
  original_source : EffectiveSourceKind
  authorized_retry : EffectiveSourceKind
  source_adjudication : EffectiveSourceKind

pub data ItemAggregationClass : Type 0 where
  class_of : RunOutcome → ItemAggregationClass
  unknown_lineage : ItemAggregationClass

pub data TerminalInputKind : Type 0 where
  verified_evidence : TerminalInputKind
  verified_cancellation_evidence : TerminalInputKind
  input_prestart : TerminalInputKind
  input_adjudication : TerminalInputKind

pub data FinalizationDecisionKind : Type 0 where
  contract_rule : FinalizationDecisionKind
  suite_retry : FinalizationDecisionKind
  platform_retry : FinalizationDecisionKind
  unknown_adjudication : FinalizationDecisionKind
  duplicate_risk_acceptance : FinalizationDecisionKind

-- `RunOutcome(fact.value)`: the unknown fact has no outcome.
abbrev pub outcome_of : AttemptExecutionFact → Option RunOutcome
outcome_of fact_passed = some outcome_passed
outcome_of fact_test_failed = some outcome_test_failed
outcome_of fact_infra_failed = some outcome_infra_failed
outcome_of fact_cancelled = some outcome_cancelled
outcome_of fact_unknown = none

pub RunOutcome-discrete : Discrete RunOutcome
RunOutcome-discrete = hlevel

pub Digest-discrete : Discrete Digest
Digest-discrete = hlevel String-discrete

pub Digest?-discrete : Discrete (Option Digest)
Digest?-discrete = hlevel String-discrete

-- `_require_string`, `_require_positive_int` and `_require_digest`, on a value that may be `None`.
abbrev pub require_string : String → String → Option String → Command (Unit {0})
require_string entity field none = raised (invalid entity field "invalid")
require_string entity field (some s) = raise_if (is_blank s) (invalid entity field "invalid")

abbrev pub require_positive_int : String → String → Option ℕ → Command (Unit {0})
require_positive_int entity field none = raised (invalid entity field "invalid")
require_positive_int entity field (some n) = raise_if (n == 0) (invalid entity field "invalid")

abbrev pub require_nonnegative_int : String → String → Option ℕ → Command (Unit {0})
require_nonnegative_int entity field o = raise_if (is_none o) (invalid entity field "invalid")

abbrev pub require_digest : String → String → Option Digest → Command (Unit {0})
require_digest entity field o = raise_if (is_none o) (invalid entity field "not_digest")

-- One field of `_forbid_present`.
abbrev pub forbid_present {ℓ} : {A : Type ℓ} → String → String → Option A → Command (Unit {0})
forbid_present entity field o = raise_if (is_some o) (invalid entity field "forbidden")

abbrev pub run_outcome_value : RunOutcome → String
run_outcome_value outcome_passed = "passed"
run_outcome_value outcome_test_failed = "test_failed"
run_outcome_value outcome_infra_failed = "infra_failed"
run_outcome_value outcome_cancelled = "cancelled"

abbrev pub original_source_value : OriginalSourceKind → String
original_source_value attempt_result = "attempt_result"
original_source_value attempt_terminal_fallback = "attempt_terminal_fallback"
original_source_value source_prestart = "prestart_cancel"

abbrev pub effective_source_value : EffectiveSourceKind → String
effective_source_value original_source = "original"
effective_source_value authorized_retry = "authorized_retry"
effective_source_value source_adjudication = "unknown_adjudication"

abbrev pub class_value : ItemAggregationClass → String
class_value (class_of o) = run_outcome_value o
class_value unknown_lineage = "unknown_lineage"
