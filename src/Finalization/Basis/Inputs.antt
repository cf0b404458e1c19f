-- ===== src/Finalization/Basis/Inputs.antt =====
-- `_validate_input_kind` and the constructor: what each kind of terminal input asks of the basis.
use qarunner.Prelude.{
  Bool, List, Option, [], any, false, holds, if◌then◌else◌, is_none, is_some, none, not, ok,
  raise_if, raised, some, true, ◌&&◌, ◌>>◌, ◌||◌, ◌∷◌,
}
use qarunner.Values.{Command, Digest, invalid}
use qarunner.Retry.{AttemptExecutionFact, fact_cancelled, fact_unknown}
use qarunner.Unknown.{mark_completed_from_verified_evidence, mark_infra_failed_no_retry}
use qarunner.Finalization.{
  Digest?-discrete, FinalizationDecisionKind, RunDisposition, RunOutcome, RunOutcome-discrete,
  TerminalInputKind, contract_rule, forbid_present, input_adjudication, input_prestart, no_retry,
  outcome_cancelled, outcome_infra_failed, outcome_of, require_digest, require_nonnegative_int,
  require_positive_int, require_string, unknown_adjudication, verified_cancellation_evidence,
  verified_evidence,
}
use qarunner.Finalization.Decisions.{
  DecisionResult, RunFinalizationDecisionRef, UnknownAdjudicationResultRef, adjudication_result,
  rule_result,
}
use qarunner.Finalization.Basis.{
  BasisValues, RunFinalizationBasis, broken, entity, validate_decisions,
}

abbrev is_outcome_cancelled : RunOutcome → Bool
is_outcome_cancelled outcome_cancelled = true
is_outcome_cancelled _ = false

abbrev is_outcome_infra : RunOutcome → Bool
is_outcome_infra outcome_infra_failed = true
is_outcome_infra _ = false

abbrev state_cancelled : Option AttemptExecutionFact → Bool
state_cancelled (some fact_cancelled) = true
state_cancelled _ = false

abbrev state_unknown : Option AttemptExecutionFact → Bool
state_unknown (some fact_unknown) = true
state_unknown _ = false

-- The contract rule that carries the two digests of the cancellation.
abbrev pub is_cancel_rule :
    Option Digest → Option Digest → FinalizationDecisionKind → DecisionResult → Bool
is_cancel_rule intent stop contract_rule (rule_result r) =
    holds (Digest?-discrete r.cancellation_intent_digest intent)
    && holds (Digest?-discrete r.cancellation_stop_digest stop)
is_cancel_rule intent stop _ _ = false

unfoldable pub has_cancel_rule : BasisValues → Bool
has_cancel_rule v =
    any
      (λ d.
        is_cancel_rule v.cancellation_intent_digest v.cancellation_stop_digest d.decision_kind
          d.decision_result)
      v.decision_chain

unfoldable pub validate_cancel_rule : BasisValues → Command (Unit {0})
unfolding has_cancel_rule
validate_cancel_rule v = raise_if (not (has_cancel_rule v)) (broken "cancellation_rule_mismatch")

unfoldable pub forbid_attempt : RunFinalizationBasis → Command (Unit {0})
forbid_attempt b = do
  forbid_present entity "original_attempt_id" b.values.original_attempt_id
  forbid_present entity "original_attempt_fence" b.values.original_attempt_fence
  forbid_present entity "final_attempt_id" b.values.final_attempt_id
  forbid_present entity "final_attempt_no" b.values.final_attempt_no
  forbid_present entity "final_attempt_fence" b.values.final_attempt_fence
  forbid_present entity "final_attempt_version" b.values.final_attempt_version
  forbid_present entity "final_attempt_state" b.values.final_attempt_state
  forbid_present entity "worker_id" b.values.worker_id
  forbid_present entity "worker_generation" b.values.worker_generation
  forbid_present entity "attempt_chain_digest" b.attempt_chain_digest
  forbid_present entity "evidence_root_digest" b.values.evidence_root_digest

unfoldable pub prestart_inputs : RunFinalizationBasis → Command (Unit {0})
unfolding forbid_attempt
prestart_inputs b = do
  forbid_attempt b
  require_digest entity "cancellation_intent_digest" b.values.cancellation_intent_digest
  require_digest entity "prestart_closure_digest" b.values.prestart_closure_digest
  raise_if (is_some b.values.cancellation_stop_digest)
      (invalid entity "cancellation_stop_digest" "forbidden")
  raise_if (not (is_outcome_cancelled b.values.outcome))
      (invalid entity "outcome" "prestart_requires_cancelled")

-- The checks that the other three kinds share.
unfoldable pub require_attempt : RunFinalizationBasis → Command (Unit {0})
require_attempt b = do
  require_digest entity "attempt_chain_digest" b.attempt_chain_digest
  require_string entity "original_attempt_id" b.values.original_attempt_id
  require_string entity "final_attempt_id" b.values.final_attempt_id
  require_string entity "worker_id" b.values.worker_id
  require_positive_int entity "original_attempt_fence" b.values.original_attempt_fence
  require_positive_int entity "final_attempt_no" b.values.final_attempt_no
  require_positive_int entity "final_attempt_fence" b.values.final_attempt_fence
  require_positive_int entity "worker_generation" b.values.worker_generation
  require_nonnegative_int entity "final_attempt_version" b.values.final_attempt_version
  raise_if (is_none b.values.final_attempt_state) (invalid entity "final_attempt_state" "unknown")
  raise_if (is_some b.values.prestart_closure_digest)
      (invalid entity "prestart_closure_digest" "forbidden")

unfoldable pub cancellation_inputs : BasisValues → Command (Unit {0})
unfolding validate_cancel_rule
cancellation_inputs v = do
  raise_if (not (state_cancelled v.final_attempt_state))
      (invalid entity "final_attempt_state" "cancellation_requires_cancelled")
  require_digest entity "evidence_root_digest" v.evidence_root_digest
  require_digest entity "cancellation_intent_digest" v.cancellation_intent_digest
  require_digest entity "cancellation_stop_digest" v.cancellation_stop_digest
  raise_if (not (is_outcome_cancelled v.outcome))
      (invalid entity "outcome" "cancellation_requires_cancelled")
  validate_cancel_rule v

abbrev pub is_adjudication : FinalizationDecisionKind → Bool
is_adjudication unknown_adjudication = true
is_adjudication _ = false

-- The results of the adjudications in the chain.
unfoldable pub adjudications : List RunFinalizationDecisionRef → List DecisionResult
adjudications [] = []
adjudications (d ∷ rest) =
    if is_adjudication d.decision_kind
    then d.decision_result ∷ adjudications rest
    else adjudications rest

unfoldable pub adjudication_matrix : UnknownAdjudicationResultRef → BasisValues → Command (Unit {0})
adjudication_matrix r v = elim r.decision [
  | mark_infra_failed_no_retry ↦
      raise_if (not (is_outcome_infra v.outcome) || is_some v.evidence_root_digest)
        (invalid entity "outcome" "infra_adjudication_matrix")
  | mark_completed_from_verified_evidence ↦
      require_digest entity "evidence_root_digest" v.evidence_root_digest
      >> raise_if (not (holds (Digest?-discrete r.evidence_root_digest v.evidence_root_digest)))
          (invalid entity "evidence_root_digest" "adjudication_mismatch")
  | _ ↦ raised (invalid entity "decision_result" "retry_cannot_close_unknown")
]

-- A decision's constructor ties its result to its kind, so that the assertion on it holds: the last
-- clause is reached with no result or with several.
unfoldable pub only_adjudication : List DecisionResult → BasisValues → Command (Unit {0})
unfolding adjudication_matrix
only_adjudication (adjudication_result r ∷ []) v = adjudication_matrix r v
only_adjudication _ v = raised (broken "unknown_adjudication_required")

unfoldable pub adjudication_inputs : Option Digest → BasisValues → Command (Unit {0})
unfolding adjudications only_adjudication
adjudication_inputs adjudication_chain_digest v = do
  raise_if (not (state_unknown v.final_attempt_state))
      (invalid entity "final_attempt_state" "unknown_required")
  require_digest entity "unknown_observation_digest" v.unknown_observation_digest
  require_digest entity "adjudication_chain_digest" adjudication_chain_digest
  only_adjudication (adjudications v.decision_chain) v

abbrev agrees : RunOutcome → Option RunOutcome → Bool
agrees o none = false
agrees o (some p) = holds (RunOutcome-discrete o p)

abbrev fact_outcome : Option AttemptExecutionFact → Option RunOutcome
fact_outcome none = none
fact_outcome (some f) = outcome_of f

unfoldable pub evidence_inputs : BasisValues → Command (Unit {0})
evidence_inputs v = do
  raise_if (state_unknown v.final_attempt_state)
      (invalid entity "final_attempt_state" "unresolved_unknown")
  require_digest entity "evidence_root_digest" v.evidence_root_digest
  raise_if (not (agrees v.outcome (fact_outcome v.final_attempt_state)))
      (invalid entity "outcome" "attempt_state_mismatch")

unfoldable pub input_check : TerminalInputKind → RunFinalizationBasis → Command (Unit {0})
unfolding prestart_inputs require_attempt cancellation_inputs adjudication_inputs evidence_inputs
input_check input_prestart b = prestart_inputs b
input_check verified_cancellation_evidence b = require_attempt b >> cancellation_inputs b.values
input_check input_adjudication b =
    require_attempt b >> adjudication_inputs b.adjudication_chain_digest b.values
input_check verified_evidence b = require_attempt b >> evidence_inputs b.values

abbrev is_no_retry : RunDisposition → Bool
is_no_retry no_retry = true
is_no_retry _ = false

unfoldable pub basis_post_init : RunFinalizationBasis → Command RunFinalizationBasis
unfolding validate_decisions input_check
basis_post_init b = do
  require_string entity "run_id" (some b.run_id)
  require_string entity "batch_id" (some b.batch_id)
  require_string entity "terminal_rule_schema" (some b.values.terminal_rule_schema)
  require_positive_int entity "terminal_rule_version" (some b.values.terminal_rule_version)
  require_positive_int entity "item_count" (some b.item_count)
  raise_if (not (is_no_retry b.values.disposition))
      (invalid entity "disposition" "basis_requires_closed_no_retry")
  validate_decisions b
  input_check b.values.terminal_input_kind b
  ok b
