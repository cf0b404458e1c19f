-- ===== src/Finalization/Examples/Closed.antt =====
-- The basis that closes a Run after one retry.
use qarunner.Prelude.{
  String-discrete, [], inl, inr, is_blank, none, ok, refl, some, ℕ_discrete, ◌∷◌, ◌≡◌,
}
use qarunner.Values.{digest_eq}
use qarunner.Retry.{fact_passed}
use qarunner.Finalization.{
  RunOutcome-discrete, contract_rule, no_retry, outcome_passed, suite_retry, verified_evidence,
}
use qarunner.Finalization.Keys.{RunItemKey}
use qarunner.Finalization.Decisions.{
  RetryDecisionResultRef, RunFinalizationDecisionRef, decision_post_init, retry_result, rule_result,
}
use qarunner.Finalization.Items.Entry.{RunItemResolution}
use qarunner.Finalization.ResolutionSet.{
  RunItemResolutionSet, effective_resolution_set_digest, original_resolution_set_digest,
  resolution_set_digest,
}
use qarunner.Finalization.Basis.{
  BasisValues, RetrySource, RetryStep, RunFinalizationBasis, ends_check, is_numbered_from,
  last_target, retries, steps_check, validate_decisions,
}
use qarunner.Finalization.Basis.Inputs.{
  basis_post_init, evidence_inputs, input_check, require_attempt,
}
use qarunner.Finalization.Basis.Matrix.{Justified, basis_post_init-Justified}
use qarunner.Finalization.Examples.{digest, envelope, first_key, passed, second_key}
use qarunner.Finalization.Basis.Build.{build_basis}
use qarunner.Finalization.Basis.Bound.{BoundTo, Named, build_basis-BoundTo}
use qarunner.Values.Canonical.{Hash, is_valid_json}
use qarunner.Finalization.Examples.Selected.{retried}
use qarunner.Finalization.Basis.Retries.{Connects, validate_decisions-Connects}

abbrev rule : RunFinalizationDecisionRef
rule = record {
  sequence = 1;
  decision_kind = contract_rule;
  decision_schema = "rule";
  decision_id = "d1";
  decision_version = 1;
  decision_digest = digest "rule";
  decision_result = rule_result (record {
    outcome = outcome_passed;
    cancellation_intent_digest = none;
    cancellation_stop_digest = none;
    prestart_closure_digest = none;
  });
  source_attempt_id = none;
  source_attempt_no = none;
  source_attempt_fence = none;
  source_item_set_digest = none;
}

abbrev target : RetryDecisionResultRef
target = record {
  retry_intent_digest = digest "intent";
  retry_decision_digest = digest "decision";
  retry_authority_digest = digest "authority";
  target_attempt_id = "t2";
  target_attempt_no = 2;
  target_attempt_fence = 2;
  target_item_set_digest = digest "items";
}

abbrev retry : RunFinalizationDecisionRef
retry = record {
  sequence = 2;
  decision_kind = suite_retry;
  decision_schema = "retry";
  decision_id = "d2";
  decision_version = 1;
  decision_digest = digest "decision";
  decision_result = retry_result target;
  source_attempt_id = some "t1";
  source_attempt_no = some 1;
  source_attempt_fence = some 1;
  source_item_set_digest = some (digest "items");
}

retry_then : decision_post_init retry ≡ ok retry
unfolding decision_post_init digest_eq is_blank
retry_then = refl

abbrev values : BasisValues
values = record {
  execution_spec_digest = digest "spec";
  original_attempt_id = some "t1";
  original_attempt_fence = some 1;
  final_attempt_id = some "t2";
  final_attempt_no = some 2;
  final_attempt_fence = some 2;
  final_attempt_version = some 5;
  final_attempt_state = some fact_passed;
  worker_id = some "w1";
  worker_generation = some 1;
  evidence_root_digest = some (digest "evidence");
  unknown_observation_digest = none;
  cancellation_intent_digest = none;
  cancellation_stop_digest = none;
  prestart_closure_digest = none;
  terminal_rule_schema = "rule";
  terminal_rule_version = 1;
  terminal_rule_digest = digest "terminal";
  decision_chain = rule ∷ retry ∷ [];
  disposition = no_retry;
  outcome = outcome_passed;
  terminal_input_kind = verified_evidence;
}

abbrev basis : RunFinalizationBasis
basis = record {
  run_id = "r1";
  batch_id = "b1";
  source_run_version = 9;
  manifest_digest = digest "manifest";
  shard_plan_digest = digest "plan";
  run_item_set_digest = digest "items";
  attempt_chain_digest = some (digest "attempts");
  adjudication_chain_digest = none;
  retry_chain_digest = some (digest "retries");
  item_resolution_set_digest = digest "h";
  original_resolution_set_digest = digest "h";
  effective_resolution_set_digest = digest "h";
  item_count = 2;
  values = values;
}

program : Unit {0}
unfolding basis_post_init validate_decisions is_numbered_from retries steps_check ends_check
    last_target digest_eq input_check require_attempt evidence_inputs is_blank String-discrete
    ℕ_discrete RunOutcome-discrete
program = tt

chain_accepted : validate_decisions basis ≡ ok tt
unfolding program
chain_accepted = refl

abbrev step : RetryStep
step = record {
  source = some (record {
    attempt_id = "t1";
    attempt_no = 1;
    attempt_fence = 1;
    item_set_digest = digest "items";
  });
  target = target;
}

rule_then : decision_post_init rule ≡ ok rule
unfolding decision_post_init digest_eq is_blank
rule_then = refl

validate_decisions-Connects_example :
    (first : RetrySource) × (final : RetrySource) × Connects basis first final
validate_decisions-Connects_example =
    validate_decisions-Connects basis chain_accepted (rule_then, (retry_then, tt))
      (inr (inl (inl refl)))

basis_then : basis_post_init basis ≡ ok basis
unfolding program
basis_then = refl

basis_post_init-Justified_example :
    (basis.values.disposition ≡ no_retry) × Justified basis.values.terminal_input_kind basis
basis_post_init-Justified_example = basis_post_init-Justified basis basis basis_then

-- A hash that is the same everywhere.
abbrev sha256 : Hash
sha256 schema payload = digest "h"

abbrev retried_entry : RunItemKey → RunItemResolution
retried_entry k = record passed { item_key = k; effective = retried "t2" 2 2 }

abbrev resolutions : RunItemResolutionSet
resolutions = record {
  envelope = record envelope {
    attempt_chain_digest = digest "attempts";
    retry_chain_digest = some (digest "retries");
    adjudication_chain_digest = none;
  };
  entries = retried_entry first_key ∷ retried_entry second_key ∷ [];
}

built :
    build_basis sha256 resolutions (digest "manifest") (digest "plan") (digest "items") 9 values
    ≡ ok basis
unfolding program build_basis resolution_set_digest original_resolution_set_digest
    effective_resolution_set_digest is_valid_json
built = refl

build_basis-BoundTo_example :
    Named sha256 resolutions (digest "manifest") (digest "plan") (digest "items") 9 values
    × BoundTo sha256 resolutions basis
    × (basis.values ≡ values)
    × Justified basis.values.terminal_input_kind basis
build_basis-BoundTo_example =
    build_basis-BoundTo sha256 resolutions (digest "manifest") (digest "plan") (digest "items") 9
      values basis built
