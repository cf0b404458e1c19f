-- ===== src/Finalization/Basis.antt =====
-- `RunFinalizationBasis`: what the outcome of a closed Run rests on, with the constructor's checks.
pub mod Leads
pub mod Retries
pub mod Inputs
pub mod Build
pub mod Payload
pub mod Bound
pub mod Matrix
use qarunner.Prelude.{
  Bool, List, Option, String, String-discrete, [], any, false, has_value, holds, leb, none, not, ok,
  raise_if, raised, some, true, ℕ, ℕ_discrete, ◌&&◌, ◌+◌, ◌==◌, ◌>>◌, ◌∷◌,
}
use qarunner.Values.{Command, Digest, DomainError, digest_eq, invalid}
use qarunner.Retry.{AttemptExecutionFact}
use qarunner.Finalization.{
  FinalizationDecisionKind, RunDisposition, RunOutcome, TerminalInputKind, contract_rule,
  platform_retry, suite_retry,
}
use qarunner.Finalization.Decisions.{
  DecisionResult, RetryDecisionResultRef, RunFinalizationDecisionRef, retry_result,
}

-- The fields that `build` passes on as `**values`.
pub record BasisValues : Type 0 where
  pub execution_spec_digest : Digest
  pub original_attempt_id : Option String
  pub original_attempt_fence : Option ℕ
  pub final_attempt_id : Option String
  pub final_attempt_no : Option ℕ
  pub final_attempt_fence : Option ℕ
  pub final_attempt_version : Option ℕ
  pub final_attempt_state : Option AttemptExecutionFact
  pub worker_id : Option String
  pub worker_generation : Option ℕ
  pub evidence_root_digest : Option Digest
  pub unknown_observation_digest : Option Digest
  pub cancellation_intent_digest : Option Digest
  pub cancellation_stop_digest : Option Digest
  pub prestart_closure_digest : Option Digest
  pub terminal_rule_schema : String
  pub terminal_rule_version : ℕ
  pub terminal_rule_digest : Digest
  pub decision_chain : List RunFinalizationDecisionRef
  pub disposition : RunDisposition
  pub outcome : RunOutcome
  pub terminal_input_kind : TerminalInputKind

pub record RunFinalizationBasis : Type 0 where
  pub run_id : String
  pub batch_id : String
  pub source_run_version : ℕ
  pub manifest_digest : Digest
  pub shard_plan_digest : Digest
  pub run_item_set_digest : Digest
  pub attempt_chain_digest : Option Digest
  pub adjudication_chain_digest : Option Digest
  pub retry_chain_digest : Option Digest
  pub item_resolution_set_digest : Digest
  pub original_resolution_set_digest : Digest
  pub effective_resolution_set_digest : Digest
  pub item_count : ℕ
  pub values : BasisValues

abbrev pub entity : String
entity = "run_finalization_basis"

abbrev pub broken : String → DomainError
broken = invalid entity "decision_chain"

-- `tuple(sequences) == tuple(range(first, …))`.
unfoldable pub is_numbered_from : ℕ → List RunFinalizationDecisionRef → Bool
is_numbered_from n [] = true
is_numbered_from n (d ∷ rest) = d.sequence == n && is_numbered_from (n + 1) rest

abbrev pub is_rule : RunFinalizationDecisionRef → Bool
is_rule d = elim d.decision_kind [ contract_rule ↦ true | _ ↦ false ]

-- The four source fields of a decision, whose constructor wants all or none of them.
pub record RetrySource : Type 0 where
  pub attempt_id : String
  pub attempt_no : ℕ
  pub attempt_fence : ℕ
  pub item_set_digest : Digest

abbrev pub source_of : Option String → Option ℕ → Option ℕ → Option Digest → Option RetrySource
source_of (some id) (some n) (some fence) (some items) =
    some
      (record { attempt_id = id; attempt_no = n; attempt_fence = fence; item_set_digest = items })
source_of _ _ _ _ = none

pub record RetryStep : Type 0 where
  pub source : Option RetrySource
  pub target : RetryDecisionResultRef

-- A decision's constructor ties its result to its kind, so that the assertion on it holds.
abbrev pub step_of :
    FinalizationDecisionKind → RunFinalizationDecisionRef → DecisionResult → Option RetryStep
step_of suite_retry d (retry_result t) = some (record {
  source =
      source_of d.source_attempt_id d.source_attempt_no d.source_attempt_fence
        d.source_item_set_digest;
  target = t;
})
step_of platform_retry d (retry_result t) = some (record {
  source =
      source_of d.source_attempt_id d.source_attempt_no d.source_attempt_fence
        d.source_item_set_digest;
  target = t;
})
step_of _ d _ = none

abbrev with_step : Option RetryStep → List RetryStep → List RetryStep
with_step none steps = steps
with_step (some s) steps = s ∷ steps

unfoldable pub retries : List RunFinalizationDecisionRef → List RetryStep
retries [] = []
retries (d ∷ rest) = with_step (step_of d.decision_kind d d.decision_result) (retries rest)

-- The target is the Attempt after the source, for the same items.
abbrev follows : RetrySource → RetryDecisionResultRef → Bool
follows s t =
    t.target_attempt_no == s.attempt_no + 1
    && not (leb t.target_attempt_fence s.attempt_fence)
    && digest_eq t.target_item_set_digest s.item_set_digest

-- The source is the target of the retry before.
abbrev continues : Option RetryDecisionResultRef → RetrySource → Bool
continues none s = true
continues (some t) s =
    holds (String-discrete s.attempt_id t.target_attempt_id)
    && s.attempt_no == t.target_attempt_no
    && s.attempt_fence == t.target_attempt_fence
    && digest_eq s.item_set_digest t.target_item_set_digest

abbrev pub step_check :
    Option RetryDecisionResultRef → Option RetrySource → RetryDecisionResultRef → Command (Unit {0})
step_check previous none t = raised (broken "retry_source_required")
step_check previous (some s) t = do
  raise_if (not (follows s t)) (broken "retry_target_discontinuous")
  raise_if (not (continues previous s)) (broken "retry_source_discontinuous")

unfoldable pub steps_check : Option RetryDecisionResultRef → List RetryStep → Command (Unit {0})
unfolding digest_eq
steps_check previous [] = ok tt
steps_check previous (s ∷ rest) = do
  step_check previous s.source s.target
  steps_check (some s.target) rest

abbrev pub starts : RunFinalizationBasis → Option RetrySource → Bool
starts b none = false
starts b (some s) =
    has_value String-discrete b.values.original_attempt_id s.attempt_id
    && has_value ℕ_discrete b.values.original_attempt_fence s.attempt_fence

abbrev pub ends : RunFinalizationBasis → RetryDecisionResultRef → Bool
ends b t =
    has_value String-discrete b.values.final_attempt_id t.target_attempt_id
    && has_value ℕ_discrete b.values.final_attempt_no t.target_attempt_no
    && has_value ℕ_discrete b.values.final_attempt_fence t.target_attempt_fence
    && digest_eq t.target_item_set_digest b.run_item_set_digest

unfoldable pub last_target : RetryDecisionResultRef → List RetryStep → RetryDecisionResultRef
last_target t [] = t
last_target t (s ∷ rest) = last_target s.target rest

unfoldable pub ends_check : RunFinalizationBasis → List RetryStep → Command (Unit {0})
unfolding last_target digest_eq
ends_check b [] = ok tt
ends_check b (s ∷ rest) =
    raise_if (not (starts b s.source && ends b (last_target s.target rest)))
      (broken "retry_basis_mismatch")

unfoldable pub validate_decisions : RunFinalizationBasis → Command (Unit {0})
unfolding is_numbered_from retries steps_check ends_check
validate_decisions b = do
  raise_if (not (is_numbered_from 1 b.values.decision_chain)) (broken "non_contiguous")
  raise_if (not (any is_rule b.values.decision_chain)) (broken "contract_rule_required")
  steps_check none (retries b.values.decision_chain)
  ends_check b (retries b.values.decision_chain)
