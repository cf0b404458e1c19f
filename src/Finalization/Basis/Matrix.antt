-- ===== src/Finalization/Basis/Matrix.antt =====
-- What the outcome of a closed Run rests on, by the kind of its terminal input.
use mathlib.Core.List.{Memᴰ}
use qarunner.Prelude.Members.{any-Memᴰ}
use qarunner.Prelude.{
  List, Option, [], arith, is_some, none, ok, refl, some, true, ◌↔◌, ◌∷◌, ◌≡◌, ◌≢◌, ◌⊎◌,
}
use qarunner.Retry.{AttemptExecutionFact, fact_cancelled, fact_unknown}
use qarunner.Unknown.{mark_completed_from_verified_evidence, mark_infra_failed_no_retry}
use qarunner.Values.{Digest}
use qarunner.Finalization.{
  FinalizationDecisionKind, TerminalInputKind, contract_rule, input_adjudication, input_prestart,
  no_retry, outcome_cancelled, outcome_infra_failed, outcome_of, unknown_adjudication,
  verified_cancellation_evidence, verified_evidence,
}
use qarunner.Finalization.Decisions.{
  ContractRuleResultRef, DecisionResult, RunFinalizationDecisionRef, UnknownAdjudicationResultRef,
  adjudication_result, retry_result, risk_result, rule_result,
}
use qarunner.Finalization.Basis.{BasisValues, RunFinalizationBasis, validate_decisions}
use qarunner.Finalization.Basis.Inputs.{
  adjudication_inputs, adjudication_matrix, adjudications, basis_post_init, cancellation_inputs,
  evidence_inputs, forbid_attempt, has_cancel_rule, input_check, is_adjudication, is_cancel_rule,
  only_adjudication, prestart_inputs, require_attempt, validate_cancel_rule,
}

-- No Attempt was started: the Run was cancelled before.
pub record NeverStarted (b : RunFinalizationBasis) : Type 0 where
  cancelled : b.values.outcome ≡ outcome_cancelled
  no_original : (b.values.original_attempt_id ≡ none) × (b.values.original_attempt_fence ≡ none)
  no_attempt : (b.values.final_attempt_id ≡ none) × (b.values.final_attempt_no ≡ none)
  no_fence : (b.values.final_attempt_fence ≡ none) × (b.values.final_attempt_version ≡ none)
  no_state : b.values.final_attempt_state ≡ none
  no_worker : (b.values.worker_id ≡ none) × (b.values.worker_generation ≡ none)
  no_chain : b.attempt_chain_digest ≡ none
  no_evidence : b.values.evidence_root_digest ≡ none
  intended : is_some b.values.cancellation_intent_digest ≡ true
  closed : is_some b.values.prestart_closure_digest ≡ true
  not_stopped : b.values.cancellation_stop_digest ≡ none

-- A contract rule of the chain names the cancellation's intent and its stop.
abbrev pub RuledBy : BasisValues → Type 0
RuledBy v =
    (d : RunFinalizationDecisionRef) × (r : ContractRuleResultRef) × Memᴰ d v.decision_chain
    × (d.decision_kind ≡ contract_rule)
    × (d.decision_result ≡ rule_result r)
    × (r.cancellation_intent_digest ≡ v.cancellation_intent_digest)
    × (r.cancellation_stop_digest ≡ v.cancellation_stop_digest)

pub record Stopped (v : BasisValues) : Type 0 where
  cancelled : v.outcome ≡ outcome_cancelled
  ended : v.final_attempt_state ≡ some fact_cancelled
  evident : is_some v.evidence_root_digest ≡ true
  intended : is_some v.cancellation_intent_digest ≡ true
  stopped : is_some v.cancellation_stop_digest ≡ true
  ruled : RuledBy v

-- The one adjudication of the chain closes the unknown Attempt. It leaves the outcome open when it
-- completes the Attempt from evidence.
abbrev pub Closes : UnknownAdjudicationResultRef → BasisValues → Type 0
Closes r v =
    (r.decision ≡ mark_infra_failed_no_retry)
      × (v.outcome ≡ outcome_infra_failed)
      × (v.evidence_root_digest ≡ none)
    ⊎ (r.decision ≡ mark_completed_from_verified_evidence)
      × (is_some v.evidence_root_digest ≡ true)
      × (r.evidence_root_digest ≡ v.evidence_root_digest)

-- No decision of the list is an adjudication.
abbrev pub NoAdjudication : List RunFinalizationDecisionRef → Type 0
NoAdjudication [] = Unit
NoAdjudication (d ∷ rest) = (d.decision_kind ≢ unknown_adjudication) × NoAdjudication rest

-- Exactly one decision of the list is an adjudication, and this is its result.
abbrev pub OneAdjudication : UnknownAdjudicationResultRef → List RunFinalizationDecisionRef → Type 0
OneAdjudication r [] = ⊥
OneAdjudication r (d ∷ rest) =
    (d.decision_kind ≡ unknown_adjudication)
      × (d.decision_result ≡ adjudication_result r)
      × NoAdjudication rest
    ⊎ (d.decision_kind ≢ unknown_adjudication) × OneAdjudication r rest

pub record Decided (v : BasisValues) : Type 0 where
  unknown : v.final_attempt_state ≡ some fact_unknown
  observed : is_some v.unknown_observation_digest ≡ true
  by_decision : (r : UnknownAdjudicationResultRef) × OneAdjudication r v.decision_chain × Closes r v

pub record Verified (v : BasisValues) : Type 0 where
  evident : is_some v.evidence_root_digest ≡ true
  shown :
      (f : AttemptExecutionFact) × (v.final_attempt_state ≡ some f)
      × (outcome_of f ≡ some v.outcome)

abbrev pub Justified : TerminalInputKind → RunFinalizationBasis → Type 0
Justified input_prestart b = NeverStarted b
Justified verified_cancellation_evidence b = Stopped b.values
Justified input_adjudication b = Decided b.values
Justified verified_evidence b = Verified b.values

is_cancel_rule-RuledBy :
    (v : BasisValues) (d : RunFinalizationDecisionRef)
    → is_cancel_rule v.cancellation_intent_digest v.cancellation_stop_digest d.decision_kind
        d.decision_result
      ≡ true
    → (r : ContractRuleResultRef) × (d.decision_kind ≡ contract_rule)
      × (d.decision_result ≡ rule_result r)
      × (r.cancellation_intent_digest ≡ v.cancellation_intent_digest)
      × (r.cancellation_stop_digest ≡ v.cancellation_stop_digest)
is_cancel_rule-RuledBy v d h = ground arith

has_cancel_rule-RuledBy : (v : BasisValues) → has_cancel_rule v ≡ true → RuledBy v
unfolding has_cancel_rule
has_cancel_rule-RuledBy v h =
    let (d, m, k) = any-Memᴰ _ v.decision_chain h in
    let (r, a, b, c, e) = is_cancel_rule-RuledBy v d k in (d, r, m, a, b, c, e)

cancellation_inputs-Stopped : (v : BasisValues) → cancellation_inputs v ≡ ok tt → Stopped v
unfolding cancellation_inputs validate_cancel_rule
cancellation_inputs-Stopped v h =
    let ruled = has_cancel_rule-RuledBy v (ground arith) in ground arith

is_adjudication_iff :
    (k : FinalizationDecisionKind) → (is_adjudication k ≡ true) ↔ (k ≡ unknown_adjudication)
is_adjudication_iff k = ground arith

adjudications-none : (l : List RunFinalizationDecisionRef) → adjudications l ≡ [] → NoAdjudication l
unfolding adjudications
adjudications-none [] h = tt
adjudications-none (d ∷ rest) h =
    ground (arith, is_adjudication_iff d.decision_kind, adjudications-none rest)

adjudications-OneAdjudication :
    (l : List RunFinalizationDecisionRef) (r : UnknownAdjudicationResultRef)
    → adjudications l ≡ adjudication_result r ∷ []
    → OneAdjudication r l
unfolding adjudications
adjudications-OneAdjudication [] r h = cc
adjudications-OneAdjudication (d ∷ rest) r h = ground (
  arith,
  is_adjudication_iff d.decision_kind,
  adjudications-none rest,
  adjudications-OneAdjudication rest r,
)

only_adjudication-Closes :
    (l : List DecisionResult) (v : BasisValues)
    → only_adjudication l v ≡ ok tt
    → (r : UnknownAdjudicationResultRef) × (l ≡ adjudication_result r ∷ []) × Closes r v
unfolding only_adjudication adjudication_matrix
only_adjudication-Closes [] v h = cc
only_adjudication-Closes (adjudication_result r ∷ []) v h = (r, refl, ground arith)
only_adjudication-Closes (rule_result r ∷ []) v h = cc
only_adjudication-Closes (retry_result r ∷ []) v h = cc
only_adjudication-Closes (risk_result r ∷ []) v h = cc
only_adjudication-Closes (adjudication_result r ∷ s ∷ l) v h = cc
only_adjudication-Closes (rule_result r ∷ s ∷ l) v h = cc
only_adjudication-Closes (retry_result r ∷ s ∷ l) v h = cc
only_adjudication-Closes (risk_result r ∷ s ∷ l) v h = cc

adjudication_inputs-Decided :
    (chain : Option Digest) (v : BasisValues) → adjudication_inputs chain v ≡ ok tt → Decided v
unfolding adjudication_inputs
adjudication_inputs-Decided chain v h =
    let (r, only, closes) =
      only_adjudication-Closes (adjudications v.decision_chain) v (ground arith) in
    let one = adjudications-OneAdjudication v.decision_chain r only in
    record { unknown = ground arith; observed = ground arith; by_decision = (r, one, closes) }

input_check-Justified :
    (kind : TerminalInputKind) (b : RunFinalizationBasis)
    → input_check kind b ≡ ok tt
    → Justified kind b
unfolding input_check prestart_inputs forbid_attempt require_attempt evidence_inputs
input_check-Justified input_prestart b h = ground arith
input_check-Justified verified_cancellation_evidence b h =
    ground (arith, cancellation_inputs-Stopped b.values)
input_check-Justified input_adjudication b h =
    adjudication_inputs-Decided b.adjudication_chain_digest b.values (ground arith)
input_check-Justified verified_evidence b h = ground arith

-- The constructor's checks, taken apart.
pub basis_post_init-checked :
    (b v : RunFinalizationBasis)
    → basis_post_init b ≡ ok v
    → (b.values.disposition ≡ no_retry)
      × (validate_decisions b ≡ ok tt)
      × (input_check b.values.terminal_input_kind b ≡ ok tt)
unfolding basis_post_init
basis_post_init-checked b v h = ground arith

-- A basis that the constructor accepts closes without a retry and meets what its input kind asks.
-- For a cancellation before the start: the outcome is cancelled, the intent's and the closure's
-- digests are there, and no field names an original or a final Attempt, a worker, a chain of
-- Attempts, evidence or a stop. For a verified cancellation: it is cancelled, with evidence, the
-- digests of the cancellation and a contract rule that names them. For an unknown Attempt: exactly
-- one decision of the chain is an adjudication, and it is either a failure of the infrastructure,
-- with that outcome and no evidence, or a completion whose evidence digest is the basis's; the
-- latter leaves the outcome open. For verified evidence: there is a digest of it, and the outcome
-- is that of the final Attempt's state, which is not unknown; nothing more is asked when that state
-- is cancelled.
pub basis_post_init-Justified :
    (b v : RunFinalizationBasis)
    → basis_post_init b ≡ ok v
    → (b.values.disposition ≡ no_retry) × Justified b.values.terminal_input_kind b
basis_post_init-Justified b v h =
    let (closes, decided, checked) = basis_post_init-checked b v h in
    (closes, input_check-Justified b.values.terminal_input_kind b checked)
