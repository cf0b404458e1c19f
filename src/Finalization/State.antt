-- ===== src/Finalization/State.antt =====
-- `RunFinalizationState`: the fields of a Run's phase, disposition and outcome together, and the
-- table of what the constructor accepts.
use qarunner.Prelude.{
  Bool, Option, String, arith, false, is_blank, is_none, is_some, none, not, ok, raise_if, some,
  true, ◌>>◌, ◌||◌, ◌↔◌, ◌≡◌, ◌⊎◌,
}
use qarunner.Values.{Command, Digest, DomainError, invalid}
use qarunner.Retry.{AttemptExecutionFact, fact_unknown}
use qarunner.Finalization.{
  RunDisposition, RunOutcome, RunPhase, no_retry, phase_closed, phase_retry_queued, phase_running,
  retry_waiting, review,
}

pub record RunFinalizationState : Type 0 where
  pub phase : RunPhase
  pub disposition : Option RunDisposition
  pub outcome : Option RunOutcome
  pub finalization_basis_digest : Option Digest
  pub latest_attempt_fact : Option AttemptExecutionFact
  pub current_assignment_id : Option String
  pub pending_retry_intent_id : Option String

abbrev broken : String → String → DomainError
broken = invalid "run_finalization_state"

abbrev pub blank? : Option String → Bool
blank? none = false
blank? (some s) = is_blank s

abbrev is_no_retry : Option RunDisposition → Bool
is_no_retry (some no_retry) = true
is_no_retry _ = false

abbrev is_review : Option RunDisposition → Bool
is_review (some review) = true
is_review _ = false

abbrev is_retry : Option RunDisposition → Bool
is_retry (some retry_waiting) = true
is_retry _ = false

abbrev is_unknown : Option AttemptExecutionFact → Bool
is_unknown (some fact_unknown) = true
is_unknown _ = false

abbrev is_closed : RunPhase → Bool
is_closed phase_closed = true
is_closed _ = false

abbrev is_running : RunPhase → Bool
is_running phase_running = true
is_running _ = false

abbrev is_retry_queued : RunPhase → Bool
is_retry_queued phase_retry_queued = true
is_retry_queued _ = false

abbrev closed_check : Bool → RunFinalizationState → Command (Unit {0})
closed_check true s = do
  raise_if (not (is_no_retry s.disposition)) (broken "disposition" "closed_requires_disposition")
  raise_if (is_none s.outcome) (broken "outcome" "closed_requires_outcome")
  raise_if (is_none s.finalization_basis_digest)
      (broken "finalization_basis_digest" "closed_requires_basis")
  raise_if (is_some s.current_assignment_id || is_some s.pending_retry_intent_id)
      (broken "phase" "closed_forbids_active_pointer")
closed_check false s = do
  raise_if (is_no_retry s.disposition)
      (broken "disposition" "closed_disposition_requires_closed_phase")
  raise_if (is_some s.outcome) (broken "outcome" "outcome_requires_closed")
  raise_if (is_some s.finalization_basis_digest)
      (broken "finalization_basis_digest" "basis_requires_closed")

unfoldable pub validate_closed : RunFinalizationState → Command (Unit {0})
validate_closed s = closed_check (is_closed s.phase) s

abbrev review_check : Bool → RunFinalizationState → Command (Unit {0})
review_check false s = ok tt
review_check true s = do
  raise_if (not (is_running s.phase)) (broken "disposition" "review_requires_running")
  raise_if (not (is_unknown s.latest_attempt_fact))
      (broken "latest_attempt_fact" "review_requires_unknown")

unfoldable pub validate_review : RunFinalizationState → Command (Unit {0})
validate_review s = review_check (is_review s.disposition) s

abbrev retry_check : Bool → RunFinalizationState → Command (Unit {0})
retry_check true s = do
  raise_if (not (is_retry s.disposition)) (broken "disposition" "retry_requires_disposition")
  raise_if (is_none s.pending_retry_intent_id)
      (broken "pending_retry_intent_id" "retry_requires_pending_intent")
  raise_if (is_some s.current_assignment_id)
      (broken "current_assignment_id" "retry_forbids_current_assignment")
retry_check false s = do
  raise_if (is_retry s.disposition) (broken "disposition" "retry_disposition_requires_retry_phase")
  raise_if (is_some s.pending_retry_intent_id)
      (broken "pending_retry_intent_id" "pending_intent_requires_retry_phase")

unfoldable pub validate_retry : RunFinalizationState → Command (Unit {0})
validate_retry s = retry_check (is_retry_queued s.phase) s

unfoldable pub state_post_init : RunFinalizationState → Command RunFinalizationState
unfolding validate_closed validate_review validate_retry
state_post_init s = do
  raise_if (blank? s.current_assignment_id) (broken "current_assignment_id" "invalid")
  raise_if (blank? s.pending_retry_intent_id) (broken "pending_retry_intent_id" "invalid")
  validate_closed s
  validate_review s
  validate_retry s
  ok s

-- A Run that is not closed has neither an outcome nor a basis.
abbrev pub Open : RunFinalizationState → Type 0
Open s = (s.outcome ≡ none) × (s.finalization_basis_digest ≡ none)

-- The table of the phases.
abbrev pub PhaseFits : RunPhase → RunFinalizationState → Type 0
PhaseFits phase_closed s =
    (s.disposition ≡ some no_retry)
    × (is_some s.outcome ≡ true)
    × (is_some s.finalization_basis_digest ≡ true)
    × (s.current_assignment_id ≡ none)
    × (s.pending_retry_intent_id ≡ none)
PhaseFits phase_retry_queued s =
    Open s
    × (s.disposition ≡ some retry_waiting)
    × (is_some s.pending_retry_intent_id ≡ true)
    × (s.current_assignment_id ≡ none)
PhaseFits phase_running s =
    Open s
    × (s.pending_retry_intent_id ≡ none)
    × ((s.disposition ≡ none)
        ⊎ (s.disposition ≡ some review) × (s.latest_attempt_fact ≡ some fact_unknown))
PhaseFits _ s = Open s × (s.pending_retry_intent_id ≡ none) × (s.disposition ≡ none)

-- The constructor accepts exactly the states whose texts are not blank and whose phase fits: closed
-- with outcome, basis and no pointer; waiting for a retry with an intent and no assignment; running,
-- and under review only when the latest Attempt is unknown; before that, without a disposition. An
-- outcome and a basis are only there when it is closed.
pub state_post_init_iff :
    (s v : RunFinalizationState)
    → (state_post_init s ≡ ok v)
      ↔ (v ≡ s)
        × (blank? s.current_assignment_id ≡ false)
        × (blank? s.pending_retry_intent_id ≡ false)
        × PhaseFits s.phase s
unfolding state_post_init
state_post_init_iff s v = ground arith
