-- ===== src/Assignment/Validity.antt =====
-- What the constructors of an assignment and of its closure accept.
use qarunner.Prelude.{
  Option, String, arith, false, is_blank, is_some, none, ok, same_iff, some, true, ◌<◌, ◌↔◌, ◌≡◌,
  ◌≤◌,
}
use qarunner.Values.{DateTime, WorkerRef, is_utc}
use qarunner.Values.Laws.{ref_eq_iff}
use qarunner.Assignment.{
  Assignment, AssignmentClosure, AssignmentClosureKind, AssignmentState, cancelled,
  cancelled_prestart, claimed, closed_state_check, closure_check, committed, expired,
  expired_prestart, offered, open_state_check, post_init, released, released_prestart, same_worker?,
  state_check, terminal_kind,
}

-- A time of the claim within the offer's window.
abbrev pub ClaimedWithin : DateTime → DateTime → Option DateTime → Type 0
ClaimedWithin start end none = Unit
ClaimedWithin start end (some t) =
    (is_utc t ≡ true) × (start.instant ≤ t.instant) × (t.instant < end.instant)

abbrev pub CommittedWithin : Option DateTime → DateTime → Option DateTime → Type 0
CommittedWithin claimed_at end none = Unit
CommittedWithin none end (some t) = ⊥
CommittedWithin (some start) end (some t) =
    (is_utc t ≡ true) × (start.instant ≤ t.instant) × (t.instant < end.instant)

abbrev pub NotBeforeClaim : DateTime → Option DateTime → Type 0
NotBeforeClaim t none = Unit
NotBeforeClaim t (some at) = at.instant ≤ t.instant

-- A closure's time lies in the offer's window, not before the claim.
abbrev pub InWindow : Assignment → AssignmentClosure → Type 0
InWindow a c =
    NotBeforeClaim c.effective_at a.claimed_at
    × (a.offered_at.instant ≤ c.effective_at.instant)
    × (c.effective_at.instant < a.expires_at.instant)

-- A closure of its kind that fits the assignment: an expiry takes effect at the expiry, a release
-- is by the assignment's worker, and a release or a cancellation is in the window.
abbrev pub FitsKind : Assignment → AssignmentClosureKind → AssignmentClosure → Type 0
FitsKind a expired c = c.effective_at.instant ≡ a.expires_at.instant
FitsKind a released c = (c.worker ≡ some a.worker) × InWindow a c
FitsKind a cancelled c = InWindow a c

abbrev pub Fits : Assignment → AssignmentClosure → Type 0
Fits a c = (c.assignment_id ≡ a.id) × FitsKind a c.kind c

abbrev pub Closed : Assignment → AssignmentClosureKind → Option AssignmentClosure → Type 0
Closed a kind none = ⊥
Closed a kind (some c) = (c.kind ≡ kind) × Fits a c

-- What each state asks of the other fields.
abbrev pub StateFits : Assignment → AssignmentState → Type 0
StateFits a offered = (a.claimed_at ≡ none) × (a.committed_at ≡ none) × (a.closure ≡ none)
StateFits a claimed = (is_some a.claimed_at ≡ true) × (a.committed_at ≡ none) × (a.closure ≡ none)
StateFits a committed =
    (is_some a.claimed_at ≡ true) × (is_some a.committed_at ≡ true) × (a.closure ≡ none)
StateFits a expired_prestart = (a.committed_at ≡ none) × Closed a expired a.closure
StateFits a released_prestart = (a.committed_at ≡ none) × Closed a released a.closure
StateFits a cancelled_prestart = (a.committed_at ≡ none) × Closed a cancelled a.closure

abbrev pub NotBlank? : Option String → Type 0
NotBlank? none = Unit
NotBlank? (some s) = is_blank s ≡ false

pub record IsValid (a : Assignment) : Type 0 where
  pub named : is_blank a.id ≡ false
  pub offered_utc : is_utc a.offered_at ≡ true
  pub expires_utc : is_utc a.expires_at ≡ true
  pub open_window : a.offered_at.instant < a.expires_at.instant
  pub claimed_within : ClaimedWithin a.offered_at a.expires_at a.claimed_at
  pub committed_within : CommittedWithin a.claimed_at a.expires_at a.committed_at
  pub intent_named : NotBlank? a.retry_intent_id
  pub state_fits : StateFits a a.state

same_worker?_iff : (o : Option WorkerRef) (r : WorkerRef) → (same_worker? o r ≡ true) ↔ (o ≡ some r)
same_worker?_iff none r = ground arith
same_worker?_iff (some s) r = ground (arith, ref_eq_iff s r)

closure_check_iff :
    (a : Assignment) (c : AssignmentClosure)
    → (closure_check a c.kind c ≡ ok tt) ↔ FitsKind a c.kind c
unfolding closure_check
closure_check_iff a c = ground (arith, same_worker?_iff c.worker a.worker)

closed_state_check_iff :
    (a : Assignment) (kind : AssignmentClosureKind) (o : Option AssignmentClosure)
    → (closed_state_check a kind o ≡ ok tt) ↔ Closed a kind o
unfolding closed_state_check
closed_state_check_iff a kind none = ground arith
closed_state_check_iff a kind (some c) =
    ground (arith, same_iff c.assignment_id a.id, closure_check_iff a c)

state_check_iff :
    (a : Assignment)
    → CommittedWithin a.claimed_at a.expires_at a.committed_at
    → (state_check a (terminal_kind a.state) ≡ ok tt) ↔ StateFits a a.state
unfolding state_check open_state_check
state_check_iff a w = ground (
  arith,
  closed_state_check_iff a expired a.closure,
  closed_state_check_iff a released a.closure,
  closed_state_check_iff a cancelled a.closure,
)

pub post_init-IsValid : (a v : Assignment) → post_init a ≡ ok v → (v ≡ a) × IsValid a
unfolding post_init
post_init-IsValid a v h = ground (arith, state_check_iff a)

pub post_init_accepts : (a : Assignment) → IsValid a → post_init a ≡ ok a
unfolding post_init
post_init_accepts a h = ground (arith, state_check_iff a)
