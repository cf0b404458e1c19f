-- ===== src/Attempt/Events.antt =====
-- The event log of an Attempt: who may write it, and what is written.
use qarunner.Prelude.{
  List, Option, [], arith, false, length, none, ok, pos, some, suc, ℕ, ℤ, ◌++◌, ◌+◌, ◌↔◌, ◌∷◌, ◌≡◌,
}
use qarunner.Values.{AttemptAuthority, AttemptEvent, WorkerRef}
use qarunner.Values.Canonical.{Hash}
use qarunner.Values.Laws.{event_eq_iff, ref_eq_iff}
use qarunner.Attempt.{Attempt, is_terminal}
use qarunner.Attempt.Validity.{IsValid, post_init-IsValid, post_init_accepts}
use qarunner.Attempt.Commands.{
  ensure_authority, expected_next, find_event, record_event, record_found, with_event,
}

-- The Attempt and the caller are both those that the control plane knows as current.
pub record Authorised (a : Attempt) (authority : AttemptAuthority) (worker : WorkerRef) (fence : ℕ)
    : Type 0 where
  pub own_fence : a.fence ≡ authority.current_fence
  pub caller_fence : fence ≡ authority.current_fence
  pub own_worker : a.worker ≡ authority.current_worker
  pub caller_worker : worker ≡ authority.current_worker

pub ensure_authority_iff :
    (a : Attempt) (authority : AttemptAuthority) (worker : WorkerRef) (fence : ℕ)
    → (ensure_authority a authority worker fence ≡ ok tt) ↔ Authorised a authority worker fence
unfolding ensure_authority
ensure_authority_iff a authority worker fence = ground (
  arith,
  ref_eq_iff a.worker authority.current_worker,
  ref_eq_iff worker authority.current_worker,
)

-- What recording an event does, by the stored event that shares its id or its number.
abbrev pub Recorded : Attempt → Attempt → AttemptEvent → ℤ → Option AttemptEvent → Type 0
Recorded a v e expected (some existing) = (existing ≡ e) × (v ≡ a)
Recorded a v e expected none =
    (expected ≡ pos a.version)
    × (is_terminal a.state ≡ false)
    × (e.event_seq ≡ expected_next a.events)
    × (v ≡ with_event a e)

pub with_event-IsValid :
    (sha256 : Hash) (a : Attempt) (e : AttemptEvent)
    → IsValid sha256 a
    → IsValid sha256 (with_event a e)
with_event-IsValid sha256 a e valid = ground arith

record_found_iff :
    (sha256 : Hash) (a v : Attempt) (o : Option AttemptEvent) (e : AttemptEvent) (expected : ℤ)
    → IsValid sha256 a
    → (record_found sha256 a o e expected ≡ ok v) ↔ Recorded a v e expected o
unfolding record_found
record_found_iff sha256 a v (some existing) e expected valid =
    ground (arith, event_eq_iff existing e)
record_found_iff sha256 a v none e expected valid = ground (
  arith,
  post_init-IsValid sha256 (with_event a e) v,
  post_init_accepts sha256 (with_event a e),
  with_event-IsValid sha256 a e valid,
)

-- A valid Attempt records an event exactly when it and the caller carry the current fence and
-- worker, and either the very event is stored, and nothing changes, or no stored event shares its
-- id or number, the version is the expected one, the Attempt has not ended and the number is the
-- next one, and the event is appended.
pub record_event_iff :
    (sha256 : Hash) (a v : Attempt) (e : AttemptEvent) (authority : AttemptAuthority)
    (worker : WorkerRef) (fence : ℕ) (expected : ℤ)
    → IsValid sha256 a
    → (record_event sha256 a e authority worker fence expected ≡ ok v)
      ↔ (Authorised a authority worker fence × Recorded a v e expected (find_event e a.events))
record_event_iff sha256 a v e authority worker fence expected valid =
    unfold record_event in
    ground (
      arith,
      ensure_authority_iff a authority worker fence,
      record_found_iff sha256 a v (find_event e a.events) e expected valid,
    )

-- Numbers that follow one another from n on.
abbrev pub NumberedFrom : ℕ → List AttemptEvent → Type 0
NumberedFrom n [] = Unit
NumberedFrom n (e ∷ es) = (e.event_seq ≡ n) × NumberedFrom (suc n) es

pub NumberedFrom-next :
    (n : ℕ) (e : AttemptEvent) (es : List AttemptEvent)
    → NumberedFrom n (e ∷ es)
    → expected_next (e ∷ es) ≡ n + length (e ∷ es)
NumberedFrom-next n e [] h = omega arith
NumberedFrom-next n e (f ∷ es) h = omega (arith, NumberedFrom-next (suc n) f es h.1)

pub expected_next-length :
    (es : List AttemptEvent) → NumberedFrom 1 es → expected_next es ≡ 1 + length es
expected_next-length [] h = omega arith
expected_next-length (e ∷ es) h = NumberedFrom-next 1 e es h

pub NumberedFrom-snoc :
    (n : ℕ) (es : List AttemptEvent) (e : AttemptEvent)
    → NumberedFrom n es
    → e.event_seq ≡ n + length es
    → NumberedFrom n (es ++ e ∷ [])
NumberedFrom-snoc n [] e h k = (omega arith, tt)
NumberedFrom-snoc n (f ∷ es) e h k = (h.0, NumberedFrom-snoc (suc n) es e h.1 (omega arith))
