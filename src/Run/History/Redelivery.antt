-- ===== src/Run/History/Redelivery.antt =====
-- The commands of a Run that are delivered twice.
use qarunner.Prelude.{
  >>=-eq-ok, Bool, Option, String, ap, arith, false, none, not, ok, raise_if, refl, same_iff, some,
  true, ℤ, ◌&&◌, ◌>>=◌, ◌||◌, ◌∙◌, ◌≡◌,
}
use qarunner.Values.{Command, DateTime, is_utc, require_utc, utc}
use qarunner.Values.Laws.{digest_eq_iff}
use qarunner.Values.Canonical.{Hash}
use qarunner.Assignment.{Assignment, close_prestart, closure_post_init}
use qarunner.Cancellation.{
  CancellationIntent, CancellationSource, cancel_intent_post_init, cancel_request_digest,
}
use qarunner.Run.{Run, is_assigned, is_queued, is_retry_queued, is_running}
use qarunner.Run.Lookups.{assignment_of, pending_retry_intent}
use qarunner.Run.Current.{expect_version, replace_current_assignment}
use qarunner.Run.Cancelling.{before_closure, before_intent, before_time, latest_closure}
use qarunner.Run.Closing.{
  cancel_by_state, cancel_closure, cancel_found, cancel_new, committed_at?, intended_run,
  replay_cancel, request_cancel, reserved_cancelled, unreserved_run,
}
use qarunner.Run.Refinement.{run_post_init-same}

replay_cancel-same :
    (sha256 : Hash) (r v : Run) (s c : CancellationIntent)
    → replay_cancel sha256 r s c ≡ ok v
    → v ≡ r
unfolding replay_cancel
replay_cancel-same sha256 r v s c h = ground (arith, h)

replay_cancel_self :
    (sha256 : Hash) (r : Run) (c : CancellationIntent) → replay_cancel sha256 r c c ≡ ok r
unfolding replay_cancel
replay_cancel_self sha256 r c = ground (
  arith,
  same_iff c.idempotency_key c.idempotency_key,
  digest_eq_iff (cancel_request_digest sha256 c) (cancel_request_digest sha256 c),
)

-- The same request, observed at another time.
abbrev at_time : CancellationIntent → DateTime → CancellationIntent
at_time c t = record c { recorded_at = t }

-- The time is no part of what a replay is known by.
replay_cancel_later :
    (sha256 : Hash) (r v : Run) (s c : CancellationIntent) (t : DateTime)
    → replay_cancel sha256 r s c ≡ ok v
    → replay_cancel sha256 r s (at_time c t) ≡ ok v
unfolding replay_cancel cancel_request_digest
replay_cancel_later sha256 r v s c t h = h

intent_later :
    (c d : CancellationIntent) (t : DateTime)
    → cancel_intent_post_init c ≡ ok d
    → is_utc t ≡ true
    → (d ≡ c) × (cancel_intent_post_init (at_time c t) ≡ ok (at_time c t))
unfolding cancel_intent_post_init require_utc
intent_later c d t h utc = ground arith

-- A new intent is stored.
abbrev Stores : CancellationIntent → Run → Run → Type 0
Stores c r v = (v.id ≡ r.id) × (v.cancel_intent ≡ some c)

reserved_cancelled-Stores :
    (sha256 : Hash) (r v : Run) (c : CancellationIntent) (o : Option Assignment)
    → reserved_cancelled sha256 r c o ≡ ok v
    → Stores c r v
unfolding reserved_cancelled
reserved_cancelled-Stores sha256 r v c none h = ground (arith, h)
reserved_cancelled-Stores sha256 r v c (some t) h =
    let (k, e1, h1) = >>=-eq-ok (closure_post_init (cancel_closure sha256 c t)) _ h in
    let (t', e2, h2) = >>=-eq-ok (close_prestart t k) _ h1 in
    let (xs, e3, h3) = >>=-eq-ok (replace_current_assignment r t') _ h2 in
    let e = run_post_init-same sha256 (unreserved_run r c xs) v h3 in
    (ap (λ x. x.id) e, ap (λ x. x.cancel_intent) e)

cancel_by_state-Stores :
    (sha256 : Hash) (r v : Run) (c : CancellationIntent) (b : Bool)
    → cancel_by_state sha256 r c b ≡ ok v
    → Stores c r v
unfolding cancel_by_state
cancel_by_state-Stores sha256 r v c true h =
    reserved_cancelled-Stores sha256 r v c (assignment_of r) h
cancel_by_state-Stores sha256 r v c false h =
    let e = run_post_init-same sha256 (intended_run r c) v h in
    (ap (λ x. x.id) e, ap (λ x. x.cancel_intent) e)

cancel_new-Stores :
    (sha256 : Hash) (r v : Run) (c : CancellationIntent) (expected : ℤ)
    → cancel_new sha256 r c expected ≡ ok v
    → Stores c r v
unfolding cancel_new
cancel_new-Stores sha256 r v c expected h =
    let (u, e1, h1) =
      >>=-eq-ok
        (raise_if
          (not (
            is_queued r.state
            || is_assigned r.state
            || is_running r.state
            || is_retry_queued r.state))
          _)
        _ h in
    let (u', e2, h2) =
      >>=-eq-ok
        (raise_if
          (is_running r.state && before_time c.recorded_at (committed_at? (assignment_of r))) _)
        _ h1 in
    let (u'', e3, h3) =
      >>=-eq-ok (raise_if (before_closure c.recorded_at (latest_closure r.assignments)) _) _ h2 in
    let (u3, e4, h4) =
      >>=-eq-ok (raise_if (before_intent c.recorded_at (pending_retry_intent r)) _) _ h3 in
    let (u4, e5, h5) = >>=-eq-ok (expect_version r expected) _ h4 in
    cancel_by_state-Stores sha256 r v c (is_assigned r.state) h5

stored-again :
    (sha256 : Hash) (v : Run) (s c : CancellationIntent) (again : ℤ) (o : Option CancellationIntent)
    → o ≡ some s
    → replay_cancel sha256 v s c ≡ ok v
    → cancel_found sha256 v c again o ≡ ok v
unfolding cancel_found
stored-again sha256 v s c again none e h = ground (arith, e)
stored-again sha256 v s c again (some t) e h =
    let same_intent : t ≡ s = ground (arith, e) in rw same_intent h

found-again :
    (sha256 : Hash) (r v : Run) (c : CancellationIntent) (t : DateTime) (expected again : ℤ)
    (o : Option CancellationIntent)
    → r.cancel_intent ≡ o
    → cancel_found sha256 r c expected o ≡ ok v
    → (v.id ≡ r.id) × (cancel_found sha256 v (at_time c t) again v.cancel_intent ≡ ok v)
unfolding cancel_found
found-again sha256 r v c t expected again (some s) i h =
    let e = replay_cancel-same sha256 r v s c h in
    (
      ap (λ x. x.id) e,
      stored-again sha256 v s (at_time c t) again v.cancel_intent (ap (λ x. x.cancel_intent) e ∙ i)
          (replay_cancel_later sha256 v v s c t (rw (← e) at h)),
    )
found-again sha256 r v c t expected again none i h =
    let (id, stored) = cancel_new-Stores sha256 r v c expected h in
    (
      id,
      stored-again sha256 v c (at_time c t) again v.cancel_intent stored
          (replay_cancel_later sha256 v v c c t (replay_cancel_self sha256 v c)),
    )

then_found :
    (m : Command CancellationIntent) (c : CancellationIntent) (v : Run)
    (f : CancellationIntent → Command Run)
    → m ≡ ok c
    → f c ≡ ok v
    → (m >>= f) ≡ ok v
then_found m c v f e h = rw e h

-- A request to cancel that was accepted once is accepted when it is delivered again to the Run that
-- it gave, observed at any time in UTC, the first one or another, and at any expected version, and
-- the repetition changes nothing: the intent of the first delivery stays, with its time.
pub request_cancel-again :
    (sha256 : Hash) (r v : Run) (key : String) (source : CancellationSource) (actor reason : String)
    (at later : DateTime) (expected again : ℤ)
    → request_cancel sha256 r key source actor reason at expected ≡ ok v
    → is_utc later ≡ true
    → request_cancel sha256 v key source actor reason later again ≡ ok v
unfolding request_cancel
request_cancel-again sha256 r v key source actor reason at later expected again h utc =
    let asked : String → CancellationIntent = λ run. record {
      run_id = run;
      idempotency_key = key;
      source = source;
      actor_id = actor;
      reason = reason;
      recorded_at = at;
    } in
    let (c, e, h1) =
      >>=-eq-ok (cancel_intent_post_init (asked r.id))
        (λ c. cancel_found sha256 r c expected r.cancel_intent) h in
    let (same_intent, accepted) = intent_later (asked r.id) c later e utc in
    let (id, f) =
      found-again sha256 r v (asked r.id) later expected again r.cancel_intent refl
        (rw same_intent at h1) in
    then_found (cancel_intent_post_init (at_time (asked v.id) later)) (at_time (asked r.id) later) v
      (λ c. cancel_found sha256 v c again v.cancel_intent)
      (ap (λ i. cancel_intent_post_init (at_time (asked i) later)) id ∙ accepted) f
