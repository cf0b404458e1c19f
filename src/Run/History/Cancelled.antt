-- ===== src/Run/History/Cancelled.antt =====
-- A Run with a cancellation intent.
use qarunner.Prelude.{ap, arith, inl, inr, is_some, length, ok, refl, some, true, ℤ, ◌||◌, ◌∙◌, ◌≡◌}
use qarunner.Values.Canonical.{Hash}
use qarunner.Cancellation.{CancellationIntent}
use qarunner.Run.{Run, is_cancelled, is_running}
use qarunner.Run.Aggregate.{run_post_init}
use qarunner.Run.Change.{
  Change, accept, advance, cancel_reserved, conclude, enter, intend, requeue, reserve, resume,
  start,
}
use qarunner.Run.Refinement.{Accepted}
use qarunner.Run.Refinement.Commands.{expected_of, serve-Accepted}
use qarunner.Run.Invariant.{intent_stands}
use qarunner.Run.History.Extends.{length-with_last}
use qarunner.Run.History.Traces.{Reach, Reach-accepted, here, served}

-- The intent is there, no Attempt was added, and a cancelled Run is cancelled.
pub record Stopping (c : CancellationIntent) (r v : Run) : Type 0 where
  pub intended : v.cancel_intent ≡ some c
  pub none_started : length v.attempts ≡ length r.attempts
  pub same_retries : v.retry_intents ≡ r.retry_intents
  pub stays_cancelled : is_cancelled r.state ≡ true → is_cancelled v.state ≡ true

Change-Stopping :
    (sha256 : Hash) (r v : Run) (c : CancellationIntent)
    → r.cancel_intent ≡ some c
    → (is_running r.state || is_cancelled r.state) ≡ true
    → Change sha256 r v
    → Stopping c r v
Change-Stopping sha256 r v c h s (enter e) = ground (arith, s, e)
Change-Stopping sha256 r v c h s (reserve x e) = ground (arith, s, e)
Change-Stopping sha256 r v c h s (accept xs e) = ground (arith, s, e)
Change-Stopping sha256 r v c h s (resume x xs e) = ground (arith, s, e)
Change-Stopping sha256 r v c h s (start xs i j w spec key p a e m) = ground (arith, s, e)
Change-Stopping sha256 r v c h s (cancel_reserved d xs e n) = ground (arith, n, h)
Change-Stopping sha256 r v c h s (intend d e n) = ground (arith, n, h)
Change-Stopping sha256 r v c h s (requeue old i l t e n) = ground (arith, n, h)
Change-Stopping sha256 r v c h s (advance old a q l e live) = record {
  intended = h;
  none_started = length-with_last r.attempts old a l;
  same_retries = refl;
  stays_cancelled = λ k. k;
}
Change-Stopping sha256 r v c h s (conclude old a q t l e live) = record {
  intended = h;
  none_started = length-with_last r.attempts old a l;
  same_retries = refl;
  stays_cancelled = λ k. refl;
}

then_command :
    (sha256 : Hash) (r u v : Run) (c : CancellationIntent) (expected : ℤ)
    → Stopping c r u
    → run_post_init sha256 u ≡ ok u
    → Accepted sha256 u expected v
    → Stopping c r v
then_command sha256 r u v c expected s h (inl e) = rw (← e) at s
then_command sha256 r u v c expected s h (inr (x, a, n)) =
    let i = intent_stands sha256 u u h (ap is_some s.intended) in
    let t = Change-Stopping sha256 u v c s.intended i x in
    record {
      intended = t.intended;
      none_started = t.none_started ∙ s.none_started;
      same_retries = t.same_retries ∙ s.same_retries;
      stays_cancelled = λ k. t.stays_cancelled (s.stays_cancelled k);
    }

-- Once a Run that its constructor accepts has a cancellation intent, no accepted commands start
-- another Attempt or queue another retry, the intent stays, and a cancelled Run stays cancelled.
pub Reach-Stopping :
    (sha256 : Hash) (r v : Run) (c : CancellationIntent)
    → run_post_init sha256 r ≡ ok r
    → r.cancel_intent ≡ some c
    → Reach sha256 r v
    → Stopping c r v
Reach-Stopping sha256 r v c a h here = record {
  intended = h;
  none_started = refl;
  same_retries = refl;
  stays_cancelled = λ k. k;
}
Reach-Stopping sha256 r v c a h (served {u = u} p q e) =
    then_command sha256 r u v c (expected_of q) (Reach-Stopping sha256 r u c a h p)
      (Reach-accepted sha256 r u a p) (serve-Accepted sha256 u v q e)
