-- ===== src/Run/History/Steps.antt =====
-- What one change of a Run keeps.
use qarunner.Prelude.{
  Option, String, arith, last, length, none, ok, refl, some, with_last, ℕ, ◌+◌, ◌≡◌, ◌≤◌,
}
use qarunner.Values.{Digest, WorkerRef}
use qarunner.Retry.{RetryProvenance}
use qarunner.Values.Canonical.{Hash}
use qarunner.Attempt.{Attempt}
use qarunner.Attempt.History.Traces.{Stepped, apply-Stepped}
use qarunner.Cancellation.{CancellationIntent}
use qarunner.Attempt.Commands.{create, new_attempt}
use qarunner.Attempt.Validity.{IsValid, post_init-IsValid}
use qarunner.Run.{Run}
use qarunner.Run.Change.{
  Change, accept, advance, cancel_reserved, conclude, enter, intend, requeue, reserve, resume,
  start,
}
use qarunner.Run.History.Extends.{
  AllValid, AllValid-last, AllValid-snoc, AllValid-with_last, Extends, Extends-refl, Extends-snoc,
  Extends-with_last, Stepped-Keeps,
}

pub record RunStepped (sha256 : Hash) (r v : Run) : Type 0 where
  pub same_run : v.id ≡ r.id
  pub newer : v.version ≡ r.version + 1
  pub fence_grows : r.current_fence ≤ v.current_fence
  pub valid : AllValid sha256 v.attempts
  pub extends : Extends r.attempts v.attempts
  pub intent_stays : (c : CancellationIntent) → r.cancel_intent ≡ some c → v.cancel_intent ≡ some c

advanced :
    (sha256 : Hash) (r : Run) (old a : Attempt)
    → AllValid sha256 r.attempts
    → last r.attempts ≡ some old
    → Stepped sha256 old a
    → AllValid sha256 (with_last r.attempts a) × Extends r.attempts (with_last r.attempts a)
advanced sha256 r old a valid l s = (
  AllValid-with_last sha256 r.attempts a valid s.valid,
  Extends-with_last r.attempts old a l (Stepped-Keeps sha256 old a s),
)

-- A change of anything but the Attempts, the fence and a recorded intent.
same_attempts :
    (sha256 : Hash) (r v : Run)
    → AllValid sha256 r.attempts
    → v.id ≡ r.id
    → v.version ≡ r.version + 1
    → v.current_fence ≡ r.current_fence
    → v.attempts ≡ r.attempts
    → ((c : CancellationIntent) → r.cancel_intent ≡ some c → v.cancel_intent ≡ some c)
    → RunStepped sha256 r v
same_attempts sha256 r v valid i n f e c = record {
  same_run = i;
  newer = n;
  fence_grows = omega (arith, f);
  valid = rw (← e) at valid;
  extends = rw e (Extends-refl r.attempts);
  intent_stays = c;
}

new_intent :
    (r : Run) (c d : CancellationIntent)
    → r.cancel_intent ≡ none
    → r.cancel_intent ≡ some d
    → some c ≡ some d
new_intent r c d n h = ground (arith, n, h)

create-IsValid :
    (sha256 : Hash) (id run_id assignment_id key : String) (n fence : ℕ) (w : WorkerRef)
    (spec : Digest) (p : Option RetryProvenance) (a : Attempt)
    → create sha256 id run_id n fence assignment_id w spec key p ≡ ok a
    → IsValid sha256 a
unfolding create
create-IsValid sha256 id run_id assignment_id key n fence w spec p a h =
    let (e, v) =
      post_init-IsValid sha256 (new_attempt id run_id n fence assignment_id w spec key p) a h in
    rw (← e) at v

pub Change-RunStepped :
    (sha256 : Hash) (r v : Run)
    → AllValid sha256 r.attempts
    → Change sha256 r v
    → RunStepped sha256 r v
Change-RunStepped sha256 r v valid (enter e) =
    same_attempts sha256 r v valid refl refl refl refl (λ d h. h)
Change-RunStepped sha256 r v valid (reserve s e) =
    same_attempts sha256 r v valid refl refl refl refl (λ d h. h)
Change-RunStepped sha256 r v valid (accept xs e) =
    same_attempts sha256 r v valid refl refl refl refl (λ d h. h)
Change-RunStepped sha256 r v valid (resume s xs e) =
    same_attempts sha256 r v valid refl refl refl refl (λ d h. h)
Change-RunStepped sha256 r v valid (cancel_reserved c xs e n) =
    same_attempts sha256 r v valid refl refl refl refl (λ d h. new_intent r c d n h)
Change-RunStepped sha256 r v valid (intend c e n) =
    same_attempts sha256 r v valid refl refl refl refl (λ d h. new_intent r c d n h)
Change-RunStepped sha256 r v valid (requeue old i l t e n) =
    same_attempts sha256 r v valid refl refl refl refl (λ d h. h)
Change-RunStepped sha256 r v valid (start xs id s w spec key p a e c) = record {
  same_run = refl;
  newer = refl;
  fence_grows = omega arith;
  valid = AllValid-snoc sha256 r.attempts a valid (
      create-IsValid sha256 id r.id s key (length r.attempts + 1) (r.current_fence + 1) w spec p a
        c);
  extends = Extends-snoc r.attempts a;
  intent_stays = λ d h. h;
}
Change-RunStepped sha256 r v valid (advance old a q l e live) =
    let s = apply-Stepped sha256 old a q (AllValid-last sha256 r.attempts old l valid) e in
    let (w, x) = advanced sha256 r old a valid l s in
    record {
      same_run = refl;
      newer = refl;
      fence_grows = omega arith;
      valid = w;
      extends = x;
      intent_stays = λ d h. h;
    }
Change-RunStepped sha256 r v valid (conclude old a q stop l e live) =
    let s = apply-Stepped sha256 old a q (AllValid-last sha256 r.attempts old l valid) e in
    let (w, x) = advanced sha256 r old a valid l s in
    record {
      same_run = refl;
      newer = refl;
      fence_grows = omega arith;
      valid = w;
      extends = x;
      intent_stays = λ d h. h;
    }
