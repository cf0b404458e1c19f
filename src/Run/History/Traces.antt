-- ===== src/Run/History/Traces.antt =====
-- Any accepted commands, one after the other.
use qarunner.Prelude.{List, String, [], ap, arith, inl, inr, ok, refl, some, ℤ, ◌∙◌, ◌∷◌, ◌≡◌, ◌≤◌}
use qarunner.Values.Canonical.{Hash}
use qarunner.Attempt.{Attempt}
use qarunner.Cancellation.{CancellationIntent}
use qarunner.Run.{Run}
use qarunner.Run.Aggregate.{run_post_init}
use qarunner.Run.Scheduling.{create_run, planned_run}
use qarunner.Run.Refinement.{Accepted, run_post_init-same}
use qarunner.Run.Refinement.Commands.{RunRequest, expected_of, serve, serve-Accepted}
use qarunner.Run.Invariant.{RunIsValid, run_post_init-RunIsValid}
use qarunner.Run.History.Extends.{AllValid, Extends, Extends-refl, Extends-trans}
use qarunner.Run.History.Steps.{Change-RunStepped, RunStepped}

pub data Reach (sha256 : Hash) (r : Run) : Run → Type 0 where
  here : Reach sha256 r r
  served :
      {u v : Run} → Reach sha256 r u → (q : RunRequest) → serve sha256 u q ≡ ok v → Reach sha256 r v

-- What stays of a Run: the Attempts extend those before, and an intent is never replaced.
pub record Lasting (sha256 : Hash) (r v : Run) : Type 0 where
  pub same_run : v.id ≡ r.id
  pub newer : r.version ≤ v.version
  pub fence_grows : r.current_fence ≤ v.current_fence
  pub valid : AllValid sha256 v.attempts
  pub extends : Extends r.attempts v.attempts
  pub intent_stays : (c : CancellationIntent) → r.cancel_intent ≡ some c → v.cancel_intent ≡ some c

pub Lasting-refl : (sha256 : Hash) (r : Run) → AllValid sha256 r.attempts → Lasting sha256 r r
Lasting-refl sha256 r valid = record {
  same_run = refl;
  newer = omega arith;
  fence_grows = omega arith;
  valid = valid;
  extends = Extends-refl r.attempts;
  intent_stays = λ c h. h;
}

after_change :
    (sha256 : Hash) (r u v : Run) → Lasting sha256 r u → RunStepped sha256 u v → Lasting sha256 r v
after_change sha256 r u v l s = record {
  same_run = s.same_run ∙ l.same_run;
  newer = omega (arith, l.newer, s.newer);
  fence_grows = omega (arith, l.fence_grows, s.fence_grows);
  valid = s.valid;
  extends = Extends-trans l.extends s.extends;
  intent_stays = λ c h. s.intent_stays c (l.intent_stays c h);
}

after_command :
    (sha256 : Hash) (r u v : Run) (expected : ℤ)
    → Lasting sha256 r u
    → Accepted sha256 u expected v
    → Lasting sha256 r v
after_command sha256 r u v expected l (inl e) = rw (← e) at l
after_command sha256 r u v expected l (inr (c, a, n)) =
    after_change sha256 r u v l (Change-RunStepped sha256 u v l.valid c)

-- If each Attempt of a Run passes the checks of its constructor, then after any accepted commands
-- the Attempts extend those before: none is lost or moved, each keeps its id, fence, Worker and
-- start key, and one that has ended its state, log, evidence and observation. Version and fence
-- never go back, each Attempt passes its constructor's checks, and a cancellation intent stays.
pub Reach-Lasting :
    (sha256 : Hash) (r v : Run) → AllValid sha256 r.attempts → Reach sha256 r v → Lasting sha256 r v
Reach-Lasting sha256 r v valid here = Lasting-refl sha256 r valid
Reach-Lasting sha256 r v valid (served {u = u} p q h) =
    after_command sha256 r u v (expected_of q) (Reach-Lasting sha256 r u valid p)
      (serve-Accepted sha256 u v q h)

Accepted-passes :
    (sha256 : Hash) (u v : Run) (expected : ℤ)
    → run_post_init sha256 u ≡ ok u
    → Accepted sha256 u expected v
    → run_post_init sha256 v ≡ ok v
Accepted-passes sha256 u v expected h (inl e) = rw (← e) at h
Accepted-passes sha256 u v expected h (inr (c, a, n)) = a

pub Reach-accepted :
    (sha256 : Hash) (r v : Run)
    → run_post_init sha256 r ≡ ok r
    → Reach sha256 r v
    → run_post_init sha256 v ≡ ok v
Reach-accepted sha256 r v h here = h
Reach-accepted sha256 r v h (served {u = u} p q e) =
    Accepted-passes sha256 u v (expected_of q) (Reach-accepted sha256 r u h p)
      (serve-Accepted sha256 u v q e)

none-AllValid : (sha256 : Hash) (xs : List Attempt) → xs ≡ [] → AllValid sha256 xs
none-AllValid sha256 [] h = tt
none-AllValid sha256 (a ∷ rest) h = ground (arith, h)

-- Whatever commands are accepted by a new Run, it passes the checks of the constructor, its
-- Attempts are those of the Run and their numbers and fences count up from one, the current fence
-- is their number, and each Attempt passes the checks of its own constructor.
pub create_run-Reach :
    (sha256 : Hash) (id : String) (r v : Run)
    → create_run sha256 id ≡ ok r
    → Reach sha256 r v
    → (run_post_init sha256 v ≡ ok v) × RunIsValid v × AllValid sha256 v.attempts
unfolding create_run
create_run-Reach sha256 id r v h p =
    let e = run_post_init-same sha256 (planned_run id) r h in
    let first : run_post_init sha256 r ≡ ok r = rw (← e) at h in
    let a = Reach-accepted sha256 r v first p in
    let valid = none-AllValid sha256 r.attempts (ap (λ x. x.attempts) e) in
    (a, run_post_init-RunIsValid sha256 v v a, (Reach-Lasting sha256 r v valid p).valid)
