-- ===== src/Run/Refinement.antt =====
-- What it is to accept a command of a Run: it makes one change of the step relation, or none. The
-- children show it of each command.
pub mod Reserving
pub mod Starting
pub mod Ending
pub mod Executing
pub mod Reporting
pub mod Retrying
pub mod Commands
use qarunner.Prelude.{arith, inr, ok, pos, ℤ, ◌≡◌, ◌⊎◌}
use qarunner.Values.Canonical.{Hash}
use qarunner.Run.{Run}
use qarunner.Run.Aggregate.{run_post_init}
use qarunner.Values.Laws.{ensure_expected_version_iff}
use qarunner.Run.Current.{expect_version}
use qarunner.Run.Change.{Change}

-- An accepted command left the Run as it was, or its caller knew the Run's version and it made a
-- change whose result the constructor accepts.
abbrev pub Accepted : Hash → Run → ℤ → Run → Type 0
Accepted sha256 r expected v =
    (v ≡ r) ⊎ Change sha256 r v × (run_post_init sha256 v ≡ ok v) × (expected ≡ pos r.version)

pub run_post_init-same : (sha256 : Hash) (r v : Run) → run_post_init sha256 r ≡ ok v → v ≡ r
unfolding run_post_init
run_post_init-same sha256 r v h = ground (arith, h)

-- The version check passes at the Run's own version only.
pub expect_version-same :
    (r : Run) (expected : ℤ) (u : Unit {0})
    → expect_version r expected ≡ ok u
    → expected ≡ pos r.version
unfolding expect_version
expect_version-same r expected u h = (ensure_expected_version_iff "run" r.id r.version expected).0 h

-- A result of the constructor is a change, once its argument is.
pub made :
    (sha256 : Hash) (r w v : Run) (expected : ℤ)
    → expected ≡ pos r.version
    → Change sha256 r w
    → run_post_init sha256 w ≡ ok v
    → Accepted sha256 r expected v
made sha256 r w v expected n c h =
    let e = run_post_init-same sha256 w v h in inr (rw (← e) at c, rw (← e) at h, n)

pub Accepted-same :
    (sha256 : Hash) (r v w : Run) (expected : ℤ)
    → v ≡ w
    → Accepted sha256 r expected w
    → Accepted sha256 r expected v
Accepted-same sha256 r v w expected e h = rw (← e) at h
