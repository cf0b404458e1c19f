-- ===== src/Worker/Validity.antt =====
-- What `__post_init__` accepts.
use qarunner.Prelude.{Option, arith, false, is_blank, none, ok, some, true, ◌≡◌, ◌≢◌, ◌≤◌}
use qarunner.Values.{DateTime, is_utc}
use qarunner.Worker.{WorkerGeneration, WorkerState, post_init, retired}

abbrev pub SeenAfter : DateTime → Option DateTime → Type 0
SeenAfter start none = Unit
SeenAfter start (some seen) = (is_utc seen ≡ true) × (start.instant ≤ seen.instant)

abbrev pub RetiredAt : DateTime → WorkerState → Option DateTime → Type 0
RetiredAt changed state none = state ≢ retired
RetiredAt changed state (some at) =
    (state ≡ retired) × (is_utc at ≡ true) × (at.instant ≡ changed.instant)

pub record IsValid (w : WorkerGeneration) : Type 0 where
  pub host : is_blank w.host_id ≡ false
  pub pool : is_blank w.pool_id ≡ false
  pub cert : is_blank w.cert_serial ≡ false
  pub agent : is_blank w.agent_version ≡ false
  pub registered_utc : is_utc w.registered_at ≡ true
  pub changed_utc : is_utc w.state_changed_at ≡ true
  pub changed_after : w.registered_at.instant ≤ w.state_changed_at.instant
  pub seen_after : SeenAfter w.registered_at w.last_seen_at
  pub retired_marked : RetiredAt w.state_changed_at w.state w.retired_at

pub post_init-IsValid : (w v : WorkerGeneration) → post_init w ≡ ok v → (v ≡ w) × IsValid w
unfolding post_init
post_init-IsValid w v h = ground arith

pub post_init_accepts : (w : WorkerGeneration) → IsValid w → post_init w ≡ ok w
unfolding post_init
post_init_accepts w h = ground arith
