-- ===== src/Run/History/Started.antt =====
-- What a start leaves behind: the Attempt that it created is found again, with its reservation.
use qarunner.Prelude.{
  Bool, List, Option, String, [], ap, arith, false, first_such, if◌then◌else◌, last, last_such,
  none, ok, or_else, refl, same, same_iff, some, sym, true, ℕ, ◌++◌, ◌∙◌, ◌∷◌, ◌≡◌,
}
use qarunner.Values.{Digest, WorkerRef}
use qarunner.Values.Laws.{digest_eq_iff}
use qarunner.Values.Canonical.{Hash}
use qarunner.Assignment.{Assignment}
use qarunner.Attempt.{Attempt, running, start_committed}
use qarunner.Attempt.Commands.{create, new_attempt}
use qarunner.Attempt.Validity.{post_init-IsValid}
use qarunner.Retry.{RetryProvenance}
use qarunner.Run.{Run, running}
use qarunner.Run.Lookups.{assignment_of, current_of}
use qarunner.Run.Pointers.{not_committed}
use qarunner.Run.Committing.{find_commit, not_current, replay_commit, start_commit_digest}

the_one :
    {A : Type 0} (p : A → Bool) (x y : A) (b : Bool)
    → p y ≡ b
    → (if b then some y else none) ≡ some x
    → p x ≡ true
the_one p x y true e h = let same_one : y ≡ x = ground (arith, h) in ap p (sym same_one) ∙ e
the_one p x y false e h = ground (arith, h)

from_either :
    {A : Type 0} (p : A → Bool) (x : A) (o : Option A) (y : A)
    → (o ≡ some x → p x ≡ true)
    → or_else o (if p y then some y else none) ≡ some x
    → p x ≡ true
from_either p x (some z) y later h = later h
from_either p x none y later h = the_one p x y (p y) refl h

last_such-holds :
    {A : Type 0} (p : A → Bool) (xs : List A) (x : A) → last_such p xs ≡ some x → p x ≡ true
unfolding last_such
last_such-holds p [] x h = ground (arith, h)
last_such-holds p (y ∷ ys) x h = from_either p x (last_such p ys) y (last_such-holds p ys x) h

-- The current reservation is the one that the pointer names.
pub current_named :
    (o : Option String) (xs : List Assignment) (s : Assignment)
    → current_of o xs ≡ some s
    → o ≡ some s.id
unfolding current_of
current_named none xs s h = ground (arith, h)
current_named (some id) xs s h =
    let e = last_such-holds (λ t. same t.id id) xs s h in ground (arith, e, same_iff s.id id)

-- What a start has created.
pub created_fields :
    (sha256 : Hash) (id run_id assignment_id key : String) (n fence : ℕ) (w : WorkerRef)
    (spec : Digest) (p : Option RetryProvenance) (a : Attempt)
    → create sha256 id run_id n fence assignment_id w spec key p ≡ ok a
    → (a.assignment_id ≡ assignment_id)
      × (a.worker ≡ w)
      × (a.spec_digest ≡ spec)
      × (a.start_commit_key ≡ key)
      × (a.fence ≡ fence)
      × (a.state ≡ start_committed)
unfolding create
created_fields sha256 id run_id assignment_id key n fence w spec p a h =
    let (e, v) =
      post_init-IsValid sha256 (new_attempt id run_id n fence assignment_id w spec key p) a h in
    (
      ap (λ x. x.assignment_id) e,
      ap (λ x. x.worker) e,
      ap (λ x. x.spec_digest) e,
      ap (λ x. x.start_commit_key) e,
      ap (λ x. x.fence) e,
      ap (λ x. x.state) e,
    )

pub find_commit-snoc :
    (key : String) (xs : List Attempt) (a : Attempt)
    → find_commit key xs ≡ none
    → a.start_commit_key ≡ key
    → find_commit key (xs ++ a ∷ []) ≡ some a
unfolding find_commit first_such
find_commit-snoc key [] a h e = ground (arith, same_iff a.start_commit_key key, e)
find_commit-snoc key (x ∷ xs) a h e = ground (arith, h, find_commit-snoc key xs a, e)

pub last-snoc : (xs : List Attempt) (a : Attempt) → last (xs ++ a ∷ []) ≡ some a
last-snoc [] a = refl
last-snoc (x ∷ []) a = refl
last-snoc (x ∷ y ∷ ys) a = last-snoc (y ∷ ys) a

pub replay_commit-passes :
    (sha256 : Hash) (v : Run) (key : String) (received : Digest) (a : Attempt)
    → start_commit_digest sha256 a.assignment_id a.worker a.spec_digest ≡ ok received
    → a.fence ≡ v.current_fence
    → v.state ≡ running
    → not_current (assignment_of v) a ≡ false
    → last v.attempts ≡ some a
    → a.state ≡ start_committed
    → replay_commit sha256 v key received a
      ≡ ok (record { run = v; attempt = a; fence = a.fence; replayed = true })
unfolding replay_commit
replay_commit-passes sha256 v key received a d f s c l t =
    ground (arith, d, f, s, c, l, t, same_iff a.id a.id, digest_eq_iff received received)

pub current_stays :
    (o : Option Assignment) (p : Option String) (id : String) (a : Attempt)
    → not_committed o ≡ false
    → ((s : Assignment) → o ≡ some s → p ≡ some s.id)
    → p ≡ some id
    → a.assignment_id ≡ id
    → not_current o a ≡ false
current_stays none p id a c n e i = ground (arith, c)
current_stays (some s) p id a c n e i =
    let m = n s refl in
    let same_id : s.id ≡ a.assignment_id = ground (arith, m, e, i) in
    ground (arith, c, same_iff s.id a.assignment_id)
