-- ===== src/Attempt/Commands.antt =====
-- The commands on an Attempt but its finalization.
use qarunner.Prelude.{
  Bool, List, Option, String, [], false, holds, if◌then◌else◌, none, not, ok, raise_if, raised,
  same, some, true, ℕ, ℤ, ◌++◌, ◌+◌, ◌==◌, ◌>>◌, ◌||◌, ◌∷◌,
}
use qarunner.Values.{
  AttemptAuthority, AttemptEvent, Command, Digest, DomainError, WorkerRef, adjudication_conflict,
  ensure_expected_version, event_conflict, event_eq, event_gap, event_rejected, invalid_transition,
  observation_conflict, ref_eq, stale_fence, stale_generation,
}
use qarunner.Values.Canonical.{Hash}
use qarunner.Unknown.{
  UnknownAdjudication, UnknownAdjudication-discrete, UnknownObservation,
  UnknownObservation-discrete,
}
use qarunner.Retry.{RetryProvenance}
use qarunner.Attempt.{
  Attempt, AttemptState, attempt_unknown, is_terminal, post_init, provisioning, running,
  start_committed, state_value, uploading,
}

-- `_ALLOWED_TRANSITIONS[state]` holds the target.
abbrev pub allowed_transitions : AttemptState → AttemptState → Bool
allowed_transitions start_committed provisioning = true
allowed_transitions provisioning running = true
allowed_transitions provisioning uploading = true
allowed_transitions running uploading = true
allowed_transitions _ _ = false

abbrev pub new_attempt :
    (attempt_id run_id : String) (attempt_no fence : ℕ) (assignment_id : String)
    (worker : WorkerRef) (spec_digest : Digest) (start_commit_key : String)
    (retry_provenance : Option RetryProvenance)
    → Attempt
new_attempt attempt_id run_id attempt_no fence assignment_id worker spec key provenance = record {
  id = attempt_id;
  run_id = run_id;
  attempt_no = attempt_no;
  fence = fence;
  assignment_id = assignment_id;
  worker = worker;
  spec_digest = spec;
  start_commit_key = key;
  events = [];
  evidence = none;
  unknown_observation = none;
  adjudications = [];
  state = start_committed;
  version = 0;
  retry_provenance = provenance;
}

unfoldable pub create :
    Hash
    → (attempt_id run_id : String) (attempt_no fence : ℕ) (assignment_id : String)
      (worker : WorkerRef) (spec_digest : Digest) (start_commit_key : String)
      (retry_provenance : Option RetryProvenance)
    → Command Attempt
unfolding post_init
create sha256 attempt_id run_id attempt_no fence assignment_id worker spec key provenance =
    post_init sha256
      (new_attempt attempt_id run_id attempt_no fence assignment_id worker spec key provenance)

-- `_ensure_authority`.
unfoldable pub ensure_authority : Attempt → AttemptAuthority → WorkerRef → ℕ → Command (Unit {0})
ensure_authority a authority worker fence = do
  raise_if (not (a.fence == authority.current_fence))
      (stale_fence a.id authority.current_fence a.fence)
  raise_if (not (fence == authority.current_fence)) (stale_fence a.id authority.current_fence fence)
  raise_if (not (ref_eq a.worker authority.current_worker))
      (stale_generation a.id authority.current_worker a.worker)
  raise_if (not (ref_eq worker authority.current_worker))
      (stale_generation a.id authority.current_worker worker)

abbrev pub refused : Attempt → AttemptState → ℤ → DomainError
refused a target expected =
    invalid_transition "attempt" a.id (state_value a.state) (state_value target) a.version expected

unfoldable pub transition : Hash → Attempt → AttemptState → ℤ → Command Attempt
unfolding ensure_expected_version
transition sha256 a target expected = do
  ensure_expected_version "attempt" a.id a.version expected
  raise_if (not (allowed_transitions a.state target)) (refused a target expected)
  post_init sha256 (record a { state = target; version = a.version + 1 })

abbrev pub as_unknown : Attempt → UnknownObservation → Attempt
as_unknown a o = record a {
  state = attempt_unknown;
  unknown_observation = some o;
  version = a.version + 1;
}

-- `mark_unknown` once the stored observation, if any, is not of the same id.
unfoldable pub enter_unknown : Hash → Attempt → UnknownObservation → ℤ → Command Attempt
unfolding ensure_expected_version
enter_unknown sha256 a o expected = do
  ensure_expected_version "attempt" a.id a.version expected
  raise_if (is_terminal a.state) (refused a attempt_unknown expected)
  post_init sha256 (as_unknown a o)

unfoldable pub mark_stored :
    Hash → Attempt → Option UnknownObservation → UnknownObservation → ℤ → Command Attempt
unfolding enter_unknown
mark_stored sha256 a none o expected = enter_unknown sha256 a o expected
mark_stored sha256 a (some stored) o expected =
    if same stored.id o.id
    then if holds (UnknownObservation-discrete stored o)
      then ok a
      else raised (observation_conflict a.id o.id)
    else enter_unknown sha256 a o expected

unfoldable pub mark_unknown :
    Hash → Attempt → UnknownObservation → AttemptAuthority → ℤ → Command Attempt
mark_unknown sha256 a o authority expected = do
  ensure_authority a authority a.worker a.fence
  mark_stored sha256 a a.unknown_observation o expected

-- `next((record for record in self.adjudications if record.id == id), None)`.
unfoldable pub find_adjudication : String → List UnknownAdjudication → Option UnknownAdjudication
find_adjudication id [] = none
find_adjudication id (r ∷ rs) = if same r.id id then some r else find_adjudication id rs

unfoldable pub append_new : Hash → Attempt → UnknownAdjudication → ℤ → Command Attempt
unfolding ensure_expected_version
append_new sha256 a r expected = do
  ensure_expected_version "attempt" a.id a.version expected
  post_init sha256 (record a { adjudications = a.adjudications ++ r ∷ []; version = a.version + 1 })

unfoldable pub append_found :
    Hash → Attempt → Option UnknownAdjudication → UnknownAdjudication → ℤ → Command Attempt
unfolding append_new
append_found sha256 a none r expected = append_new sha256 a r expected
append_found sha256 a (some existing) r expected =
    if holds (UnknownAdjudication-discrete existing r)
    then ok a
    else raised (adjudication_conflict a.id r.id)

unfoldable pub append_unknown_adjudication :
    Hash → Attempt → UnknownAdjudication → ℤ → Command Attempt
append_unknown_adjudication sha256 a r expected =
    append_found sha256 a (find_adjudication r.id a.adjudications) r expected

-- The first stored event with the same id or the same sequence number.
unfoldable pub find_event : AttemptEvent → List AttemptEvent → Option AttemptEvent
find_event e [] = none
find_event e (c ∷ cs) =
    if same c.event_id e.event_id || c.event_seq == e.event_seq then some c else find_event e cs

-- `(self.events[-1].event_seq + 1) if self.events else 1`.
abbrev pub expected_next : List AttemptEvent → ℕ
expected_next [] = 1
expected_next (e ∷ []) = e.event_seq + 1
expected_next (e ∷ f ∷ es) = expected_next (f ∷ es)

abbrev pub with_event : Attempt → AttemptEvent → Attempt
with_event a e = record a { events = a.events ++ e ∷ []; version = a.version + 1 }

unfoldable pub record_found :
    Hash → Attempt → Option AttemptEvent → AttemptEvent → ℤ → Command Attempt
unfolding ensure_expected_version
record_found sha256 a (some existing) e expected =
    if event_eq existing e then ok a else raised (event_conflict a.id existing e)
record_found sha256 a none e expected = do
  ensure_expected_version "attempt" a.id a.version expected
  raise_if (is_terminal a.state) (event_rejected a.id "attempt_terminal")
  raise_if (not (e.event_seq == expected_next a.events))
      (event_gap a.id (expected_next a.events) e.event_seq)
  post_init sha256 (with_event a e)

unfoldable pub record_event :
    Hash → Attempt → AttemptEvent → AttemptAuthority → WorkerRef → ℕ → ℤ → Command Attempt
record_event sha256 a e authority worker fence expected = do
  ensure_authority a authority worker fence
  record_found sha256 a (find_event e a.events) e expected
