-- ===== src/Run/Examples.antt =====
-- One Run that is queued, reserved, started and asked to stop; the theorems at this life.
use qarunner.Prelude.{
  String-discrete, [], ap, false, first_such, has_repeat, is_blank, none, ok, pos, refl, some, true,
  ℕ_discrete, ◌∷◌, ◌≡◌,
}
use qarunner.Values.{Digest, WorkerAuthority, WorkerRef, digest_eq, ref_eq, utc}
use qarunner.Values.Canonical.{Hash, is_valid_json}
use qarunner.Worker.{WorkerGeneration, claimable_ref, ready}
use qarunner.Assignment.{
  Assignment, claim, claimed, close_prestart, closure_post_init, commit, committed, offer, offered,
}
use qarunner.Attempt.{Attempt, provisioning, start_committed}
use qarunner.Attempt.Commands.{create}
use qarunner.Cancellation.{CancellationIntent, cancel_intent_post_init, user_request}
use qarunner.Run.{Run, queued}
use qarunner.Run.Lookups.{assignment_of, find_assignment, pending_retry_intent}
use qarunner.Run.Cancelling.{
  cancellation_history_check, causality_check, latest_closure, latest_commit,
}
use qarunner.Run.Aggregate.{consumption_check, run_post_init, tails_check}
use qarunner.Run.Assignments.{normalized_history_check, reservations_check}
use qarunner.Run.Attempts.{
  attempts_check, intents_check, pointer_check, repeats_authority, reservation_check,
}
use qarunner.Run.Pointers.{pointers_check, snapshots_check}
use qarunner.Run.Change.{queued_run}
use qarunner.Run.Scheduling.{
  claim_assignment, create_run, offer_assignment, offered_run, planned_run, reserved_run,
  transition_run,
}
use qarunner.Run.Committing.{CommitStartResult, commit_start, committed_run, find_commit}
use qarunner.Run.Closing.{intended_run, request_cancel}
use qarunner.Attempt.Validity.{IsValid, post_init-IsValid}
use qarunner.Run.Execution.{attempt_run, transition_current_attempt}
use qarunner.Run.Invariant.{RunIsValid}
use qarunner.Run.Refinement.{Accepted}
use qarunner.Run.History.Extends.{AllValid}
use qarunner.Run.History.Traces.{Lasting, Reach, Reach-Lasting, create_run-Reach, here, served}
use qarunner.Run.History.Cancelled.{Reach-Stopping, Stopping}
use qarunner.Run.History.Redelivery.{request_cancel-again}
use qarunner.Run.History.Once.{commit_start-once}
use qarunner.Run.History.Starts.{commit_start-again, replay_of}
use qarunner.Run.Refinement.Commands.{
  ask_cancel, begin_attempt, enter_state, move_attempt, offer_to, serve, serve-Accepted, started,
  take,
}
use qarunner.Run.Current.{current_attempt}

-- A stand-in for SHA-256.
abbrev sha256 : Hash
sha256 schema payload = record { value = schema }

abbrev w1 : WorkerRef
w1 = record { worker_id = "w1"; generation = 2 }

abbrev worker : WorkerGeneration
worker = record {
  ref = w1;
  host_id = "host";
  pool_id = "pool";
  cert_serial = "77";
  agent_version = "1.0";
  capabilities_digest = record { value = "sha256:00" };
  state = ready;
  registered_at = utc 10;
  state_changed_at = utc 20;
  last_seen_at = some (utc 20);
  retired_at = none;
  version = 1;
}

abbrev registry : WorkerAuthority
registry = record { current_ref = w1 }

abbrev spec : Digest
spec = record { value = "sha256:01" }

abbrev first : Assignment
first = record {
  id = "a1";
  worker = w1;
  spec_digest = spec;
  state = offered;
  offered_at = utc 100;
  expires_at = utc 160;
  claimed_at = none;
  committed_at = none;
  retry_intent_id = none;
  closure = none;
}

abbrev taken : Assignment
taken = record first { state = claimed; claimed_at = some (utc 110) }

abbrev used : Assignment
used = record taken { state = committed; committed_at = some (utc 120) }

abbrev attempt : Attempt
attempt = record {
  id = "t1";
  run_id = "r1";
  attempt_no = 1;
  fence = 1;
  assignment_id = "a1";
  worker = w1;
  spec_digest = spec;
  start_commit_key = "k1";
  events = [];
  evidence = none;
  unknown_observation = none;
  adjudications = [];
  state = start_committed;
  version = 0;
  retry_provenance = none;
}

abbrev waiting : Run
waiting = queued_run (planned_run "r1")

abbrev reserved : Run
reserved = offered_run waiting first

abbrev accepted : Run
accepted = reserved_run reserved (taken ∷ [])

abbrev executing : Run
executing = committed_run accepted (used ∷ []) attempt

abbrev asked : CancellationIntent
asked = record {
  run_id = "r1";
  idempotency_key = "c1";
  source = user_request;
  actor_id = "ann";
  reason = "wrong revision";
  recorded_at = utc 130;
}

abbrev stopping : Run
stopping = intended_run executing asked

abbrev begun : CommitStartResult
begun = record { run = executing; attempt = attempt; fence = 1; replayed = false }

program : Unit {0}
unfolding serve create_run transition_current_attempt current_attempt run_post_init
    normalized_history_check reservations_check attempts_check intents_check pointers_check
    snapshots_check transition_run offer_assignment claim_assignment commit_start request_cancel
    claimable_ref offer claim commit close_prestart closure_post_init assignment_of
    pending_retry_intent has_repeat pointer_check repeats_authority causality_check
    cancellation_history_check tails_check consumption_check latest_closure latest_commit
    reservation_check find_assignment String-discrete ℕ_discrete find_commit first_such create
    cancel_intent_post_init digest_eq ref_eq is_valid_json is_blank
program = tt

queued_then : serve sha256 (planned_run "r1") (enter_state queued (pos 0)) ≡ ok waiting
unfolding program
queued_then = refl

reserved_then :
    serve sha256 waiting (offer_to "a1" worker registry spec (utc 100) (utc 160) (pos 1))
    ≡ ok reserved
unfolding program
reserved_then = refl

claimed_then : serve sha256 reserved (take "a1" w1 (utc 110) (pos 2)) ≡ ok accepted
unfolding program
claimed_then = refl

started_then : commit_start sha256 accepted "a1" w1 "k1" spec "t1" (utc 120) (pos 3) ≡ ok begun
unfolding program
started_then = refl

asked_then :
    request_cancel sha256 executing "c1" user_request "ann" "wrong revision" (utc 130) (pos 4)
    ≡ ok stopping
unfolding program
asked_then = refl

asked_served :
    serve sha256 executing (ask_cancel "c1" user_request "ann" "wrong revision" (utc 130) (pos 4))
    ≡ ok stopping
unfolding program
asked_served = refl

-- The theorems at this life.
begun-Reach : Reach sha256 (planned_run "r1") stopping
unfolding program
begun-Reach =
    served
      (served
        (served
          (served (served here (enter_state queued (pos 0)) queued_then)
            (offer_to "a1" worker registry spec (utc 100) (utc 160) (pos 1)) reserved_then)
          (take "a1" w1 (utc 110) (pos 2)) claimed_then)
        (begin_attempt "a1" w1 "k1" spec "t1" (utc 120) (pos 3)) (ap started started_then))
      (ask_cancel "c1" user_request "ann" "wrong revision" (utc 130) (pos 4)) asked_then

created_then : create_run sha256 "r1" ≡ ok (planned_run "r1")
unfolding program
created_then = refl

stopping_accepted : run_post_init sha256 stopping ≡ ok stopping
unfolding program
stopping_accepted = refl

attempt-IsValid : IsValid sha256 attempt
unfolding program
attempt-IsValid = (post_init-IsValid sha256 attempt attempt refl).1

serve-Accepted_example : Accepted sha256 executing (pos 4) stopping
serve-Accepted_example =
    serve-Accepted sha256 executing stopping
      (ask_cancel "c1" user_request "ann" "wrong revision" (utc 130) (pos 4)) asked_served

create_run-Reach_example :
    (run_post_init sha256 stopping ≡ ok stopping)
    × RunIsValid stopping
    × AllValid sha256 stopping.attempts
create_run-Reach_example =
    create_run-Reach sha256 "r1" (planned_run "r1") stopping created_then begun-Reach

-- The Attempt moves on while the Run is asked to stop.
abbrev prepared : Run
prepared = attempt_run stopping (record attempt { state = provisioning; version = 1 })

onward_then : serve sha256 stopping (move_attempt "t1" provisioning (pos 5) (pos 0)) ≡ ok prepared
unfolding program
onward_then = refl

onward : Reach sha256 stopping prepared
onward = served here (move_attempt "t1" provisioning (pos 5) (pos 0)) onward_then

Reach-Lasting_example : Lasting sha256 stopping prepared
Reach-Lasting_example = Reach-Lasting sha256 stopping prepared (attempt-IsValid, tt) onward

Reach-Stopping_example : Stopping asked stopping prepared
Reach-Stopping_example = Reach-Stopping sha256 stopping prepared asked stopping_accepted refl onward

request_cancel-again_example :
    request_cancel sha256 stopping "c1" user_request "ann" "wrong revision" (utc 140) (pos 0)
    ≡ ok stopping
request_cancel-again_example =
    request_cancel-again sha256 executing stopping "c1" user_request "ann" "wrong revision"
      (utc 130) (utc 140) (pos 4) (pos 0) asked_then refl

commit_start-again_example :
    commit_start sha256 executing "a1" w1 "k1" spec "t2" (utc 125) (pos 9) ≡ ok (replay_of begun)
commit_start-again_example =
    commit_start-again sha256 accepted begun "a1" w1 "k1" spec "t1" "t2" (utc 120) (utc 125) (pos 3)
      (pos 9) started_then

-- The start is delivered again after the Run was asked to stop and its Attempt moved on.
abbrev answered : CommitStartResult
answered = record {
  run = prepared;
  attempt = record attempt { state = provisioning; version = 1 };
  fence = 1;
  replayed = true;
}

answered_then : commit_start sha256 prepared "a1" w1 "k1" spec "t3" (utc 140) (pos 0) ≡ ok answered
unfolding program
answered_then = refl

later_on : Reach sha256 executing prepared
later_on =
    served
      (served here (ask_cancel "c1" user_request "ann" "wrong revision" (utc 130) (pos 4))
        asked_served)
      (move_attempt "t1" provisioning (pos 5) (pos 0)) onward_then

commit_start-once_example :
    (prepared ≡ prepared)
    × (answered.attempt.id ≡ begun.attempt.id)
    × (answered.fence ≡ begun.fence)
    × (answered.replayed ≡ true)
commit_start-once_example =
    commit_start-once sha256 accepted prepared begun answered "k1" "a1" "a1" w1 w1 spec spec "t1"
      "t3" (utc 120) (utc 140) (pos 3) (pos 0) started_then (attempt-IsValid, tt) later_on
      answered_then
