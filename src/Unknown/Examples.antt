-- ===== src/Unknown/Examples.antt =====
-- A confirmed stop, and the theorem at it.
use qarunner.Prelude.{none, ok, some, ◌↔◌, ◌≡◌}
use qarunner.Values.{utc}
use qarunner.Unknown.{UnknownAdjudication, adjudication_post_init, confirm_stopped_then_retry}
use qarunner.Unknown.Basis.{IsWellFormed, Rests, adjudication_iff}

abbrev confirmed : UnknownAdjudication
confirmed = record {
  id = "j1";
  attempt_id = "t1";
  unknown_observation_digest = record { value = "sha256:33" };
  decision = confirm_stopped_then_retry;
  actor_id = "op";
  reason = "host is gone";
  occurred_at = utc 900;
  proof_digest = some (record { value = "sha256:44" });
  risk_approver_id = none;
  risk_acceptance_digest = none;
  evidence_root_digest = none;
  supersedes_adjudication_id = none;
}

adjudication_iff_example :
    (adjudication_post_init confirmed ≡ ok confirmed)
    ↔ (IsWellFormed confirmed × Rests confirmed.decision confirmed × (confirmed ≡ confirmed))
adjudication_iff_example = adjudication_iff confirmed confirmed
