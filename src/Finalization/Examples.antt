-- ===== src/Finalization/Examples.antt =====
-- One closed Run of two items, the first of which was lost and adjudicated, and the theorems at it.
mod Selected
mod Closed
use mathlib.Core.List.{Permᴰ}
use qarunner.Prelude.{Option, String, [], false, is_blank, none, ok, refl, some, ◌↔◌, ◌∷◌, ◌≡◌}
use qarunner.Values.{Digest}
use qarunner.Retry.{fact_passed, fact_unknown}
use qarunner.Unknown.{mark_infra_failed_no_retry}
use qarunner.Finalization.{
  attempt_result, attempt_terminal_fallback, class_of, no_retry, original_source,
  outcome_infra_failed, outcome_passed, phase_closed, source_adjudication, unknown_lineage,
}
use qarunner.Finalization.Keys.{RunItemKey, key_eq, key_le}
use qarunner.Finalization.Items.{Projection, require_attempt_identity, validate_fact_and_mapping}
use qarunner.Finalization.Items.Effective.{
  adjudicated_check, effective_check, effective_post_init, forbid_retry,
}
use qarunner.Finalization.Items.Entry.{
  RunItemResolution, item_post_init, lineage_check, mirror_check,
}
use qarunner.Finalization.Items.Lineage.{Resolved, item_post_init-Resolved}
use qarunner.Finalization.ResolutionSet.{
  Envelope, RunItemResolutionSet, audit_outcome, build_set, is_ordered, repeats_key, set_post_init,
}
use qarunner.Finalization.ResolutionSet.Complete.{Buildable, Built, build_set-perm, build_set_iff}
use qarunner.Finalization.ResolutionSet.Worst.{IsWorst, audit_outcome-IsWorst}
use qarunner.Finalization.State.{
  PhaseFits, RunFinalizationState, blank?, state_post_init, state_post_init_iff,
}

abbrev pub digest : String → Digest
digest s = record { value = s }

abbrev pub first_key : RunItemKey
first_key = record { manifest_id = "m1"; item_index = 0 }

abbrev pub second_key : RunItemKey
second_key = record { manifest_id = "m1"; item_index = 1 }

abbrev pub fields : Option Digest → Projection
fields evidence = record {
  attempt_id = some "t1";
  attempt_no = some 1;
  attempt_fence = some 1;
  attempt_item_set_digest = some (digest "items");
  fact_schema = "facts";
  fact_version = 1;
  fact_digest = digest "fact";
  evidence_root_digest = evidence;
  result_mapping_schema = none;
  result_mapping_version = none;
  result_mapping_digest = none;
}

abbrev pub lost : RunItemResolution
lost = record {
  item_key = first_key;
  original = record {
    source_kind = attempt_terminal_fallback;
    fields = fields none;
    execution_fact = fact_unknown;
    prestart_closure_digest = none;
  };
  effective = record {
    source_kind = source_adjudication;
    fields = fields none;
    outcome = outcome_infra_failed;
    retry_intent_digest = none;
    retry_decision_digest = none;
    retry_authority_digest = none;
    adjudication_digest = some (digest "adjudication");
    adjudication_decision = some mark_infra_failed_no_retry;
  };
  unknown_lineage_digest = some (digest "lineage");
  aggregation_class = unknown_lineage;
}

abbrev pub passed : RunItemResolution
passed = record {
  item_key = second_key;
  original = record {
    source_kind = attempt_result;
    fields = fields (some (digest "evidence"));
    execution_fact = fact_passed;
    prestart_closure_digest = none;
  };
  effective = record {
    source_kind = original_source;
    fields = fields (some (digest "evidence"));
    outcome = outcome_passed;
    retry_intent_digest = none;
    retry_decision_digest = none;
    retry_authority_digest = none;
    adjudication_digest = none;
    adjudication_decision = none;
  };
  unknown_lineage_digest = none;
  aggregation_class = class_of outcome_passed;
}

lost_effective : effective_post_init lost.effective ≡ ok lost.effective
unfolding effective_post_init effective_check adjudicated_check validate_fact_and_mapping
    require_attempt_identity forbid_retry is_blank
lost_effective = refl

lost_entry : item_post_init lost ≡ ok lost
unfolding item_post_init mirror_check lineage_check
lost_entry = refl

item_post_init-Resolved_example : Resolved lost
item_post_init-Resolved_example =
    item_post_init-Resolved lost lost lost.effective lost_effective lost_entry

abbrev pub envelope : Envelope
envelope = record {
  batch_id = "b1";
  run_id = "r1";
  source_run_version = 9;
  manifest_digest = digest "manifest";
  shard_plan_digest = digest "plan";
  run_item_set_digest = digest "items";
  attempt_chain_digest = digest "attempts";
  retry_chain_digest = none;
  adjudication_chain_digest = some (digest "adjudications");
}

abbrev pub resolutions : RunItemResolutionSet
resolutions = record { envelope = envelope; entries = lost ∷ passed ∷ [] }

build_set_iff_example :
    ((s : RunItemResolutionSet) × (build_set
          (second_key ∷ first_key ∷ [])
          (passed ∷ lost ∷ [])
          envelope
        ≡ ok s)
      × Built (passed ∷ lost ∷ []) envelope s)
    ↔ Buildable (second_key ∷ first_key ∷ []) (passed ∷ lost ∷ []) envelope
build_set_iff_example = build_set_iff (second_key ∷ first_key ∷ []) (passed ∷ lost ∷ []) envelope

build_set-perm_example :
    build_set (first_key ∷ second_key ∷ []) (passed ∷ lost ∷ []) envelope
    ≡ build_set (first_key ∷ second_key ∷ []) (lost ∷ passed ∷ []) envelope
build_set-perm_example =
    build_set-perm (first_key ∷ second_key ∷ []) envelope (Permᴰ.swap refl refl)

set_then : set_post_init resolutions ≡ ok resolutions
unfolding set_post_init repeats_key is_ordered key_le key_eq is_blank
set_then = refl

audit_outcome-IsWorst_example :
    (o : _) × (audit_outcome resolutions ≡ some o) × IsWorst o resolutions.entries
audit_outcome-IsWorst_example = audit_outcome-IsWorst resolutions resolutions set_then

abbrev closed : RunFinalizationState
closed = record {
  phase = phase_closed;
  disposition = some no_retry;
  outcome = some outcome_infra_failed;
  finalization_basis_digest = some (digest "basis");
  latest_attempt_fact = some fact_unknown;
  current_assignment_id = none;
  pending_retry_intent_id = none;
}

state_post_init_iff_example :
    (state_post_init closed ≡ ok closed)
    ↔ (closed ≡ closed)
      × (blank? closed.current_assignment_id ≡ false)
      × (blank? closed.pending_retry_intent_id ≡ false)
      × PhaseFits closed.phase closed
state_post_init_iff_example = state_post_init_iff closed closed
