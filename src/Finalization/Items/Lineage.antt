-- ===== src/Finalization/Items/Lineage.antt =====
-- What an accepted item shows: its class, and how it was resolved when its Attempt ended unknown.
use qarunner.Prelude.{arith, is_some, none, ok, some, true, ◌≡◌, ◌≢◌, ◌⊎◌}
use qarunner.Retry.{fact_unknown}
use qarunner.Unknown.{mark_completed_from_verified_evidence, mark_infra_failed_no_retry}
use qarunner.Finalization.{
  authorized_retry, class_of, original_source, outcome_infra_failed, outcome_of,
  source_adjudication, unknown_lineage,
}
use qarunner.Finalization.Items.Original.{OriginalItemResolution}
use qarunner.Finalization.Items.Effective.{
  EffectiveItemResolution, adjudicated_check, effective_check, effective_post_init, forbid_retry,
  permits, require_retry,
}
use qarunner.Finalization.Items.Entry.{
  RunItemResolution, effective_mirrors_original, item_post_init, lineage_check, mirror_check,
}

-- A retry that was authorised after a decision which permits one.
pub record Retried (e : EffectiveItemResolution) : Type 0 where
  pub source : e.source_kind ≡ authorized_retry
  pub intended : is_some e.retry_intent_digest ≡ true
  pub decided : is_some e.retry_decision_digest ≡ true
  pub authorized : is_some e.retry_authority_digest ≡ true
  pub permitted : permits e.adjudication_decision ≡ true

-- A decision that closes the item: as a failure of the infrastructure without evidence, or from
-- evidence.
abbrev pub ClosedBy : EffectiveItemResolution → Type 0
ClosedBy e =
    (e.adjudication_decision ≡ some mark_infra_failed_no_retry)
      × (e.outcome ≡ outcome_infra_failed)
      × (e.fields.evidence_root_digest ≡ none)
    ⊎ (e.adjudication_decision ≡ some mark_completed_from_verified_evidence)
      × (is_some e.fields.evidence_root_digest ≡ true)

abbrev pub Adjudicated : EffectiveItemResolution → Type 0
Adjudicated e =
    (is_some e.adjudication_digest ≡ true)
    × (Retried e ⊎ (e.source_kind ≡ source_adjudication) × ClosedBy e)

-- The item takes its original resolution over.
abbrev pub Mirrors : OriginalItemResolution → EffectiveItemResolution → Type 0
Mirrors o e = (outcome_of o.execution_fact ≡ some e.outcome) × (e.fields ≡ o.fields)

pub record Resolved (r : RunItemResolution) : Type 0 where
  pub mirrored : r.effective.source_kind ≡ original_source → Mirrors r.original r.effective
  pub counted :
      (r.aggregation_class ≡ class_of r.effective.outcome)
        × (r.original.execution_fact ≢ fact_unknown)
      ⊎ (r.aggregation_class ≡ unknown_lineage) × Adjudicated r.effective

effective_check-Adjudicated :
    (e : EffectiveItemResolution)
    → effective_check e.source_kind e ≡ ok tt
    → is_some e.adjudication_digest ≡ true
    → Adjudicated e
unfolding effective_check forbid_retry require_retry adjudicated_check
effective_check-Adjudicated e h given = ground arith

-- Of an item whose effective resolution and whose entry the constructors accept: it takes over its
-- original resolution, unless a retry or an adjudication replaced it. It is counted under its
-- outcome only when its first Attempt did not end unknown. Otherwise it is counted as unknown
-- lineage, and an adjudication stands behind it that permits the authorised retry or closes the
-- item.
pub item_post_init-Resolved :
    (r v : RunItemResolution) (e : EffectiveItemResolution)
    → effective_post_init r.effective ≡ ok e
    → item_post_init r ≡ ok v
    → Resolved r
unfolding effective_post_init item_post_init mirror_check lineage_check effective_mirrors_original
item_post_init-Resolved r v e h k = ground (arith, effective_check-Adjudicated r.effective)
