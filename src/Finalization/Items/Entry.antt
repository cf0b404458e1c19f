-- ===== src/Finalization/Items/Entry.antt =====
-- `RunItemResolution`: an item with its original and its effective resolution.
use qarunner.Prelude.{
  Bool, Option, String, false, holds, is_none, none, not, ok, raise_if, some, true, ◌&&◌, ◌>>◌,
}
use qarunner.Values.{Command, Digest, invalid}
use qarunner.Retry.{AttemptExecutionFact, fact_unknown}
use qarunner.Finalization.{
  EffectiveSourceKind, ItemAggregationClass, RunOutcome, RunOutcome-discrete, class_of,
  original_source, outcome_of, unknown_lineage,
}
use qarunner.Finalization.Keys.{RunItemKey}
use qarunner.Finalization.Items.{Projection-discrete}
use qarunner.Finalization.Items.Original.{OriginalItemResolution}
use qarunner.Finalization.Items.Effective.{EffectiveItemResolution}

pub record RunItemResolution : Type 0 where
  pub item_key : RunItemKey
  pub original : OriginalItemResolution
  pub effective : EffectiveItemResolution
  pub unknown_lineage_digest : Option Digest
  pub aggregation_class : ItemAggregationClass

abbrev entity : String
entity = "run_item_resolution"

abbrev pub is_unknown : AttemptExecutionFact → Bool
is_unknown fact_unknown = true
is_unknown _ = false

abbrev has_outcome : RunOutcome → Option RunOutcome → Bool
has_outcome o none = false
has_outcome o (some p) = holds (RunOutcome-discrete o p)

-- `_effective_mirrors_original`: the outcome is the fact's, and the shared fields agree.
unfoldable pub effective_mirrors_original : OriginalItemResolution → EffectiveItemResolution → Bool
effective_mirrors_original o e =
    has_outcome e.outcome (outcome_of o.execution_fact)
    && holds (Projection-discrete e.fields o.fields)

abbrev is_class : RunOutcome → ItemAggregationClass → Bool
is_class o unknown_lineage = false
is_class o (class_of p) = holds (RunOutcome-discrete o p)

abbrev is_lineage : ItemAggregationClass → Bool
is_lineage unknown_lineage = true
is_lineage (class_of _) = false

unfoldable pub mirror_check : EffectiveSourceKind → RunItemResolution → Command (Unit {0})
unfolding effective_mirrors_original
mirror_check original_source r = do
  raise_if (is_unknown r.original.execution_fact)
      (invalid entity "effective" "unadjudicated_unknown")
  raise_if (not (effective_mirrors_original r.original r.effective))
      (invalid entity "effective" "does_not_mirror_original")
mirror_check _ r = ok tt

unfoldable pub lineage_check : Option Digest → RunItemResolution → Command (Unit {0})
lineage_check none r = do
  raise_if (not (is_class r.effective.outcome r.aggregation_class))
      (invalid entity "aggregation_class" "does_not_match_outcome")
  raise_if (is_unknown r.original.execution_fact)
      (invalid entity "unknown_lineage_digest" "required_for_resolved_unknown")
lineage_check (some _) r = do
  raise_if (is_none r.effective.adjudication_digest)
      (invalid entity "unknown_lineage_digest" "requires_adjudication")
  raise_if (not (is_lineage r.aggregation_class))
      (invalid entity "aggregation_class" "unknown_lineage_required")

unfoldable pub item_post_init : RunItemResolution → Command RunItemResolution
unfolding mirror_check lineage_check
item_post_init r = do
  mirror_check r.effective.source_kind r
  lineage_check r.unknown_lineage_digest r
  ok r
