-- ===== src/Finalization/Payload.antt =====
-- The canonical documents of the items, and their digests.
use qarunner.Prelude.{String, pos}
use qarunner.Values.{Command, Digest}
use qarunner.Values.Canonical.{
  Fields, Hash, Json, canonical_digest, digest_json, end, member, num, num?, obj, optional, str,
}
use qarunner.Retry.{fact_value}
use qarunner.Finalization.{
  class_value, effective_source_value, original_source_value, run_outcome_value,
}
use qarunner.Finalization.Keys.{RunItemKey}
use qarunner.Finalization.Items.{Projection}
use qarunner.Finalization.Items.Original.{OriginalItemResolution}
use qarunner.Finalization.Items.Effective.{EffectiveItemResolution}
use qarunner.Finalization.Items.Entry.{RunItemResolution}

abbrev pub resolution_schema : String
resolution_schema = "qep.run-item-resolution-set.v1"

abbrev pub key_json : RunItemKey → Json
key_json k =
    obj
      (member "manifest_id" (str k.manifest_id) (member "item_index" (num (pos k.item_index)) end))

-- `_resolution_payload`; `rest` holds what the caller adds.
abbrev fact_fields : Projection → Fields → Fields
fact_fields p rest = member "fact_schema" (str p.fact_schema) (
    member "fact_version" (num (pos p.fact_version)) (
      member "fact_digest" (digest_json p.fact_digest) (
        member "evidence_root_digest" (optional digest_json p.evidence_root_digest) (
          member "result_mapping_schema" (optional str p.result_mapping_schema) (
            member "result_mapping_version" (num? p.result_mapping_version) (
              member "result_mapping_digest" (optional digest_json p.result_mapping_digest)
                rest))))))

abbrev resolution_payload : String → String → String → Projection → Fields → Fields
resolution_payload source_kind execution_field execution p rest =
    member "source_kind" (str source_kind) (
      member "attempt_id" (optional str p.attempt_id) (
        member "attempt_no" (num? p.attempt_no) (
          member "attempt_fence" (num? p.attempt_fence) (
            member "attempt_item_set_digest" (optional digest_json p.attempt_item_set_digest)
              (member execution_field (str execution) (fact_fields p rest))))))

abbrev pub original_payload : OriginalItemResolution → Fields
original_payload r =
    resolution_payload (original_source_value r.source_kind) "execution_fact"
      (fact_value r.execution_fact) r.fields
      (member "prestart_closure_digest" (optional digest_json r.prestart_closure_digest) end)

abbrev pub effective_payload : EffectiveItemResolution → Fields
effective_payload r =
    resolution_payload (effective_source_value r.source_kind) "outcome"
      (run_outcome_value r.outcome) r.fields
      (member "retry_intent_digest" (optional digest_json r.retry_intent_digest) (
        member "retry_decision_digest" (optional digest_json r.retry_decision_digest) (
          member "retry_authority_digest" (optional digest_json r.retry_authority_digest)
            (member "adjudication_digest" (optional digest_json r.adjudication_digest) end))))

-- `RunItemResolution.canonical_payload`.
abbrev pub entry_payload : RunItemResolution → Fields → Fields
entry_payload r rest = member "item_key" (key_json r.item_key) (
    member "original" (obj (original_payload r.original)) (
      member "effective" (obj (effective_payload r.effective)) (
        member "unknown_lineage_digest" (optional digest_json r.unknown_lineage_digest)
          (member "aggregation_class" (str (class_value r.aggregation_class)) rest))))

unfoldable pub original_digest : Hash → OriginalItemResolution → Command Digest
unfolding canonical_digest
original_digest sha256 r =
    canonical_digest sha256 resolution_schema
      (obj (member "projection_kind" (str "original") (original_payload r)))

unfoldable pub effective_digest : Hash → EffectiveItemResolution → Command Digest
unfolding canonical_digest
effective_digest sha256 r =
    canonical_digest sha256 resolution_schema
      (obj (member "projection_kind" (str "effective") (effective_payload r)))

unfoldable pub item_resolution_digest : Hash → RunItemResolution → Command Digest
unfolding canonical_digest
item_resolution_digest sha256 r =
    canonical_digest sha256 resolution_schema
      (obj (member "projection_kind" (str "item") (entry_payload r end)))
