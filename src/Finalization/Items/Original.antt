-- ===== src/Finalization/Items/Original.antt =====
-- `OriginalItemResolution`: what an item was given first.
use qarunner.Prelude.{Bool, Option, String, false, is_some, not, ok, raise_if, true, ◌>>◌}
use qarunner.Values.{Command, Digest, invalid}
use qarunner.Retry.{AttemptExecutionFact, fact_cancelled, fact_passed, fact_test_failed}
use qarunner.Finalization.{
  OriginalSourceKind, attempt_result, attempt_terminal_fallback, forbid_present, require_digest,
  source_prestart,
}
use qarunner.Finalization.Items.{Projection, require_attempt_identity, validate_fact_and_mapping}

pub record OriginalItemResolution : Type 0 where
  pub source_kind : OriginalSourceKind
  pub fields : Projection
  pub execution_fact : AttemptExecutionFact
  pub prestart_closure_digest : Option Digest

abbrev entity : String
entity = "original_item_resolution"

abbrev pub is_cancelled : AttemptExecutionFact → Bool
is_cancelled fact_cancelled = true
is_cancelled _ = false

abbrev pub is_result : AttemptExecutionFact → Bool
is_result fact_passed = true
is_result fact_test_failed = true
is_result _ = false

unfoldable pub prestart_check : OriginalItemResolution → Command (Unit {0})
prestart_check r = do
  raise_if (not (is_cancelled r.execution_fact))
      (invalid entity "execution_fact" "prestart_requires_cancelled")
  forbid_present entity "attempt_id" r.fields.attempt_id
  forbid_present entity "attempt_no" r.fields.attempt_no
  forbid_present entity "attempt_fence" r.fields.attempt_fence
  forbid_present entity "attempt_item_set_digest" r.fields.attempt_item_set_digest
  forbid_present entity "evidence_root_digest" r.fields.evidence_root_digest
  forbid_present entity "result_mapping_schema" r.fields.result_mapping_schema
  forbid_present entity "result_mapping_version" r.fields.result_mapping_version
  forbid_present entity "result_mapping_digest" r.fields.result_mapping_digest
  require_digest entity "prestart_closure_digest" r.prestart_closure_digest

-- The checks of an item that an Attempt executed.
unfoldable pub attempt_check : OriginalItemResolution → Command (Unit {0})
unfolding require_attempt_identity
attempt_check r = do
  require_attempt_identity entity r.fields
  raise_if (is_some r.prestart_closure_digest)
      (invalid entity "prestart_closure_digest" "forbidden")

unfoldable pub original_source_check :
    OriginalSourceKind → OriginalItemResolution → Command (Unit {0})
unfolding prestart_check attempt_check
original_source_check source_prestart r = prestart_check r
original_source_check attempt_result r = do
  attempt_check r
  raise_if (not (is_result r.execution_fact))
      (invalid entity "execution_fact" "invalid_for_attempt_result")
  require_digest entity "evidence_root_digest" r.fields.evidence_root_digest
original_source_check attempt_terminal_fallback r = do
  attempt_check r
  raise_if (is_result r.execution_fact)
      (invalid entity "execution_fact" "invalid_for_terminal_fallback")
  raise_if (is_some r.fields.result_mapping_digest)
      (invalid entity "result_mapping" "forbidden_for_terminal_fallback")

unfoldable pub original_post_init : OriginalItemResolution → Command OriginalItemResolution
unfolding original_source_check validate_fact_and_mapping
original_post_init r = do
  validate_fact_and_mapping entity r.fields
  original_source_check r.source_kind r
  ok r
