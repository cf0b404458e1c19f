-- ===== src/Retry/Examples.antt =====
-- A platform policy's authority, and the theorem at it.
use qarunner.Values.{Digest}
use qarunner.Retry.{PolicyRetryAuthority, fact_infra_failed, platform, platform_policy}

abbrev d : Digest
d = record { value = "sha256:22" }

abbrev after_infra_failure : PolicyRetryAuthority
after_infra_failure = record {
  family = platform;
  decision_source_kind = platform_policy;
  policy_digest = d;
  authority_schema = "v1";
  authority_id = "p1";
  authority_version = 4;
  authority_digest = d;
  source_outcome = fact_infra_failed;
  item_resolution_set_digest = d;
  source_item_set_digest = d;
  target_item_set_digest = d;
}
