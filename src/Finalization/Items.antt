-- ===== src/Finalization/Items.antt =====
-- The resolutions of one item: the fact it was given originally, the one that takes effect, and the
-- class that it is counted under.
pub mod Original
pub mod Effective
pub mod Entry
pub mod Lineage
use qarunner.Prelude.{
  Bool, Option, String, String-discrete, false, is_some, not, ok, raise_if, some, true, ℕ,
  ℕ_discrete, ◌&&◌, ◌>>◌, ◌||◌,
}
use qarunner.Values.{Command, Digest, invalid}
use qarunner.Finalization.{require_digest, require_positive_int, require_string}

-- The fields that the two resolutions share, which the module's helpers read from either.
pub record Projection : Type 0 where
  pub attempt_id : Option String
  pub attempt_no : Option ℕ
  pub attempt_fence : Option ℕ
  pub attempt_item_set_digest : Option Digest
  pub fact_schema : String
  pub fact_version : ℕ
  pub fact_digest : Digest
  pub evidence_root_digest : Option Digest
  pub result_mapping_schema : Option String
  pub result_mapping_version : Option ℕ
  pub result_mapping_digest : Option Digest

pub Projection-discrete : Discrete Projection
Projection-discrete = hlevel (ℕ_discrete, String-discrete)

unfoldable pub require_attempt_identity : String → Projection → Command (Unit {0})
require_attempt_identity entity p = do
  require_string entity "attempt_id" p.attempt_id
  require_positive_int entity "attempt_no" p.attempt_no
  require_positive_int entity "attempt_fence" p.attempt_fence
  require_digest entity "attempt_item_set_digest" p.attempt_item_set_digest

abbrev any_identity : Projection → Bool
any_identity p =
    is_some p.attempt_id
    || is_some p.attempt_no
    || is_some p.attempt_fence
    || is_some p.attempt_item_set_digest

abbrev all_identity : Projection → Bool
all_identity p =
    is_some p.attempt_id
    && is_some p.attempt_no
    && is_some p.attempt_fence
    && is_some p.attempt_item_set_digest

abbrev when : Bool → Command (Unit {0}) → Command (Unit {0})
when true check = check
when false check = ok tt

unfoldable pub validate_optional_attempt_identity : String → Projection → Command (Unit {0})
unfolding require_attempt_identity
validate_optional_attempt_identity entity p = do
  raise_if (any_identity p && not (all_identity p))
      (invalid entity "attempt_identity" "all_or_none")
  when (all_identity p) (require_attempt_identity entity p)

abbrev any_mapping : Projection → Bool
any_mapping p =
    is_some p.result_mapping_schema
    || is_some p.result_mapping_version
    || is_some p.result_mapping_digest

abbrev all_mapping : Projection → Bool
all_mapping p =
    is_some p.result_mapping_schema
    && is_some p.result_mapping_version
    && is_some p.result_mapping_digest

unfoldable pub mapping_check : String → Projection → Command (Unit {0})
mapping_check entity p = do
  require_string entity "result_mapping_schema" p.result_mapping_schema
  require_positive_int entity "result_mapping_version" p.result_mapping_version
  require_digest entity "result_mapping_digest" p.result_mapping_digest

unfoldable pub validate_fact_and_mapping : String → Projection → Command (Unit {0})
unfolding mapping_check
validate_fact_and_mapping entity p = do
  require_string entity "fact_schema" (some p.fact_schema)
  require_positive_int entity "fact_version" (some p.fact_version)
  raise_if (any_mapping p && not (all_mapping p)) (invalid entity "result_mapping" "all_or_none")
  when (all_mapping p) (mapping_check entity p)
