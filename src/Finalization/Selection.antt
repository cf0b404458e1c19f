-- ===== src/Finalization/Selection.antt =====
-- `VerifiedAttemptResolutionSet` and `select_latest_authorized_complete_attempt`: which of the
-- retried Attempts decides a Run.
pub mod Latest
use qarunner.Prelude.{
  Bool, List, Option, String, String-discrete, [], any, false, has_value, holds, if◌then◌else◌,
  is_empty, last, leb, map, none, not, ok, raise_if, raised, some, true, ℕ, ℕ_discrete, ◌&&◌, ◌++◌,
  ◌+◌, ◌==◌, ◌>>=◌, ◌>>◌, ◌||◌, ◌∷◌,
}
use qarunner.Values.{Command, Digest, digest_eq, invalid, review_required}
use qarunner.Finalization.{
  Digest-discrete, Digest?-discrete, EffectiveSourceKind, authorized_retry, require_positive_int,
  require_string,
}
use qarunner.Finalization.Keys.{RunItemKey}
use qarunner.Finalization.Items.Effective.{EffectiveItemResolution}
use qarunner.Finalization.ResolutionSet.{is_subset, repeats_key, same_keys}

pub record VerifiedAttemptItemResolution : Type 0 where
  pub item_key : RunItemKey
  pub effective : EffectiveItemResolution

pub record VerifiedAttemptResolutionSet : Type 0 where
  pub attempt_id : String
  pub attempt_no : ℕ
  pub attempt_fence : ℕ
  pub attempt_item_set_digest : Digest
  pub items : List VerifiedAttemptItemResolution

abbrev set_entity : String
set_entity = "verified_attempt_resolution_set"

abbrev pub keys : VerifiedAttemptResolutionSet → List RunItemKey
keys a = map (λ i. i.item_key) a.items

abbrev is_retry : EffectiveSourceKind → Bool
is_retry authorized_retry = true
is_retry _ = false

-- The identity of an item's resolution is that of the Attempt.
unfoldable pub of_attempt : VerifiedAttemptResolutionSet → EffectiveItemResolution → Bool
of_attempt a e =
    has_value String-discrete e.fields.attempt_id a.attempt_id
    && has_value ℕ_discrete e.fields.attempt_no a.attempt_no
    && has_value ℕ_discrete e.fields.attempt_fence a.attempt_fence
    && has_value Digest-discrete e.fields.attempt_item_set_digest a.attempt_item_set_digest

unfoldable pub items_check :
    VerifiedAttemptResolutionSet → List VerifiedAttemptItemResolution → Command (Unit {0})
unfolding of_attempt
items_check a [] = ok tt
items_check a (i ∷ rest) = do
  raise_if (not (is_retry i.effective.source_kind))
      (invalid set_entity "items" "not_authorized_retry")
  raise_if (not (of_attempt a i.effective)) (invalid set_entity "items" "attempt_identity_mismatch")
  items_check a rest

abbrev pub same_authority : EffectiveItemResolution → EffectiveItemResolution → Bool
same_authority e f =
    holds (Digest?-discrete e.retry_intent_digest f.retry_intent_digest)
    && holds (Digest?-discrete e.retry_decision_digest f.retry_decision_digest)
    && holds (Digest?-discrete e.retry_authority_digest f.retry_authority_digest)

-- `len(authority_triples) > 1`.
unfoldable pub mixes_authorities : List VerifiedAttemptItemResolution → Bool
mixes_authorities [] = false
mixes_authorities (i ∷ rest) = any (λ j. not (same_authority i.effective j.effective)) rest

unfoldable pub verified_post_init :
    VerifiedAttemptResolutionSet → Command VerifiedAttemptResolutionSet
unfolding items_check mixes_authorities repeats_key
verified_post_init a = do
  require_string set_entity "attempt_id" (some a.attempt_id)
  require_positive_int set_entity "attempt_no" (some a.attempt_no)
  require_positive_int set_entity "attempt_fence" (some a.attempt_fence)
  raise_if (repeats_key (keys a)) (invalid set_entity "items" "duplicate_key")
  items_check a a.items
  raise_if (mixes_authorities a.items) (invalid set_entity "items" "retry_authority_mismatch")
  ok a

abbrev entity : String
entity = "authorized_retry_selection"

-- The loop over the Attempts, with the complete ones found so far.
unfoldable pub complete_attempts :
    List RunItemKey
    → Digest
    → (expected_no previous_fence : ℕ) → List VerifiedAttemptResolutionSet
    → List VerifiedAttemptResolutionSet
    → Command (List VerifiedAttemptResolutionSet)
unfolding is_subset same_keys digest_eq
complete_attempts expected run_item_set_digest expected_no previous_fence complete [] = ok complete
complete_attempts expected run_item_set_digest expected_no previous_fence complete (a ∷ rest) = do
  raise_if (not (a.attempt_no == expected_no) || leb a.attempt_fence previous_fence)
      (invalid entity "attempts" "continuous_chain_required")
  raise_if (not (digest_eq a.attempt_item_set_digest run_item_set_digest))
      (invalid entity "attempt_item_set_digest" "full_run_item_set_required")
  raise_if (not (is_subset (keys a) expected)) (invalid entity "items" "cross_run_item")
  complete_attempts expected run_item_set_digest (expected_no + 1) a.attempt_fence
      (if same_keys (keys a) expected then complete ++ a ∷ [] else complete) rest

-- `complete[-1]`, or the review of the last Attempt.
unfoldable pub choose :
    String
    → Option VerifiedAttemptResolutionSet
    → Option VerifiedAttemptResolutionSet
    → Command VerifiedAttemptResolutionSet
choose run_id latest (some a) = ok a
choose run_id none none = raised (invalid entity "attempts" "invalid")
choose run_id (some a) none =
    raised (review_required run_id a.attempt_id a.attempt_fence "no_authorized_complete_attempt")

unfoldable pub select_latest_authorized_complete_attempt :
    List RunItemKey
    → Digest
    → (original_attempt_no original_attempt_fence : ℕ) → List VerifiedAttemptResolutionSet
    → String
    → Command VerifiedAttemptResolutionSet
unfolding repeats_key complete_attempts choose
select_latest_authorized_complete_attempt expected run_item_set_digest original_attempt_no
      original_attempt_fence attempts run_id =
    do
      raise_if (is_empty expected || repeats_key expected)
          (invalid entity "expected_item_keys" "invalid")
      require_string entity "run_id" (some run_id)
      require_positive_int entity "original_attempt_no" (some original_attempt_no)
      require_positive_int entity "original_attempt_fence" (some original_attempt_fence)
      raise_if (is_empty attempts) (invalid entity "attempts" "invalid")
      complete ←
          complete_attempts expected run_item_set_digest (original_attempt_no + 1)
            original_attempt_fence [] attempts
      choose run_id (last attempts) (last complete)
