-- ===== src/Finalization/Examples/Selected.antt =====
-- A Run whose first Attempt was retried: which Attempt decides it, and the review when none does.
use qarunner.Prelude.{
  List, String, String-discrete, [], arith, is_blank, last_such, map, none, ok, raised, refl, some,
  ℕ, ℕ_discrete, ◌↔◌, ◌∷◌, ◌≡◌,
}
use qarunner.Values.{review_required}
use qarunner.Finalization.{Digest-discrete, Digest?-discrete, authorized_retry, outcome_passed}
use qarunner.Finalization.Keys.{RunItemKey, key_eq}
use qarunner.Finalization.Items.Effective.{EffectiveItemResolution}
use qarunner.Finalization.ResolutionSet.{is_subset, repeats_key, same_keys}
use qarunner.Finalization.Selection.{
  VerifiedAttemptResolutionSet, items_check, mixes_authorities, of_attempt,
  select_latest_authorized_complete_attempt, verified_post_init,
}
use qarunner.Finalization.Selection.Latest.{
  Chain, Selectable, is_complete, select-review, select_iff,
}
use qarunner.Finalization.Examples.{digest, fields, first_key, second_key}

abbrev keys : List RunItemKey
keys = first_key ∷ second_key ∷ []

abbrev pub retried : String → ℕ → ℕ → EffectiveItemResolution
retried id n fence = record {
  source_kind = authorized_retry;
  fields = record (fields (some (digest "evidence"))) {
    attempt_id = some id;
    attempt_no = some n;
    attempt_fence = some fence;
  };
  outcome = outcome_passed;
  retry_intent_digest = some (digest "intent");
  retry_decision_digest = some (digest "decision");
  retry_authority_digest = some (digest "authority");
  adjudication_digest = none;
  adjudication_decision = none;
}

abbrev attempt : String → ℕ → ℕ → List RunItemKey → VerifiedAttemptResolutionSet
attempt id n fence ks = record {
  attempt_id = id;
  attempt_no = n;
  attempt_fence = fence;
  attempt_item_set_digest = digest "items";
  items = map (λ k. record { item_key = k; effective = retried id n fence }) ks;
}

-- The second Attempt has results for both items, the third one for the first item only.
abbrev second : VerifiedAttemptResolutionSet
second = attempt "t2" 2 2 (second_key ∷ first_key ∷ [])

abbrev third : VerifiedAttemptResolutionSet
third = attempt "t3" 3 4 (first_key ∷ [])

second_then : verified_post_init second ≡ ok second
unfolding verified_post_init items_check of_attempt mixes_authorities repeats_key key_eq is_blank
    String-discrete ℕ_discrete Digest-discrete Digest?-discrete
second_then = refl

select_iff_example :
    (select_latest_authorized_complete_attempt keys (digest "items") 1 1 (second ∷ third ∷ []) "r1"
      ≡ ok second)
    ↔ Selectable keys (digest "items") 1 1 (second ∷ third ∷ []) "r1"
      × (last_such (is_complete keys) (second ∷ third ∷ []) ≡ some second)
select_iff_example = select_iff keys (digest "items") 1 1 (second ∷ third ∷ []) "r1" second

abbrev partial : VerifiedAttemptResolutionSet
partial = attempt "t2" 2 4 (first_key ∷ [])

partial-Selectable : Selectable keys (digest "items") 1 1 (partial ∷ []) "r1"
unfolding repeats_key key_eq is_subset is_blank
partial-Selectable = record {
  some_item = refl;
  items_once = refl;
  named = refl;
  numbered = omega arith;
  fenced = omega arith;
  some_attempt = refl;
  continuous = Chain.next {a = partial} refl (omega arith) refl refl Chain.stop;
}

partial-incomplete : last_such (is_complete keys) (partial ∷ []) ≡ none
unfolding last_such same_keys is_subset key_eq
partial-incomplete = refl

select-review_example :
    select_latest_authorized_complete_attempt keys (digest "items") 1 1 (partial ∷ []) "r1"
    ≡ raised (review_required "r1" "t2" 4 "no_authorized_complete_attempt")
select-review_example =
    select-review keys (digest "items") 1 1 (partial ∷ []) "r1" partial partial-Selectable
      partial-incomplete refl
