-- ===== src/Finalization/ResolutionSet.antt =====
-- `RunItemResolutionSet`: the resolutions of all items of a closed Run, in the order of their keys.
pub mod Ordered
pub mod Complete
pub mod Worst
use qarunner.Prelude.{
  Bool, List, Option, String, [], any, if◌then◌else◌, is_blank, is_empty, length, ltb, map, none,
  not, ok, pos, raise_if, some, true, ℕ, ◌&&◌, ◌>>=◌, ◌>>◌, ◌||◌, ◌∷◌,
}
use qarunner.Prelude.Sorting.{has_clash, sort_by}
use qarunner.Values.{Command, Digest, invalid}
use qarunner.Values.Canonical.{
  Fields, Hash, Items, Json, arr, canonical_digest, digest_json, end, item, json_items, member, nil,
  num, obj, optional, str,
}
use qarunner.Finalization.{
  RunOutcome, outcome_cancelled, outcome_infra_failed, outcome_passed, outcome_test_failed,
}
use qarunner.Finalization.Keys.{RunItemKey, key_eq, key_le}
use qarunner.Finalization.Items.Entry.{RunItemResolution}
use qarunner.Finalization.Payload.{
  effective_payload, entry_payload, item_resolution_digest, key_json, original_payload,
  resolution_schema,
}

-- The fields that `build` takes as its envelope.
pub record Envelope : Type 0 where
  pub batch_id : String
  pub run_id : String
  pub source_run_version : ℕ
  pub manifest_digest : Digest
  pub shard_plan_digest : Digest
  pub run_item_set_digest : Digest
  pub attempt_chain_digest : Digest
  pub retry_chain_digest : Option Digest
  pub adjudication_chain_digest : Option Digest

pub record RunItemResolutionSet : Type 0 where
  pub envelope : Envelope
  pub entries : List RunItemResolution

abbrev entity : String
entity = "run_item_resolution_set"

abbrev pub item_key : RunItemResolution → RunItemKey
item_key r = r.item_key

-- `len(set(keys)) != len(keys)`.
unfoldable pub repeats_key : List RunItemKey → Bool
unfolding has_clash key_eq
repeats_key = has_clash key_eq

-- `keys != tuple(sorted(keys))`, negated.
unfoldable pub is_ordered : List RunItemKey → Bool
unfolding key_le
is_ordered [] = true
is_ordered (a ∷ []) = true
is_ordered (a ∷ b ∷ rest) = key_le a b && is_ordered (b ∷ rest)

unfoldable pub set_post_init : RunItemResolutionSet → Command RunItemResolutionSet
unfolding repeats_key is_ordered
set_post_init s = do
  raise_if (is_blank s.envelope.batch_id) (invalid entity "batch_id" "invalid")
  raise_if (is_blank s.envelope.run_id) (invalid entity "run_id" "invalid")
  raise_if (is_empty s.entries) (invalid entity "entries" "invalid")
  raise_if (repeats_key (map item_key s.entries)) (invalid entity "entries" "duplicate_key")
  raise_if (not (is_ordered (map item_key s.entries))) (invalid entity "entries" "not_ordered")
  ok s

-- `set(xs) <= set(ys)`.
unfoldable pub is_subset : List RunItemKey → List RunItemKey → Bool
unfolding key_eq
is_subset [] ys = true
is_subset (x ∷ xs) ys = any (key_eq x) ys && is_subset xs ys

unfoldable pub same_keys : List RunItemKey → List RunItemKey → Bool
unfolding is_subset
same_keys xs ys = is_subset xs ys && is_subset ys xs

unfoldable pub build_set :
    List RunItemKey → List RunItemResolution → Envelope → Command RunItemResolutionSet
unfolding repeats_key same_keys sort_by key_le set_post_init
build_set expected_item_keys entries envelope = do
  let entry_keys = map item_key entries
  raise_if (repeats_key entry_keys) (invalid entity "entries" "duplicate_key")
  raise_if (not (same_keys entry_keys expected_item_keys) || repeats_key expected_item_keys)
      (invalid entity "entries" "key_set_mismatch")
  set_post_init (record { envelope = envelope; entries = sort_by item_key key_le entries })

abbrev pub item_count : RunItemResolutionSet → ℕ
item_count s = length s.entries

abbrev envelope_payload : Envelope → Fields → Fields
envelope_payload e rest = member "batch_id" (str e.batch_id) (
    member "run_id" (str e.run_id) (
      member "source_run_version" (num (pos e.source_run_version)) (
        member "manifest_digest" (digest_json e.manifest_digest) (
          member "shard_plan_digest" (digest_json e.shard_plan_digest)
            (member "run_item_set_digest" (digest_json e.run_item_set_digest) rest)))))

abbrev entry_projection : String → (RunItemResolution → Json) → RunItemResolution → Json
entry_projection field projection r =
    obj (member "item_key" (key_json r.item_key) (member field (projection r) end))

-- The document of the original or the effective resolutions.
abbrev projection_json : String → String → (RunItemResolution → Json) → RunItemResolutionSet → Json
projection_json kind field projection s = obj (
    envelope_payload s.envelope (
      member "projection_kind" (str kind)
        (member "entries" (arr (json_items (entry_projection field projection) s.entries)) end)))

unfoldable pub original_resolution_set_digest : Hash → RunItemResolutionSet → Command Digest
unfolding canonical_digest
original_resolution_set_digest sha256 s =
    canonical_digest sha256 resolution_schema
      (projection_json "original_set" "original" (λ r. obj (original_payload r.original)) s)

unfoldable pub effective_resolution_set_digest : Hash → RunItemResolutionSet → Command Digest
unfolding canonical_digest
effective_resolution_set_digest sha256 s =
    canonical_digest sha256 resolution_schema
      (projection_json "effective_set" "effective" (λ r. obj (effective_payload r.effective)) s)

entries_payload : Hash → List RunItemResolution → Command Items
unfolding item_resolution_digest
entries_payload sha256 [] = ok nil
entries_payload sha256 (r ∷ rest) = do
  d ← item_resolution_digest sha256 r
  others ← entries_payload sha256 rest
  ok (item (obj (entry_payload r (member "item_resolution_digest" (digest_json d) end))) others)

set_payload : Hash → RunItemResolutionSet → Command Json
unfolding entries_payload original_resolution_set_digest effective_resolution_set_digest
set_payload sha256 s = do
  entries ← entries_payload sha256 s.entries
  original ← original_resolution_set_digest sha256 s
  effective ← effective_resolution_set_digest sha256 s
  ok (
      obj (
        envelope_payload s.envelope (
          member "attempt_chain_digest" (digest_json s.envelope.attempt_chain_digest) (
            member "retry_chain_digest" (optional digest_json s.envelope.retry_chain_digest) (
              member "adjudication_chain_digest"
                (optional digest_json s.envelope.adjudication_chain_digest)
                (member "entries" (arr entries) (
                  member "item_count" (num (pos (item_count s))) (
                    member "original_resolution_set_digest" (digest_json original)
                      (member "effective_resolution_set_digest" (digest_json effective) end)))))))))

unfoldable pub resolution_set_digest : Hash → RunItemResolutionSet → Command Digest
unfolding set_payload canonical_digest
resolution_set_digest sha256 s = do
  payload ← set_payload sha256 s
  canonical_digest sha256 resolution_schema payload

abbrev pub precedence : RunOutcome → ℕ
precedence outcome_passed = 0
precedence outcome_cancelled = 1
precedence outcome_test_failed = 2
precedence outcome_infra_failed = 3

-- `max(outcomes, key=precedence)`, which keeps the first of the greatest.
unfoldable pub worst : RunOutcome → List RunItemResolution → RunOutcome
worst best [] = best
worst best (r ∷ rest) =
    worst
      (if ltb (precedence best) (precedence r.effective.outcome) then r.effective.outcome else best)
      rest

-- `none` stands for the exception of `max` without values.
unfoldable pub audit_outcome : RunItemResolutionSet → Option RunOutcome
unfolding worst
audit_outcome s = first_worst s.entries
  where
    first_worst : List RunItemResolution → Option RunOutcome
    first_worst [] = none
    first_worst (r ∷ rest) = some (worst r.effective.outcome rest)
