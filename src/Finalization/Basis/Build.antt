-- ===== src/Finalization/Basis/Build.antt =====
-- `RunFinalizationBasis.build`: a basis for a resolution set.
use qarunner.Prelude.{Option, none, not, raise_if, some, ℕ, ◌&&◌, ◌==◌, ◌>>=◌, ◌>>◌}
use qarunner.Values.{Command, Digest, digest_eq, invalid}
use qarunner.Values.Canonical.{Hash}
use qarunner.Finalization.{TerminalInputKind, input_prestart}
use qarunner.Finalization.ResolutionSet.{
  RunItemResolutionSet, effective_resolution_set_digest, item_count, original_resolution_set_digest,
  resolution_set_digest,
}
use qarunner.Finalization.Basis.{BasisValues, RunFinalizationBasis, entity}
use qarunner.Finalization.Basis.Inputs.{basis_post_init}

abbrev pub chain_digest : TerminalInputKind → Digest → Option Digest
chain_digest input_prestart d = none
chain_digest _ d = some d

-- The fields that are computed from the set.
abbrev pub basis_of :
    (resolution_set : RunItemResolutionSet) (resolutions originals effectives : Digest)
    (values : BasisValues)
    → RunFinalizationBasis
basis_of resolution_set resolutions originals effectives values = record {
  run_id = resolution_set.envelope.run_id;
  batch_id = resolution_set.envelope.batch_id;
  source_run_version = resolution_set.envelope.source_run_version;
  manifest_digest = resolution_set.envelope.manifest_digest;
  shard_plan_digest = resolution_set.envelope.shard_plan_digest;
  run_item_set_digest = resolution_set.envelope.run_item_set_digest;
  attempt_chain_digest =
      chain_digest values.terminal_input_kind resolution_set.envelope.attempt_chain_digest;
  adjudication_chain_digest = resolution_set.envelope.adjudication_chain_digest;
  retry_chain_digest = resolution_set.envelope.retry_chain_digest;
  item_resolution_set_digest = resolutions;
  original_resolution_set_digest = originals;
  effective_resolution_set_digest = effectives;
  item_count = item_count resolution_set;
  values = values;
}

unfoldable pub build_basis :
    Hash
    → (resolution_set : RunItemResolutionSet)
    → (manifest_digest shard_plan_digest run_item_set_digest : Digest) → (source_run_version : ℕ)
    → BasisValues
    → Command RunFinalizationBasis
unfolding digest_eq resolution_set_digest original_resolution_set_digest
    effective_resolution_set_digest basis_post_init
build_basis sha256 resolution_set manifest_digest shard_plan_digest run_item_set_digest
      source_run_version values =
    do
      raise_if
          (not (
            digest_eq manifest_digest resolution_set.envelope.manifest_digest
            && digest_eq shard_plan_digest resolution_set.envelope.shard_plan_digest
            && digest_eq run_item_set_digest resolution_set.envelope.run_item_set_digest
            && source_run_version == resolution_set.envelope.source_run_version))
          (invalid entity "resolution_set" "envelope_mismatch")
      resolutions ← resolution_set_digest sha256 resolution_set
      originals ← original_resolution_set_digest sha256 resolution_set
      effectives ← effective_resolution_set_digest sha256 resolution_set
      basis_post_init (basis_of resolution_set resolutions originals effectives values)
