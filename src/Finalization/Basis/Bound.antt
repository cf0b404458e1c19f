-- ===== src/Finalization/Basis/Bound.antt =====
-- A basis is bound to the resolution set that it was built for.
use mathlib.Core.Path.{subst}
use qarunner.Finalization.{
  TerminalInputKind, input_adjudication, input_prestart, verified_cancellation_evidence,
  verified_evidence,
}
use qarunner.Prelude.{
  >>=-eq-ok, Bool, arith, length, none, not, ok, raise_if, refl, some, ℕ, ◌&&◌, ◌==◌, ◌≡◌,
}
use qarunner.Values.{Digest, digest_eq, invalid}
use qarunner.Values.Canonical.{Hash}
use qarunner.Finalization.ResolutionSet.{
  RunItemResolutionSet, effective_resolution_set_digest, original_resolution_set_digest,
  resolution_set_digest,
}
use qarunner.Finalization.Basis.{BasisValues, RunFinalizationBasis}
use qarunner.Finalization.Basis.Inputs.{basis_post_init}
use qarunner.Finalization.Basis.Build.{basis_of, build_basis, chain_digest}
use qarunner.Values.Laws.{digest_eq_iff}
use qarunner.Finalization.Basis.Matrix.{Justified, basis_post_init-Justified}

-- The digest of the chain of Attempts is the set's, unless no Attempt was started.
abbrev pub AttemptChain : TerminalInputKind → RunItemResolutionSet → RunFinalizationBasis → Type 0
AttemptChain input_prestart s b = b.attempt_chain_digest ≡ none
AttemptChain _ s b = b.attempt_chain_digest ≡ some s.envelope.attempt_chain_digest

-- The basis names the set's run and batch and carries the set's digests and count.
pub record BoundTo (sha256 : Hash) (s : RunItemResolutionSet) (b : RunFinalizationBasis)
    : Type 0 where
  of_run : (b.run_id ≡ s.envelope.run_id) × (b.batch_id ≡ s.envelope.batch_id)
  of_version : b.source_run_version ≡ s.envelope.source_run_version
  of_manifest : b.manifest_digest ≡ s.envelope.manifest_digest
  of_shard_plan : b.shard_plan_digest ≡ s.envelope.shard_plan_digest
  of_items : b.run_item_set_digest ≡ s.envelope.run_item_set_digest
  of_retries : b.retry_chain_digest ≡ s.envelope.retry_chain_digest
  of_adjudications : b.adjudication_chain_digest ≡ s.envelope.adjudication_chain_digest
  of_attempts : AttemptChain b.values.terminal_input_kind s b
  resolutions : resolution_set_digest sha256 s ≡ ok b.item_resolution_set_digest
  originals : original_resolution_set_digest sha256 s ≡ ok b.original_resolution_set_digest
  effectives : effective_resolution_set_digest sha256 s ≡ ok b.effective_resolution_set_digest
  counted : b.item_count ≡ length s.entries

basis_post_init-same : (b v : RunFinalizationBasis) → basis_post_init b ≡ ok v → b ≡ v
unfolding basis_post_init
basis_post_init-same b v h = ground arith

module _ (sha256 : Hash) (s : RunItemResolutionSet) (manifest shard_plan item_set : Digest)
    (version : ℕ) (values : BasisValues) where
  -- What the caller names must be what the set holds.
  abbrev pub Named : Type 0
  Named =
      (manifest ≡ s.envelope.manifest_digest)
      × (shard_plan ≡ s.envelope.shard_plan_digest)
      × (item_set ≡ s.envelope.run_item_set_digest)
      × (version ≡ s.envelope.source_run_version)

  build_basis-parts :
      (b : RunFinalizationBasis)
      → build_basis sha256 s manifest shard_plan item_set version values ≡ ok b
      → Named
        × ((r o e : Digest) × (resolution_set_digest sha256 s ≡ ok r)
            × (original_resolution_set_digest sha256 s ≡ ok o)
            × (effective_resolution_set_digest sha256 s ≡ ok e)
            × (basis_post_init (basis_of s r o e values) ≡ ok b))
  unfolding build_basis
  build_basis-parts b h =
      let (u, f, g) =
        >>=-eq-ok (raise_if (not (names manifest shard_plan item_set version)) _) _ h in
      let (r, i, j) = >>=-eq-ok (resolution_set_digest sha256 s) _ g in
      let (o, k, l) = >>=-eq-ok (original_resolution_set_digest sha256 s) _ j in
      let (e, m, n) = >>=-eq-ok (effective_resolution_set_digest sha256 s) _ l in
      (named f, (r, o, e, i, k, m, n))
    where
      names : Digest → Digest → Digest → ℕ → Bool
      names a b c v =
          digest_eq a s.envelope.manifest_digest
          && digest_eq b s.envelope.shard_plan_digest
          && digest_eq c s.envelope.run_item_set_digest
          && v == s.envelope.source_run_version

      named :
          raise_if
              (not (names manifest shard_plan item_set version))
              (invalid "run_finalization_basis" "resolution_set" "envelope_mismatch")
            ≡ ok tt
          → Named
      named f = ground (
        arith,
        digest_eq_iff manifest s.envelope.manifest_digest,
        digest_eq_iff shard_plan s.envelope.shard_plan_digest,
        digest_eq_iff item_set s.envelope.run_item_set_digest,
      )

  bind :
      (b : RunFinalizationBasis) (r o e : Digest)
      → resolution_set_digest sha256 s ≡ ok r
      → original_resolution_set_digest sha256 s ≡ ok o
      → effective_resolution_set_digest sha256 s ≡ ok e
      → basis_of s r o e values ≡ b
      → BoundTo sha256 s b × (b.values ≡ values)
  bind b r o e h k m n =
      subst (λ (z : RunFinalizationBasis). BoundTo sha256 s z × (z.values ≡ values)) n
        (
          record {
            of_run = (refl, refl);
            of_version = refl;
            of_manifest = refl;
            of_shard_plan = refl;
            of_items = refl;
            of_retries = refl;
            of_adjudications = refl;
            of_attempts = chained values.terminal_input_kind;
            resolutions = h;
            originals = k;
            effectives = m;
            counted = refl;
          },
          refl,
        )
    where
      chained :
          (kind : TerminalInputKind)
          → AttemptChain kind s (record (basis_of s r o e values) {
            attempt_chain_digest = chain_digest kind s.envelope.attempt_chain_digest;
          })
      chained input_prestart = refl
      chained verified_evidence = refl
      chained verified_cancellation_evidence = refl
      chained input_adjudication = refl

  -- A basis is only built for the manifest, the shard plan, the items and the version that the set
  -- holds. It then names the set's run and batch, carries its manifest, shard plan and item digests,
  -- those of its chains of retries, adjudications and, unless no Attempt was started, Attempts, the
  -- computed digests of its resolutions and its number of entries. It keeps the given values, and
  -- meets what its input kind asks of an accepted basis.
  pub build_basis-BoundTo :
      (b : RunFinalizationBasis)
      → build_basis sha256 s manifest shard_plan item_set version values ≡ ok b
      → Named × BoundTo sha256 s b × (b.values ≡ values) × Justified b.values.terminal_input_kind b
  build_basis-BoundTo b h =
      let (named, (r, o, e, i, k, m, n)) = build_basis-parts b h in
      let (bound, kept) = bind b r o e i k m (basis_post_init-same _ b n) in
      (named, bound, kept, justified (basis_post_init-same _ b n) n)
    where
      justified :
          {a : RunFinalizationBasis}
          → a ≡ b
          → basis_post_init a ≡ ok b
          → Justified b.values.terminal_input_kind b
      justified {a} e n =
          subst (λ (z : RunFinalizationBasis). Justified z.values.terminal_input_kind z) e
            (basis_post_init-Justified a b n).1
