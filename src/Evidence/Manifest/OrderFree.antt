-- ===== src/Evidence/Manifest/OrderFree.antt =====
-- The evidence of an Attempt does not depend on the order in which its artifacts were uploaded.
use mathlib.Core.List.{Permᴰ}
use qarunner.Prelude.{
  Bool-cases, List, Option, inl, inr, none, raised, refl, some, sym, true, ◌>>=◌, ◌∙◌, ◌≡◌,
}
use qarunner.Values.{artifact_invalid}
use qarunner.Values.Canonical.{Hash}
use qarunner.Evidence.Stop.{TrustedCancellationStop}
use qarunner.Evidence.Classify.{TrustedExitFacts, ValidatedCaseSummary}
use qarunner.Evidence.Payload.{Subject}
use qarunner.Evidence.Ordering.{VerifiedArtifact, has_duplicate_path}
use qarunner.Evidence.Ordering.Canonical.{has_duplicate_path-perm, sorted-perm, sorted-permᴰ}
use qarunner.Evidence.Manifest.{build_evidence_manifest, build_from, ensure_stop_binding}

module _ (sha256 : Hash) (a : Subject) (e : TrustedExitFacts)
    (summary : Option ValidatedCaseSummary) (stop : Option TrustedCancellationStop) where
  build_from_duplicate :
      (xs : List VerifiedArtifact)
      → has_duplicate_path xs ≡ true
      → build_from sha256 a e summary xs stop ≡ (
          ensure_stop_binding a e stop >>= λ _.
          raised (artifact_invalid "path" "must be unique within an Attempt"))
  unfolding build_from
  build_from_duplicate xs h = rw (has_duplicate_path-perm (sorted-permᴰ xs), h)

  build_from-permᴰ :
      {xs ys : List VerifiedArtifact}
      → Permᴰ xs ys
      → build_from sha256 a e summary xs stop ≡ build_from sha256 a e summary ys stop
  build_from-permᴰ {xs} {ys} p = elim (Bool-cases (has_duplicate_path xs)) [
    | inl h ↦
        build_from_duplicate xs h
        ∙ sym (build_from_duplicate ys (sym (has_duplicate_path-perm p) ∙ h))
    | inr h ↦ unfold build_from in rw (sorted-perm p h)
  ]

-- Two orders of the same artifacts give the same result: the same evidence with the same root
-- digest, or the same refusal.
pub build_evidence_manifest-perm :
    (sha256 : Hash) (a : Subject) (exit_facts : Option TrustedExitFacts)
    (summary : Option ValidatedCaseSummary) (stop : Option TrustedCancellationStop)
    {xs ys : List VerifiedArtifact}
    → Permᴰ xs ys
    → build_evidence_manifest sha256 a exit_facts summary xs stop
      ≡ build_evidence_manifest sha256 a exit_facts summary ys stop
unfolding build_evidence_manifest
build_evidence_manifest-perm sha256 a none summary stop p = refl
build_evidence_manifest-perm sha256 a (some e) summary stop p =
    build_from-permᴰ sha256 a e summary stop p
