-- ===== src/Evidence/Ordering.antt =====
-- The canonical order of artifacts: sorted by the bytes of their paths, which is the order of the
-- code points, and no path twice.
pub mod Canonical
use qarunner.Prelude.{Bool, List, [], codes, false, ltb, same, true, ℕ, ◌&&◌, ◌==◌, ◌||◌, ◌∷◌}
use qarunner.Prelude.Sorting.{has_clash, sort_by}
use qarunner.Evidence.FilePath.{ArtifactPath}
use qarunner.Values.{Digest}

pub data ArtifactClass : Type 0 where
  structured_result : ArtifactClass
  log : ArtifactClass
  screenshot : ArtifactClass
  video : ArtifactClass
  trace : ArtifactClass
  report : ArtifactClass
  diagnostic : ArtifactClass

pub record VerifiedArtifact : Type 0 where
  pub path : ArtifactPath
  pub content_class : ArtifactClass
  pub size_bytes : ℕ
  pub digest : Digest

unfoldable pub codes_le : List ℕ → List ℕ → Bool
codes_le [] bs = true
codes_le (a ∷ xs) [] = false
codes_le (a ∷ xs) (b ∷ bs) = ltb a b || a == b && codes_le xs bs

abbrev pub key : VerifiedArtifact → List ℕ
key a = codes a.path.value

-- `sorted(artifacts, key=…)`.
unfoldable pub sorted : List VerifiedArtifact → List VerifiedArtifact
unfolding sort_by
sorted = sort_by key codes_le

abbrev pub clashes : VerifiedArtifact → VerifiedArtifact → Bool
clashes a b = same a.path.value b.path.value

-- `len(set(paths)) != len(paths)`.
unfoldable pub has_duplicate_path : List VerifiedArtifact → Bool
unfolding has_clash
has_duplicate_path = has_clash clashes
