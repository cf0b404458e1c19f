-- ===== src/Evidence/FilePath.antt =====
-- `ArtifactPath`: the logical path of an artifact, and what its constructor accepts.
pub mod Safety
use qarunner.Prelude.{
  Bool, List, String, [], any, codes, false, is_empty, ok, raise_if, true, ℕ, ◌&&◌, ◌++◌, ◌==◌,
  ◌>>◌, ◌∷◌,
}
use qarunner.Values.{Command, artifact_invalid}

pub record ArtifactPath : Type 0 where
  pub value : String

-- `value.split("/")`, on code points.
unfoldable pub split_slash : List ℕ → List ℕ → List (List ℕ)
split_slash segment [] = segment ∷ []
split_slash segment (c ∷ cs) = elim (c == b'/') [
  | true ↦ segment ∷ split_slash [] cs
  | false ↦ split_slash (segment ++ c ∷ []) cs
]

abbrev is_slash : ℕ → Bool
is_slash c = c == b'/'

abbrev starts_with_slash : List ℕ → Bool
starts_with_slash [] = false
starts_with_slash (c ∷ cs) = is_slash c

-- `segment in {"", ".", ".."}`.
abbrev pub is_unsafe_segment : List ℕ → Bool
is_unsafe_segment [] = true
is_unsafe_segment (a ∷ []) = a == b'.'
is_unsafe_segment (a ∷ b ∷ []) = a == b'.' && b == b'.'
is_unsafe_segment (a ∷ b ∷ c ∷ cs) = false

abbrev pub segments : ArtifactPath → List (List ℕ)
segments p = split_slash [] (codes p.value)

unfoldable pub path_post_init : ArtifactPath → Command ArtifactPath
path_post_init p = do
  raise_if (is_empty (codes p.value)) (artifact_invalid "path" "must not be empty")
  raise_if (starts_with_slash (codes p.value)) (artifact_invalid "path" "must be relative")
  raise_if (any (λ c. c == 0) (codes p.value)) (artifact_invalid "path" "must not contain NUL")
  raise_if (any (λ c. c == 92) (codes p.value))
      (artifact_invalid "path" "must use POSIX separators")
  raise_if (any is_unsafe_segment (segments p))
      (artifact_invalid "path" "contains an unsafe segment")
  ok p
