-- ===== src/Values/Canonical.antt =====
-- `canonical_digest` of domain/digest.py. The SHA-256 of the serialised document is a parameter; a
-- time stands for its ISO text.
use qarunner.Prelude.{
  Bool, List, Option, String, [], leb, ltb, negsuc, none, not, ok, pos, raise_if, some, true, ℕ, ℤ,
  ◌&&◌, ◌>>◌, ◌∷◌,
}
use qarunner.Values.Time.{DateTime}
use qarunner.Values.Identity.{Digest, WorkerRef}
use qarunner.Values.Errors.{Command, canonicalization}

mutual
  pub data Json : Type 0 where
    null : Json
    bool : Bool → Json
    num : ℤ → Json
    str : String → Json
    time : DateTime → Json
    arr : Items → Json
    obj : Fields → Json

  pub data Items : Type 0 where
    nil : Items
    item : Json → Items → Items

  pub data Fields : Type 0 where
    end : Fields
    member : String → Json → Fields → Fields

-- `hashlib.sha256(json.dumps({"payload": …, "schema_version": …}))`.
abbrev pub Hash : Type 0
Hash = (schema_version : String) (payload : Json) → Digest

-- `abs(value) > 9_007_199_254_740_991`, negated.
abbrev pub is_safe_integer : ℤ → Bool
is_safe_integer (pos n) = leb n 9007199254740991
is_safe_integer (negsuc n) = ltb n 9007199254740991

-- The refusals of `canonical_digest` that depend on the payload. Of its texts the model leaves one out:
-- that of a string which UTF-8 cannot encode, that is one with a lone surrogate. Texts are taken to be
-- encodable.
unfoldable mutual
  pub is_valid_json : Json → Bool
  is_valid_json (num z) = is_safe_integer z
  is_valid_json (arr xs) = are_valid_items xs
  is_valid_json (obj fs) = are_valid_fields fs
  is_valid_json null = true
  is_valid_json (bool b) = true
  is_valid_json (str s) = true
  is_valid_json (time t) = true

  pub are_valid_items : Items → Bool
  are_valid_items nil = true
  are_valid_items (item x xs) = is_valid_json x && are_valid_items xs

  pub are_valid_fields : Fields → Bool
  are_valid_fields end = true
  are_valid_fields (member k x fs) = is_valid_json x && are_valid_fields fs

unfoldable pub canonical_digest : Hash → String → Json → Command Digest
canonical_digest sha256 schema_version payload = do
  raise_if (not (is_valid_json payload)) (canonicalization "integer exceeds I-JSON safe range")
  ok (sha256 schema_version payload)

abbrev pub optional {ℓ} : {A : Type ℓ} → (A → Json) → Option A → Json
optional f none = null
optional f (some a) = f a

-- The two forms that the payloads repeat.
abbrev pub digest_json : Digest → Json
digest_json d = str d.value

abbrev pub num? : Option ℕ → Json
num? = optional (λ n. num (pos n))

abbrev pub json_items {ℓ} : {A : Type ℓ} → (A → Json) → List A → Items
json_items f [] = nil
json_items f (a ∷ rest) = item (f a) (json_items f rest)

abbrev pub worker_json : WorkerRef → Json
worker_json w =
    obj (member "worker_id" (str w.worker_id) (member "generation" (num (pos w.generation)) end))
