-- ===== src/Auth.antt =====
-- internal/auth: who may send a request. The results of auth.go, the API key of apikey.go and the
-- chain of chain.go.
pub mod Chain
use cc_relay.Base.{Bool, true, false, not, List, [], ◌∷◌, String, Lo, str_eq, if◌then◌else◌}

pub data AuthType : Type 0 where
  type_api_key type_bearer type_none : AuthType

pub record AuthResult : Type 0 where
  pub auth_type : AuthType
  pub error : String
  pub token : String
  pub valid : Bool

-- A result of `Validate` that does not let the request pass.
abbrev pub invalid : AuthType → String → AuthResult
invalid t message = record { auth_type = t; error = message; token = ""; valid = false }

-- `crypto/sha256`, and `subtle.ConstantTimeCompare` on two digests.
pub record Hash : Type 1 where
  pub Digest : Type 0
  pub sum256 : String → Digest
  pub same_digest : Digest → Digest → Bool

pub record ApiKeyAuthenticator (hash : Hash) : Type 0 where
  pub expected_hash : hash.Digest

unfoldable pub new_api_key_authenticator : (hash : Hash) → String → ApiKeyAuthenticator hash
new_api_key_authenticator hash expected_key = record { expected_hash = hash.sum256 expected_key }

-- On the header `x-api-key`, which is empty when it is missing.
unfoldable pub validate_api_key : (hash : Hash) → ApiKeyAuthenticator hash → String → AuthResult
validate_api_key hash a provided_key =
    if str_eq provided_key ""
    then invalid type_api_key "missing x-api-key header"
    else if not (hash.same_digest (hash.sum256 provided_key) a.expected_hash)
    then invalid type_api_key "invalid x-api-key"
    else record { auth_type = type_api_key; error = ""; token = ""; valid = true }

unfoldable pub normalize : AuthResult → AuthResult
normalize result = if not result.valid then invalid type_none result.error else result

-- An authenticator is its method `Validate`.
module _ {Request : Type 0} where
  -- The function that the chain folds with.
  unfoldable pub try_next : Request → AuthResult → (Request → AuthResult) → AuthResult
  try_next request acc validate = if acc.valid then acc else validate request

  unfoldable pub validate_chain : Lo → List (Request → AuthResult) → Request → AuthResult
  validate_chain lo [] request = invalid type_none "no authentication configured"
  validate_chain lo (a ∷ xs) request =
      normalize (lo.reduce (try_next request) (invalid type_none "") (a ∷ xs))
