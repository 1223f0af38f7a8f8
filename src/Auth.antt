-- ===== src/Auth.antt =====
-- app/main.py: the middleware that asks for the bearer token. A request is its path and its
-- `authorization` header, which is empty where there is none.
pub mod Guarded
use aa_metadata_worker.Prelude.{
  ℕ, Text, Bool, true, false, Option, none, some, List, [], ◌∷◌, ◌&&◌, ◌||◌, not, codes, ◌==◌,
  text_eq, nonempty, ltb, contains, is_some, if◌then◌else◌,
}
use aa_metadata_worker.Result.{Exception, error, Result, ok, err, ◌>>=◌}
use aa_metadata_worker.Unicode.{Unicode}
use aa_metadata_worker.Normalize.{strip}
use aa_metadata_worker.Discovery.{strip_prefix}
use aa_metadata_worker.Control.{Response, answer, refuse}

pub record Request : Type 0 where
  pub path : Text
  pub authorization : Text

-- `s.startswith(prefix)`
unfoldable pub startswith : Text → Text → Bool
unfolding strip_prefix
startswith prefix s = is_some (strip_prefix prefix s)

abbrev pub open_paths : List Text
open_paths =
    codes "/" ∷ codes "/dashboard" ∷ codes "/openapi.json" ∷ codes "/docs" ∷ codes "/redoc" ∷ []

unfoldable pub auth_exempt : Text → Bool
unfolding startswith
auth_exempt path =
    startswith (codes "/api/v1/health") path
    || path == codes "/api/v1/sync/status"
    || path == codes "/api/v1/sync/control"
    || contains path open_paths
    || startswith (codes "/docs/") path

abbrev pub is_ascii : Text → Bool
is_ascii [] = true
is_ascii (c ∷ s) = ltb c 128 && is_ascii s

abbrev pub not_ascii : Exception
not_ascii =
    error (codes "TypeError") (codes "comparing strings with non-ASCII characters is not supported")

-- `hmac.compare_digest` of two strings
unfoldable pub compare_digest : Text → Text → Result Bool
compare_digest a b = if is_ascii a && is_ascii b then ok (a == b) else err not_ascii

-- The token of a header.
unfoldable pub provided_token : Unicode → Text → Text
unfolding strip_prefix strip
provided_token u authorization = elim (strip_prefix (codes "Bearer ") authorization) [
  | none ↦ []
  | some token ↦ strip u.is_space token
]

module _ {A : Type 0} where
  abbrev pub unauthorized : Response A
  unauthorized = refuse 401 (codes "Missing or invalid bearer token")

  unfoldable pub bearer_auth :
      Unicode → Text → (Request → Result (Response A)) → Request → Result (Response A)
  bearer_auth u expected call_next request =
      if nonempty expected && not (auth_exempt request.path)
      then (let provided = provided_token u request.authorization in
          if not (nonempty provided) then ok unauthorized else do
            equal ← compare_digest provided expected
            if equal then call_next request else ok unauthorized)
      else call_next request
