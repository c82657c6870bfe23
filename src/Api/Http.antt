-- ===== src/Api/Http.antt =====
-- What the handlers share: the status of an error (internal/apierror/errors.go), the account of a
-- request (GetAccountID and GetUsername of internal/middleware/jwt/jwt.go) and the shape of an answer. The body of a
-- request comes bound, or as the error of its binding; the context has an account id and a name, or
-- not.
use go_video.Prelude.{
  ℕ, Bool, Option, none, some, Result, ok, err, Error, message, record_not_found, unauthorized,
  validation, Act, pure, if◌then◌else◌,
}
use go_video.Prelude.Text.{Text}

-- A body with status 200, or an error with its status.
pub data Response (A : Type 0) : Type 0 where
  answered : A → Response A
  failed : ℕ → Error → Response A

abbrev pub classify_http_status : Option Error → ℕ
classify_http_status none = 200
classify_http_status (some unauthorized) = 401
classify_http_status (some validation) = 400
classify_http_status (some record_not_found) = 404
classify_http_status (some _) = 500

abbrev pub get_account_id : Option ℕ → Result ℕ
get_account_id none = err (message "accountID not found")
get_account_id (some account_id) = ok account_id

abbrev pub get_username : Option Text → Result Text
get_username none = err (message "username not found")
get_username (some username) = ok username

abbrev pub classified : {A : Type 0} → Error → Response A
classified e = failed (classify_http_status (some e)) e

-- The answer to the result of a service, where every error has one status.
abbrev pub respond : {A : Type 0} → ℕ → Result A → Response A
respond status (ok a) = answered a
respond status (err e) = failed status e

abbrev pub respond_classified : {A : Type 0} → Result A → Response A
respond_classified (ok a) = answered a
respond_classified (err e) = classified e

-- What an early return answers for an error, and what follows for a value.
unfoldable pub or_return :
    {W A B : Type 0}
    → (Error → Response B)
    → Result A
    → (A → Act W (Response B))
    → Act W (Response B)
or_return early (ok a) next = next a
or_return early (err e) next = pure (early e)

unfoldable pub unless_bad : {W B : Type 0} → Bool → Error → Act W (Response B) → Act W (Response B)
unless_bad bad e next = if bad then pure (failed 400 e) else next
