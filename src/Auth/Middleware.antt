-- ===== src/Auth/Middleware.antt =====
-- backend/internal/auth/middleware.go: the token of a request and the checks on its account.
use finance_app.Base.{ℕ, not, Option, none, some, List, [], ◌∷◌, if◌then◌else◌, ◌==◌}
use finance_app.Base.Text.{Text, codes, trim_space, is_empty}
use finance_app.Base.Assoc.{Map, lookup}
use finance_app.Base.Result.{ok, err}
use finance_app.Auth.Defs.{is_banned}
use finance_app.Auth.Repository.Defs.{Repository, find_by_id}
use finance_app.Auth.Service.Defs.{Service, parse}

-- What is read of a request: its cookies in order, and the header `Authorization`.
pub record Request : Type 0 where
  pub cookies : Map Text
  pub authorization : Text

abbrev pub session_cookie_name : Text
session_cookie_name = codes "__Host-finance_session"

abbrev pub development_session_cookie_name : Text
development_session_cookie_name = codes "finance_session"

-- `strings.HasPrefix` with `strings.TrimPrefix`: what stands after a prefix.
unfoldable pub after_prefix : Text → Text → Option Text
after_prefix [] s = some s
after_prefix (_ ∷ _) [] = none
after_prefix (c ∷ p) (d ∷ s) = let rest = after_prefix p s in if c == d then rest else none

unfoldable pub bearer_token : Text → Option Text
unfolding after_prefix
bearer_token header = elim (after_prefix (codes "Bearer ") header) [
  | none ↦ none
  | some rest ↦ if is_empty (trim_space rest) then none else some (trim_space rest)
]

-- The loop over the two cookie names, then the header.
unfoldable pub session_token_from : List Text → Request → Option Text
session_token_from [] q = bearer_token q.authorization
session_token_from (name ∷ names) q =
    let rest = session_token_from names q in
    elim (lookup name q.cookies) [
      | none ↦ rest
      | some value ↦ if is_empty (trim_space value) then rest else some value
    ]

unfoldable pub session_token : Request → Option Text
unfolding session_token_from
session_token q = session_token_from (session_cookie_name ∷ development_session_cookie_name ∷ []) q

-- The answers of the middleware: 401, 403, or the handler with the user id of the context.
pub data Access : Type 0 where
  unauthorized : Access
  forbidden : Access
  admitted : Text → Access

unfoldable pub require_auth_with_user : {X : Type 0} → Service X → ℕ → Request → Repository → Access
require_auth_with_user s now q r = elim (session_token q) [
  | none ↦ Access.unauthorized
  | some token ↦ elim (parse s now token) [
    | err _ ↦ Access.unauthorized
    | ok claims ↦ elim (find_by_id claims.user_id r) [
      | err _ ↦ Access.unauthorized
      | ok u ↦
          if not (u.auth_version == claims.auth_version)
          then Access.unauthorized
          else if is_banned u
          then Access.forbidden
          else Access.admitted claims.user_id
    ]
  ]
]
