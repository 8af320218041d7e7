-- ===== src/Api/Sessions.antt =====
-- The handlers of internal/api/server.go under /auth. The two that issue tokens have a token service: without one
-- their code dereferences a nil pointer.
use pennant.Prelude.{ℕ, String, Option, none, some, not, if◌then◌else◌}
use pennant.Prelude.Int.{pos}
use pennant.Auth.{
  User, UserStore, get_by_email, get_by_id, issue_refresh_token, validate_refresh_token,
}
use pennant.Auth.Middleware.{Claims, JwtService}
use pennant.Api.Types.{
  Server, Wire, Call, TokenPair, Handled, respond, decoded, problem, tokens_body, user_body,
}

abbrev pub claims_of : User → Claims
claims_of u = record { user_id = u.id; email = u.email; name = u.name; role = u.role }

abbrev pub token_pair : String → String → TokenPair
token_pair access refresh = record {
  access_token = access;
  refresh_token = refresh;
  expires_in = pos 3600;
  token_type = "Bearer";
}

-- `_, ok :=`, where a missing value is answered with an error.
abbrev pub found : {F A : Type 0} → Server F → ℕ → String → Option A → (A → Handled F) → Handled F
found s status message none next = respond s status (problem message)
found s status message (some a) next = next a

module _ {F : Type 0} (wire : Wire F) (jwt : JwtService) (call : Call) where
  abbrev pub with_users : UserStore → Server F → Server F
  with_users users s = record s { users = users }

  -- The end of both handlers: a token pair, and the refresh token in the store.
  unfoldable pub issue_pair : User → Server F → Handled F
  issue_pair u s = found s 500 "could not issue token" (jwt.issue (claims_of u)) λ access.
      respond (with_users (issue_refresh_token call.random call.now s.users u.id) s) 200
        (tokens_body (token_pair access call.random))

  unfoldable pub auth_login : Server F → Handled F
  auth_login s = decoded s (wire.decode_login call.body) λ req.
      found s 401 "invalid credentials" (get_by_email s.users req.email) λ u.
        if not (wire.check_password u.password_hash req.password)
        then respond s 401 (problem "invalid credentials")
        else issue_pair u s

  -- The refresh token is gone before the user is looked up.
  unfoldable pub auth_refresh : Server F → Handled F
  auth_refresh s = decoded s (wire.decode_refresh call.body) λ token.
      let shown = validate_refresh_token call.now s.users token in
      let s' = with_users shown.1 s in
      found s' 401 "invalid or expired refresh token" shown.0
        λ user_id. found s' 401 "user not found" (get_by_id s'.users user_id) λ u. issue_pair u s'

abbrev pub me_of : {F : Type 0} → Server F → Option Claims → Handled F
me_of s none = respond s 401 (problem "not authenticated")
me_of s (some claims) =
    found s 404 "user not found" (get_by_id s.users claims.user_id) λ u. respond s 200 (user_body u)

unfoldable pub auth_me : {F : Type 0} → Call → Server F → Handled F
auth_me call s = me_of s call.claims
