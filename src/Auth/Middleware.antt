-- ===== src/Auth/Middleware.antt =====
-- internal/auth/middleware.go: who a request comes from, and what a role may do. The signing and checking of
-- tokens (jwt.go) is a parameter.
use Prim.Native.String.{len, slice}
use pennant.Prelude.{String, Option, none, some, Bool, false, not, ◌==◌, ltb, if◌then◌else◌}
use pennant.Prelude.Texts.{has_prefix}
use pennant.Auth.{Role, role_level}

pub record Claims : Type 0 where
  pub user_id : String
  pub email : String
  pub name : String
  pub role : Role

-- `Verify` and `Issue`, with `none` for an error
pub record JwtService : Type 0 where
  pub verify : String → Option Claims
  pub issue : Claims → Option String

-- The header is `r.Header.Get("Authorization")`.
unfoldable pub extract_bearer : String → String
extract_bearer h = if has_prefix h "Bearer " then slice h 7 (len h) else ""

-- What `Middleware` answers, or the claims that it hands on.
pub data Identity : Type 0 where
  missing_token invalid_token : Identity
  known : Claims → Identity

abbrev pub verified : Option Claims → Identity
verified none = invalid_token
verified (some claims) = known claims

unfoldable pub identify : JwtService → String → Identity
identify jwt header =
    let token = extract_bearer header in
    if token == "" then missing_token else verified (jwt.verify token)

-- `RequireRole` passes the request on: it has claims, and their role is not below the least one.
unfoldable pub has_role : Role → Option Claims → Bool
has_role min_role none = false
has_role min_role (some claims) = not (ltb (role_level claims.role) (role_level min_role))
