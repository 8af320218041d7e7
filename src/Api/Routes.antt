-- ===== src/Api/Routes.antt =====
-- The management routes of internal/api/server.go, buildRouter: what each needs and which handler it has, behind the
-- middleware that checks the token and the role. CORS stands here too. Rate limits and metrics are left out.
pub mod Access
pub mod Errors
pub mod Keys
use pennant.Prelude.{
  String, Option, none, some, List, [], ◌∷◌, Bool, true, false, not, ◌&&◌, ◌||◌, ◌==◌, member,
  if◌then◌else◌,
}
use pennant.Auth.{Role, viewer, editor, admin}
use pennant.Auth.Middleware.{
  Claims, JwtService, Identity, missing_token, invalid_token, known, identify, has_role,
}
use pennant.Api.Types.{Server, Wire, Call, Handled, respond, problem}
use pennant.Api.Projects.{
  handle_list_projects, handle_create_project, handle_get_project, handle_update_project,
  handle_delete_project, handle_list_environments, handle_create_environment,
  handle_update_environment, handle_delete_environment,
}
use pennant.Api.SdkKeys.{handle_list_sdk_keys, handle_create_sdk_key, handle_revoke_sdk_key}
use pennant.Api.Flags.{
  handle_list_flags, handle_create_flag, handle_get_flag, handle_update_flag, handle_delete_flag,
  handle_get_flag_config, handle_put_flag_config,
}
use pennant.Api.Segments.{
  handle_list_segments, handle_create_segment, handle_get_segment, handle_update_segment,
  handle_delete_segment,
}
use pennant.Api.Reports.{
  handle_list_experiments, handle_create_experiment, handle_get_experiment_results,
  handle_list_audit_log,
}

-- The routes under /api/v1, each with the names in its path.
pub data Endpoint : Type 0 where
  list_projects create_project : Endpoint
  get_project update_project delete_project list_audit_log : String → Endpoint
  list_environments create_environment : String → Endpoint
  update_environment delete_environment : String → String → Endpoint
  list_sdk_keys create_sdk_key : String → String → Endpoint
  revoke_sdk_key : String → String → String → Endpoint
  list_flags create_flag : String → Endpoint
  get_flag update_flag delete_flag : String → String → Endpoint
  get_flag_config put_flag_config : String → String → String → Endpoint
  list_segments create_segment : String → Endpoint
  get_segment update_segment delete_segment : String → String → Endpoint
  list_experiments create_experiment : String → Endpoint
  get_experiment_results : String → String → Endpoint

-- The role in `auth.RequireRole` of the route.
unfoldable pub min_role : Endpoint → Role
min_role list_projects = viewer
min_role create_project = editor
min_role (get_project p) = viewer
min_role (update_project p) = editor
min_role (delete_project p) = admin
min_role (list_audit_log p) = viewer
min_role (list_environments p) = viewer
min_role (create_environment p) = editor
min_role (update_environment p e) = editor
min_role (delete_environment p e) = admin
min_role (list_sdk_keys p e) = viewer
min_role (create_sdk_key p e) = editor
min_role (revoke_sdk_key p e v) = admin
min_role (list_flags p) = viewer
min_role (create_flag p) = editor
min_role (get_flag p f) = viewer
min_role (update_flag p f) = editor
min_role (delete_flag p f) = admin
min_role (get_flag_config p f e) = viewer
min_role (put_flag_config p f e) = editor
min_role (list_segments p) = viewer
min_role (create_segment p) = editor
min_role (get_segment p g) = viewer
min_role (update_segment p g) = editor
min_role (delete_segment p g) = admin
min_role (list_experiments p) = viewer
min_role (create_experiment p) = editor
min_role (get_experiment_results p x) = viewer

-- The claims of `jwtMiddleware` when there is no token service.
abbrev pub dev_claims : Claims
dev_claims = record { user_id = "dev"; email = "dev@localhost"; name = ""; role = admin }

-- `jwtMiddleware`: who sends the request, by its Authorization header.
unfoldable pub identity_of : Option JwtService → Call → Identity
identity_of none call = known dev_claims
identity_of (some jwt) call = identify jwt call.authorization

module _ {F : Type 0} (wire : Wire F) where
  -- The route's handler. The claims are in the request's context.
  unfoldable pub handle : Call → Endpoint → Server F → Handled F
  handle call list_projects s = handle_list_projects wire call s
  handle call create_project s = handle_create_project wire call s
  handle call (get_project p) s = handle_get_project wire call p s
  handle call (update_project p) s = handle_update_project wire call p s
  handle call (delete_project p) s = handle_delete_project wire call p s
  handle call (list_audit_log p) s = handle_list_audit_log wire call p s
  handle call (list_environments p) s = handle_list_environments wire call p s
  handle call (create_environment p) s = handle_create_environment wire call p s
  handle call (update_environment p e) s = handle_update_environment wire call p e s
  handle call (delete_environment p e) s = handle_delete_environment wire call p e s
  handle call (list_sdk_keys p e) s = handle_list_sdk_keys wire call p e s
  handle call (create_sdk_key p e) s = handle_create_sdk_key wire call p e s
  handle call (revoke_sdk_key p e v) s = handle_revoke_sdk_key wire call p e v s
  handle call (list_flags p) s = handle_list_flags wire call p s
  handle call (create_flag p) s = handle_create_flag wire call p s
  handle call (get_flag p f) s = handle_get_flag wire call p f s
  handle call (update_flag p f) s = handle_update_flag wire call p f s
  handle call (delete_flag p f) s = handle_delete_flag wire call p f s
  handle call (get_flag_config p f e) s = handle_get_flag_config wire call p f e s
  handle call (put_flag_config p f e) s = handle_put_flag_config wire call p f e s
  handle call (list_segments p) s = handle_list_segments wire call p s
  handle call (create_segment p) s = handle_create_segment wire call p s
  handle call (get_segment p g) s = handle_get_segment wire call p g s
  handle call (update_segment p g) s = handle_update_segment wire call p g s
  handle call (delete_segment p g) s = handle_delete_segment wire call p g s
  handle call (list_experiments p) s = handle_list_experiments wire call p s
  handle call (create_experiment p) s = handle_create_experiment wire call p s
  handle call (get_experiment_results p x) s = handle_get_experiment_results wire call x s

  -- `RequireRole` around a handler.
  unfoldable pub require_role : Call → Endpoint → Server F → Handled F
  require_role call e s =
      if has_role (min_role e) call.claims
      then handle call e s
      else respond s 403 (problem "insufficient permissions")

  abbrev pub serve_as : Identity → Call → Endpoint → Server F → Handled F
  serve_as missing_token call e s = respond s 401 (problem "missing token")
  serve_as invalid_token call e s = respond s 401 (problem "invalid token")
  serve_as (known claims) call e s = require_role (record call { claims = some claims }) e s

  -- A request under /api/v1.
  unfoldable pub serve : Option JwtService → Call → Endpoint → Server F → Handled F
  serve jwt call e s = serve_as (identity_of jwt call) call e s

-- What `corsHeaders` does with a request.
pub data CorsDecision : Type 0 where
  forbidden preflight pass : CorsDecision

-- `allowAll`
abbrev pub allows_all : List String → Bool
allows_all [] = true
allows_all (o ∷ os) = member "*" (o ∷ os)

-- The decision, and the value of Access-Control-Allow-Origin if it is set. `http.Error` of a rejected origin
-- sets no header. `is_options` is `r.Method == http.MethodOptions`.
unfoldable pub cors_headers : List String → Bool → String → CorsDecision × Option String
cors_headers origins is_options origin =
    let next = if is_options then preflight else pass in
    if allows_all origins
    then (next, some "*")
    else if not (member origin origins) && not (origin == "")
    then (forbidden, none)
    else (next, if origin == "" then none else some origin)
