-- ===== src/Api/Projects.antt =====
-- The handlers of internal/api/server.go for projects and their environments.
pub mod Audit
use pennant.Prelude.{String, ◌==◌, if◌then◌else◌}
use pennant.Model.Types.{Project, Environment}
use pennant.Store.Memory.{
  Memory, get_project, list_projects, create_project, update_project, delete_project,
  get_environment, list_environments, create_environment, update_environment, delete_environment,
}
use pennant.Api.Types.{
  Server, Wire, Call, Handled, respond, decoded, checked, no_body, problem, project_body,
  projects_body, environment_body, environments_body,
}
use pennant.Api.Pages.{paginate}
use pennant.Api.Changes.{recorded, audit}

abbrev pub with_store : {F : Type 0} → Memory → Server F → Server F
with_store m s = record s { store = m }

module _ {F : Type 0} (wire : Wire F) (call : Call) where
  unfoldable pub handle_list_projects : Server F → Handled F
  handle_list_projects s =
      checked s 500 (list_projects s.store) λ projects.
        respond s 200 (projects_body (paginate wire.atoi call.limit call.offset projects))

  -- The path has no project key, so the audit entry has an empty one.
  unfoldable pub handle_create_project : Server F → Handled F
  handle_create_project s = decoded s (wire.decode_project call.body) λ p.
      if p.key == ""
      then respond s 400 (problem "project key is required")
      else checked s 409 (create_project s.store p) λ m.
        respond
          (audit wire call "" "create" "project" p.key "" (wire.encode_project p) (with_store m s))
          201 (project_body p)

  unfoldable pub handle_get_project : String → Server F → Handled F
  handle_get_project key s =
      checked s 404 (get_project s.store key) λ p. respond s 200 (project_body p)

  unfoldable pub handle_update_project : String → Server F → Handled F
  handle_update_project key s =
      let before = get_project s.store key in
      decoded s (wire.decode_project call.body) λ body.
        let p : Project = record body { key = key } in
        checked s 404 (update_project s.store p) λ m.
          respond
            (audit wire call key "update" "project" key (recorded wire.encode_project before)
              (wire.encode_project p) (with_store m s))
            200 (project_body p)

  unfoldable pub handle_delete_project : String → Server F → Handled F
  handle_delete_project key s =
      let before = get_project s.store key in
      checked s 404 (delete_project s.store key) λ m.
        respond
          (audit wire call key "delete" "project" key (recorded wire.encode_project before) ""
            (with_store m s))
          204 no_body

  unfoldable pub handle_list_environments : String → Server F → Handled F
  handle_list_environments project_key s =
      checked s 404 (list_environments s.store project_key)
        λ envs. respond s 200 (environments_body envs)

  unfoldable pub handle_create_environment : String → Server F → Handled F
  handle_create_environment project_key s = decoded s (wire.decode_environment call.body) λ body.
      if body.key == ""
      then respond s 400 (problem "environment key is required")
      else let env : Environment = record body { project_key = project_key } in
        checked s 409 (create_environment s.store project_key env) λ m.
          respond
            (audit wire call project_key "create" "environment" env.key ""
              (wire.encode_environment env) (with_store m s))
            201 (environment_body env)

  unfoldable pub handle_update_environment : String → String → Server F → Handled F
  handle_update_environment project_key env_key s =
      let before = get_environment s.store project_key env_key in
      decoded s (wire.decode_environment call.body) λ body.
        let env : Environment = record body { key = env_key; project_key = project_key } in
        checked s 404 (update_environment s.store project_key env) λ m.
          respond
            (audit wire call project_key "update" "environment" env_key
              (recorded wire.encode_environment before) (wire.encode_environment env)
              (with_store m s))
            200 (environment_body env)

  unfoldable pub handle_delete_environment : String → String → Server F → Handled F
  handle_delete_environment project_key env_key s =
      let before = get_environment s.store project_key env_key in
      checked s 404 (delete_environment s.store project_key env_key) λ m.
        respond
          (audit wire call project_key "delete" "environment" env_key
            (recorded wire.encode_environment before) "" (with_store m s))
          204 no_body
