-- ===== src/Api/Flags.antt =====
-- The handlers of internal/api/server.go for flags and their configuration in an environment.
use pennant.Prelude.{String, ◌==◌, if◌then◌else◌}
use pennant.Prelude.Int.{ℤ, pos}
use pennant.Model.Types.{Flag}
use pennant.Model.Validate.{validate_flag}
use pennant.Store.Types.{Reply, failed, ok}
use pennant.Store.Memory.{Memory}
use pennant.Store.Memory.Entries.{
  get_flag, list_flags, create_flag, update_flag, delete_flag, get_flag_config, upsert_flag_config,
}
use pennant.Store.Memory.Counters.{increment_env_version, after_increment}
use pennant.Api.Types.{
  Server, Wire, Call, Handled, respond, decoded, checked, validated, no_body, problem, flag_body,
  flags_body, config_body,
}
use pennant.Api.Pages.{paginate}
use pennant.Api.Changes.{recorded, audit, publish_flag_change, publish_environment}
use pennant.Api.Projects.{with_store}

-- `newVersion, _ :=`
abbrev pub version_or_zero : Reply (ℤ × Memory) → ℤ
version_or_zero (failed e) = pos 0
version_or_zero (ok r) = r.0

module _ {F : Type 0} (wire : Wire F) (call : Call) where
  unfoldable pub handle_list_flags : String → Server F → Handled F
  handle_list_flags project_key s =
      checked s 404 (list_flags s.store project_key)
        λ flags. respond s 200 (flags_body (paginate wire.atoi call.limit call.offset flags))

  -- The store sets the times through the flag's pointer, before the audit entry and the response.
  unfoldable pub handle_create_flag : String → Server F → Handled F
  handle_create_flag project_key s = decoded s (wire.decode_flag call.body) λ flag.
      if flag.key == ""
      then respond s 400 (problem "flag key is required")
      else validated s (validate_flag flag) (
          checked s 409 (create_flag call.now s.store project_key flag) λ m.
            let created : Flag = record flag { created_at = call.now; updated_at = call.now } in
            respond
              (publish_flag_change wire call project_key (
                audit wire call project_key "create" "flag" flag.key "" (wire.encode_flag created)
                  (with_store m s)))
              201 (flag_body created))

  unfoldable pub handle_get_flag : String → String → Server F → Handled F
  handle_get_flag project_key flag_key s =
      checked s 404 (get_flag s.store project_key flag_key) λ flag. respond s 200 (flag_body flag)

  unfoldable pub handle_update_flag : String → String → Server F → Handled F
  handle_update_flag project_key flag_key s =
      let before = get_flag s.store project_key flag_key in
      decoded s (wire.decode_flag call.body) λ body.
        let flag : Flag = record body { key = flag_key } in
        validated s (validate_flag flag) (
          checked s 404 (update_flag call.now s.store project_key flag) λ m.
            let updated : Flag = record flag { updated_at = call.now } in
            respond
              (publish_flag_change wire call project_key (
                audit wire call project_key "update" "flag" flag_key
                  (recorded wire.encode_flag before) (wire.encode_flag updated) (with_store m s)))
              200 (flag_body updated))

  unfoldable pub handle_delete_flag : String → String → Server F → Handled F
  handle_delete_flag project_key flag_key s =
      let before = get_flag s.store project_key flag_key in
      checked s 404 (delete_flag s.store project_key flag_key) λ m.
        respond
          (publish_flag_change wire call project_key (
            audit wire call project_key "delete" "flag" flag_key (recorded wire.encode_flag before)
              "" (with_store m s)))
          204 no_body

  unfoldable pub handle_get_flag_config : String → String → String → Server F → Handled F
  handle_get_flag_config project_key flag_key env_key s =
      checked s 404 (get_flag_config s.store project_key env_key flag_key)
        λ cfg. respond s 200 (config_body cfg)

  -- An error of IncrementEnvVersion is dropped; then the version is zero and the store as it was.
  unfoldable pub handle_put_flag_config : String → String → String → Server F → Handled F
  handle_put_flag_config project_key flag_key env_key s =
      decoded s (wire.decode_config call.body) λ cfg.
        checked s 500 (upsert_flag_config s.store project_key env_key flag_key cfg) λ m.
          let bumped = increment_env_version m project_key env_key in
          respond
            (publish_environment wire call project_key env_key (version_or_zero bumped)
              (with_store (after_increment bumped m) s))
            200 (config_body cfg)
