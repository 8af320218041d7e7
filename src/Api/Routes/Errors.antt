-- ===== src/Api/Routes/Errors.antt =====
-- The management handlers of internal/api/server.go that answer with an error have changed nothing.
use pennant.Prelude.{
  String, Option, none, some, ℕ, ◌≤◌, ◌<◌, ◌≡◌, refl, Bool, true, false, arith, if◌then◌else◌,
}
use pennant.Model.Validate.{Validation, valid, panicked, invalid}
use pennant.Store.Types.{Reply, failed, ok}
use pennant.Experiments.{Answer, error, value}
use pennant.Api.Types.{
  Server, Wire, Call, Handled, Body, respond, decoded, checked, answered, validated,
}
use pennant.Api.Projects.{
  handle_list_projects, handle_create_project, handle_get_project, handle_update_project,
  handle_delete_project, handle_list_environments, handle_create_environment,
  handle_update_environment, handle_delete_environment,
}
use pennant.Api.SdkKeys.{handle_list_sdk_keys, handle_create_sdk_key, handle_revoke_sdk_key}
use pennant.Api.Flags.{
  handle_list_flags, handle_create_flag, handle_get_flag, handle_update_flag, handle_delete_flag,
  handle_get_flag_config, handle_put_flag_config,
}
use pennant.Api.Segments.{
  handle_list_segments, handle_create_segment, handle_get_segment, handle_update_segment,
  handle_delete_segment,
}
use pennant.Experiments.{ExperimentStore}
use pennant.Auth.Middleware.{JwtService, Identity, missing_token, invalid_token, known}
use pennant.Api.Reports.{
  handle_list_audit_log, handle_list_experiments, handle_create_experiment,
  handle_get_experiment_results, listed_experiments, created, latest,
}
use pennant.Api.Routes.{
  Endpoint, list_projects, create_project, get_project, update_project, delete_project,
  list_environments, create_environment, update_environment, delete_environment, list_sdk_keys,
  create_sdk_key, revoke_sdk_key, list_flags, create_flag, get_flag, update_flag, delete_flag,
  get_flag_config, put_flag_config, list_segments, create_segment, get_segment, update_segment,
  delete_segment, list_audit_log, list_experiments, create_experiment, get_experiment_results,
  handle, require_role, serve, serve_as, identity_of,
}

module _ {F : Type 0} where
  -- An error status, with the server as it was.
  pub record Keeps (s : Server F) (out : Handled F) : Type 0 where
    pub unchanged : 400 ≤ out.1.status → out.0 ≡ s

  Keeps-same : (s : Server F) (status : ℕ) (body : Body F) → Keeps s (respond s status body)
  Keeps-same s status body = record { unchanged = λ h. refl }

  decoded-Keeps :
      {A : Type 0} (s : Server F) (o : Option A) (next : A → Handled F)
      → ((a : A) → Keeps s (next a))
      → Keeps s (decoded s o next)
  decoded-Keeps s none next h = record { unchanged = λ e. refl }
  decoded-Keeps s (some a) next h = h a

  checked-Keeps :
      {A : Type 0} (s : Server F) (status : ℕ) (r : Reply A) (next : A → Handled F)
      → ((a : A) → Keeps s (next a))
      → Keeps s (checked s status r next)
  checked-Keeps s status (failed e) next h = record { unchanged = λ e. refl }
  checked-Keeps s status (ok a) next h = h a

  answered-Keeps :
      {A : Type 0} (s : Server F) (status : ℕ) (r : Answer A) (next : A → Handled F)
      → ((a : A) → Keeps s (next a))
      → Keeps s (answered s status r next)
  answered-Keeps s status (error e) next h = record { unchanged = λ e. refl }
  answered-Keeps s status (value a) next h = h a

  validated-Keeps :
      (s : Server F) (o : Validation) (next : Handled F)
      → Keeps s next
      → Keeps s (validated s o next)
  validated-Keeps s valid next h = h
  validated-Keeps s panicked next h = record { unchanged = λ e. refl }
  validated-Keeps s (invalid e) next h = record { unchanged = λ e. refl }

  if-Keeps :
      (s : Server F) (b : Bool) (x y : Handled F)
      → Keeps s x
      → Keeps s y
      → Keeps s (if b then x else y)
  if-Keeps s true x y p q = p
  if-Keeps s false x y p q = q

  -- A status below 400 asks for nothing.
  Keeps-success :
      (s s' : Server F) (status : ℕ) (body : Body F)
      → status < 400
      → Keeps s (respond s' status body)
  Keeps-success s s' status body h = record { unchanged = λ e. absurd (omega arith) }

ruleset keeps = (
  Keeps-same, decoded-Keeps, checked-Keeps, answered-Keeps, validated-Keeps, if-Keeps,
  Keeps-success, arith,
)

module _ {F : Type 0} (wire : Wire F) (call : Call) where
  listed-Keeps :
      (p : String) (s : Server F) (store : Option (ExperimentStore F))
      → Keeps s (listed_experiments wire call p s store)
  listed-Keeps p s none = search keeps
  listed-Keeps p s (some store) = search keeps depth 9

  created-Keeps :
      (p : String) (s : Server F) (store : Option (ExperimentStore F))
      → Keeps s (created wire call p s store)
  created-Keeps p s none = search keeps
  created-Keeps p s (some store) = search keeps depth 9

  latest-Keeps :
      (x : String) (s : Server F) (store : Option (ExperimentStore F))
      → Keeps s (latest wire call x s store)
  latest-Keeps x s none = search keeps
  latest-Keeps x s (some store) = search keeps depth 9

  handle-Keeps : (e : Endpoint) (s : Server F) → Keeps s (handle wire call e s)
  unfolding handle handle_list_projects handle_create_project handle_get_project
      handle_update_project handle_delete_project handle_list_environments handle_create_environment
      handle_update_environment handle_delete_environment handle_list_sdk_keys handle_create_sdk_key
      handle_revoke_sdk_key handle_list_flags handle_create_flag handle_get_flag handle_update_flag
      handle_delete_flag handle_get_flag_config handle_put_flag_config handle_list_segments
      handle_create_segment handle_get_segment handle_update_segment handle_delete_segment
      handle_list_audit_log handle_list_experiments handle_create_experiment
      handle_get_experiment_results
  handle-Keeps list_projects s = search keeps depth 9
  handle-Keeps create_project s = search keeps depth 9
  handle-Keeps (get_project p) s = search keeps depth 9
  handle-Keeps (update_project p) s = search keeps depth 9
  handle-Keeps (delete_project p) s = search keeps depth 9
  handle-Keeps (list_environments p) s = search keeps depth 9
  handle-Keeps (create_environment p) s = search keeps depth 9
  handle-Keeps (update_environment p e) s = search keeps depth 9
  handle-Keeps (delete_environment p e) s = search keeps depth 9
  handle-Keeps (list_sdk_keys p e) s = search keeps depth 9
  handle-Keeps (create_sdk_key p e) s = search keeps depth 9
  handle-Keeps (revoke_sdk_key p e v) s = search keeps depth 9
  handle-Keeps (list_flags p) s = search keeps depth 9
  handle-Keeps (create_flag p) s = search keeps depth 9
  handle-Keeps (get_flag p f) s = search keeps depth 9
  handle-Keeps (update_flag p f) s = search keeps depth 9
  handle-Keeps (delete_flag p f) s = search keeps depth 9
  handle-Keeps (get_flag_config p f e) s = search keeps depth 9
  handle-Keeps (put_flag_config p f e) s = search keeps depth 9
  handle-Keeps (list_segments p) s = search keeps depth 9
  handle-Keeps (create_segment p) s = search keeps depth 9
  handle-Keeps (get_segment p g) s = search keeps depth 9
  handle-Keeps (update_segment p g) s = search keeps depth 9
  handle-Keeps (delete_segment p g) s = search keeps depth 9
  handle-Keeps (list_audit_log p) s = search keeps depth 9
  handle-Keeps (list_experiments p) s = listed-Keeps p s s.experiments
  handle-Keeps (create_experiment p) s = created-Keeps p s s.experiments
  handle-Keeps (get_experiment_results p x) s = latest-Keeps x s s.experiments

-- A management request that is answered with an error status, whichever route, token and role it has, leaves the
-- whole server as it was: the store with its versions and audit log, the hub, the SDK keys, the users, the
-- experiments and the events.
pub serve_error_unchanged :
    {F : Type 0} (wire : Wire F) (jwt : Option JwtService) (call : Call) (e : Endpoint)
    (s : Server F)
    → 400 ≤ (serve wire jwt call e s).1.status
    → (serve wire jwt call e s).0 ≡ s
unfolding serve require_role
serve_error_unchanged wire jwt call e s = (served-Keeps (identity_of jwt call)).unchanged
  where
    served-Keeps : (who : Identity) → Keeps s (serve_as wire who call e s)
    served-Keeps missing_token = Keeps-same s _ _
    served-Keeps invalid_token = Keeps-same s _ _
    served-Keeps (known claims) =
        unfold require_role in
        if-Keeps s _ _ _ (handle-Keeps wire (record call { claims = some claims }) e s)
          (Keeps-same s _ _)
