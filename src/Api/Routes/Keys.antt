-- ===== src/Api/Routes/Keys.antt =====
-- The SDK keys behind the routes of internal/api/server.go: no route but the two that are meant to changes the keys
-- that authenticate.
use pennant.Prelude.{
  ℕ, String, Option, none, some, List, [], ◌∷◌, ◌≡◌, refl, Bool, true, false, if◌then◌else◌,
}
use pennant.Prelude.Int.{ℤ}
use pennant.Model.Types.{Environment}
use pennant.Model.Validate.{Validation, valid, panicked, invalid}
use pennant.Snapshot.Types.{Snapshot}
use pennant.Store.Types.{Reply, failed, ok}
use pennant.Store.Memory.{Memory}
use pennant.Experiments.{Answer, ExperimentStore, error, value}
use pennant.Auth.Middleware.{JwtService, Identity, missing_token, invalid_token, known}
use pennant.SdkAuth.{Authenticator}
use pennant.Api.Types.{
  Server, Wire, Call, Handled, Body, respond, decoded, checked, answered, validated,
}
use pennant.Api.Changes.{
  audit, publish_flag_change, publish_listed, publish_environments, publish_incremented,
  publish_environment, publish_built,
}
use pennant.Api.Projects.{
  handle_list_projects, handle_create_project, handle_get_project, handle_update_project,
  handle_delete_project, handle_list_environments, handle_create_environment,
  handle_update_environment, handle_delete_environment, with_store,
}
use pennant.Api.SdkKeys.{handle_list_sdk_keys}
use pennant.Api.Flags.{
  handle_list_flags, handle_create_flag, handle_get_flag, handle_update_flag, handle_delete_flag,
  handle_get_flag_config, handle_put_flag_config,
}
use pennant.Api.Segments.{
  handle_list_segments, handle_create_segment, handle_get_segment, handle_update_segment,
  handle_delete_segment,
}
use pennant.Api.Reports.{
  handle_list_audit_log, handle_list_experiments, handle_create_experiment,
  handle_get_experiment_results, listed_experiments, created, latest,
}
use pennant.Api.Routes.{
  Endpoint, list_projects, create_project, get_project, update_project, delete_project,
  list_audit_log, list_environments, create_environment, update_environment, delete_environment,
  list_sdk_keys, list_flags, create_flag, get_flag, update_flag, delete_flag, get_flag_config,
  put_flag_config, list_segments, create_segment, get_segment, update_segment, delete_segment,
  list_experiments, create_experiment, get_experiment_results, create_sdk_key, revoke_sdk_key,
  handle, require_role, serve, serve_as, identity_of,
}

module _ {F : Type 0} where
  -- The server after the request has these keys.
  record HasKeys (keys : Authenticator) (s : Server F) : Type 0 where
    keys_are : s.keys ≡ keys

  record Answers (keys : Authenticator) (out : Handled F) : Type 0 where
    answered_with : HasKeys keys out.0

  module _ (keys : Authenticator) where
    own : (s : Server F) → s.keys ≡ keys → HasKeys keys s
    own s h = record { keys_are = h }

    respond-Answers :
        (s : Server F) (status : ℕ) (body : Body F)
        → HasKeys keys s
        → Answers keys (respond s status body)
    respond-Answers s status body h = record { answered_with = h }

    stored : (m : Memory) (s : Server F) → HasKeys keys s → HasKeys keys (with_store m s)
    stored m s h = record { keys_are = h.keys_are }

    experimented :
        (store : Option (ExperimentStore F)) (s : Server F)
        → HasKeys keys s
        → HasKeys keys (record s { experiments = store })
    experimented store s h = record { keys_are = h.keys_are }

    decoded-Answers :
        {A : Type 0} (s : Server F) (o : Option A) (next : A → Handled F)
        → HasKeys keys s
        → ((a : A) → Answers keys (next a))
        → Answers keys (decoded s o next)
    decoded-Answers s none next k h = record { answered_with = k }
    decoded-Answers s (some a) next k h = h a

    checked-Answers :
        {A : Type 0} (s : Server F) (status : ℕ) (r : Reply A) (next : A → Handled F)
        → HasKeys keys s
        → ((a : A) → Answers keys (next a))
        → Answers keys (checked s status r next)
    checked-Answers s status (failed e) next k h = record { answered_with = k }
    checked-Answers s status (ok a) next k h = h a

    answered-Answers :
        {A : Type 0} (s : Server F) (status : ℕ) (r : Answer A) (next : A → Handled F)
        → HasKeys keys s
        → ((a : A) → Answers keys (next a))
        → Answers keys (answered s status r next)
    answered-Answers s status (error e) next k h = record { answered_with = k }
    answered-Answers s status (value a) next k h = h a

    validated-Answers :
        (s : Server F) (o : Validation) (next : Handled F)
        → HasKeys keys s
        → Answers keys next
        → Answers keys (validated s o next)
    validated-Answers s valid next k h = h
    validated-Answers s panicked next k h = record { answered_with = k }
    validated-Answers s (invalid e) next k h = record { answered_with = k }

    if-Answers :
        (b : Bool) (x y : Handled F)
        → Answers keys x
        → Answers keys y
        → Answers keys (if b then x else y)
    if-Answers true x y p q = p
    if-Answers false x y p q = q

    module _ (wire : Wire F) (call : Call) where
      audited :
          (p action resource id before after : String) (s : Server F)
          → HasKeys keys s
          → HasKeys keys (audit wire call p action resource id before after s)
      unfolding audit
      audited p action resource id before after s h = record { keys_are = h.keys_are }

      published_built :
          (env : String) (v : ℤ) (o : Option Snapshot) (s : Server F)
          → HasKeys keys s
          → HasKeys keys (publish_built wire call env v o s)
      published_built env v none s h = h
      published_built env v (some snap) s h = record { keys_are = h.keys_are }

      published_environment :
          (p env : String) (v : ℤ) (s : Server F)
          → HasKeys keys s
          → HasKeys keys (publish_environment wire call p env v s)
      unfolding publish_environment
      published_environment p env v s h = published_built env v _ s h

      published_incremented :
          (p env : String) (r : Reply (ℤ × Memory)) (s : Server F)
          → HasKeys keys s
          → HasKeys keys (publish_incremented wire call p env r s)
      published_incremented p env (failed e) s h = h
      published_incremented p env (ok (v, m)) s h = published_environment p env v _ (stored m s h)

      published_environments :
          (p : String) (envs : List Environment) (s : Server F)
          → HasKeys keys s
          → HasKeys keys (publish_environments wire call p envs s)
      unfolding publish_environments
      published_environments p [] s h = h
      published_environments p (env ∷ envs) s h =
          published_environments p envs _ (published_incremented p env.key _ s h)

      published_listed :
          (p : String) (r : Reply (List Environment)) (s : Server F)
          → HasKeys keys s
          → HasKeys keys (publish_listed wire call p r s)
      published_listed p (failed e) s h = h
      published_listed p (ok envs) s h = published_environments p envs s h

      published :
          (p : String) (s : Server F)
          → HasKeys keys s
          → HasKeys keys (publish_flag_change wire call p s)
      unfolding publish_flag_change
      published p s h = published_listed p _ s h

ruleset answers = (
  respond-Answers, stored, experimented, decoded-Answers, checked-Answers, answered-Answers,
  validated-Answers, if-Answers, audited, published_environment, published,
)

-- The two routes that create and revoke keys.
unfoldable pub changes_keys : Endpoint → Bool
changes_keys (create_sdk_key p e) = true
changes_keys (revoke_sdk_key p e v) = true
changes_keys e = false

module _ {F : Type 0} (wire : Wire F) (call : Call) where
  experiments-Answers :
      (p : String) (s : Server F) (store : Option (ExperimentStore F))
      → HasKeys s.keys s
      → Answers s.keys (listed_experiments wire call p s store)
        × Answers s.keys (created wire call p s store)
        × Answers s.keys (latest wire call p s store)
  experiments-Answers p s none k = (search answers, search answers, search answers)
  experiments-Answers p s (some store) k =
      (search answers depth 9, search answers depth 9, search answers depth 9)

  handle-Answers :
      (e : Endpoint) (s : Server F)
      → changes_keys e ≡ false
      → HasKeys s.keys s
      → Answers s.keys (handle wire call e s)
  unfolding changes_keys handle handle_list_projects handle_create_project handle_get_project
      handle_update_project handle_delete_project handle_list_audit_log handle_list_environments
      handle_create_environment handle_update_environment handle_delete_environment
      handle_list_sdk_keys handle_list_flags handle_create_flag handle_get_flag handle_update_flag
      handle_delete_flag handle_get_flag_config handle_put_flag_config handle_list_segments
      handle_create_segment handle_get_segment handle_update_segment handle_delete_segment
      handle_list_experiments handle_create_experiment handle_get_experiment_results
  handle-Answers list_projects s h k = search answers depth 9
  handle-Answers create_project s h k = search answers depth 9
  handle-Answers (get_project p) s h k = search answers depth 9
  handle-Answers (update_project p) s h k = search answers depth 9
  handle-Answers (delete_project p) s h k = search answers depth 9
  handle-Answers (list_audit_log p) s h k = search answers depth 9
  handle-Answers (list_environments p) s h k = search answers depth 9
  handle-Answers (create_environment p) s h k = search answers depth 9
  handle-Answers (update_environment p e) s h k = search answers depth 9
  handle-Answers (delete_environment p e) s h k = search answers depth 9
  handle-Answers (list_sdk_keys p e) s h k = search answers depth 9
  handle-Answers (list_flags p) s h k = search answers depth 9
  handle-Answers (create_flag p) s h k = search answers depth 9
  handle-Answers (get_flag p f) s h k = search answers depth 9
  handle-Answers (update_flag p f) s h k = search answers depth 9
  handle-Answers (delete_flag p f) s h k = search answers depth 9
  handle-Answers (get_flag_config p f e) s h k = search answers depth 9
  handle-Answers (put_flag_config p f e) s h k = search answers depth 9
  handle-Answers (list_segments p) s h k = search answers depth 9
  handle-Answers (create_segment p) s h k = search answers depth 9
  handle-Answers (get_segment p g) s h k = search answers depth 9
  handle-Answers (update_segment p g) s h k = search answers depth 9
  handle-Answers (delete_segment p g) s h k = search answers depth 9
  handle-Answers (list_experiments p) s h k = (experiments-Answers p s s.experiments k).0
  handle-Answers (create_experiment p) s h k = (experiments-Answers p s s.experiments k).1
  handle-Answers (get_experiment_results p x) s h k = (experiments-Answers x s s.experiments k).2
  handle-Answers (create_sdk_key p e) s h k = cc
  handle-Answers (revoke_sdk_key p e v) s h k = cc

-- A management request on any route but the two that create and revoke SDK keys leaves the keys that authenticate
-- as they were: also one that deletes the environment or the project of a key.
pub serve_keys_unchanged :
    {F : Type 0} (wire : Wire F) (jwt : Option JwtService) (call : Call) (e : Endpoint)
    (s : Server F)
    → changes_keys e ≡ false
    → (serve wire jwt call e s).0.keys ≡ s.keys
unfolding serve
serve_keys_unchanged wire jwt call e s h = (answer_as (identity_of jwt call)).answered_with.keys_are
  where
    answer_as : (who : Identity) → Answers s.keys (serve_as wire who call e s)
    answer_as missing_token = respond-Answers s.keys s _ _ (own s.keys s refl)
    answer_as invalid_token = respond-Answers s.keys s _ _ (own s.keys s refl)
    answer_as (known claims) =
        unfold require_role in
        if-Answers s.keys _ _ _
          (handle-Answers wire (record call { claims = some claims }) e s h (own s.keys s refl))
          (respond-Answers s.keys s _ _ (own s.keys s refl))
