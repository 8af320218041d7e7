-- ===== src/Api/Changes.antt =====
-- What the handlers of internal/api/server.go do after a change: appendAudit and publishFlagChange.
use pennant.Prelude.{◌/◌, ◌^◌, String, Option, none, some, List, [], ◌∷◌}
use pennant.Prelude.Int.{ℤ, pos}
use pennant.Model.Types.{Environment}
use pennant.Snapshot.Types.{Snapshot}
use pennant.Snapshot.Builder.{build}
use pennant.Stream.Types.{Message}
use pennant.Stream.Hub.{publish}
use pennant.Store.Types.{Reply, failed, ok, after}
use pennant.Store.Memory.{Memory, list_environments}
use pennant.Store.Memory.Counters.{increment_env_version, append_audit}
use pennant.Auth.Middleware.{Claims}
use pennant.Api.Types.{Server, Wire, Call}

-- `json.Marshal(before)` of what the store returned: a nil pointer in an interface that is not nil is "null".
abbrev pub recorded : {A : Type 0} → (A → String) → Reply A → String
recorded encode (failed e) = "null"
recorded encode (ok a) = encode a

abbrev pub actor_of : Option Claims → String
actor_of none = "anonymous"
actor_of (some claims) = claims.email

-- `stream.Message{Event: "put", …}`
abbrev pub put_message : ℤ → Snapshot → Message Snapshot
put_message version snap = record { event = "put"; version = version; payload = some snap }

module _ {F : Type 0} (wire : Wire F) (call : Call) where
  -- `project_key` is the path's, empty where the path has none. A nil interface leaves its text empty.
  -- `UnixMilli` is in milliseconds, the clock in nanoseconds.
  unfoldable pub audit : String → String → String → String → String → String → Server F → Server F
  audit project_key action resource resource_id before after_text s = record s {
    store =
        after
          (append_audit wire.audit_id s.store (record {
            id = "";
            project_key = project_key;
            actor = actor_of call.claims;
            action = action;
            resource = resource;
            resource_id = resource_id;
            before = before;
            after = after_text;
            at = pos (call.now / 10 ^ 6);
          }))
          s.store;
  }

  -- `if err == nil { s.hub.Publish(…) }` on what the builder returned
  abbrev pub publish_built : String → ℤ → Option Snapshot → Server F → Server F
  publish_built env_key version none s = s
  publish_built env_key version (some snap) s = record s {
    hub = publish s.hub env_key (put_message version snap);
  }

  -- The build of an environment, and its publication.
  unfoldable pub publish_environment : String → String → ℤ → Server F → Server F
  publish_environment project_key env_key version s =
      publish_built env_key version (build wire.checksum call.now s.store project_key env_key) s

  -- One turn of the loop of `publishFlagChange`, from what IncrementEnvVersion returned.
  abbrev pub publish_incremented : String → String → Reply (ℤ × Memory) → Server F → Server F
  publish_incremented project_key env_key (failed e) s = s
  publish_incremented project_key env_key (ok (version, store)) s =
      publish_environment project_key env_key version (record s { store = store })

  unfoldable pub publish_environments : String → List Environment → Server F → Server F
  publish_environments project_key [] s = s
  publish_environments project_key (env ∷ envs) s = publish_environments project_key envs (
      publish_incremented project_key env.key (increment_env_version s.store project_key env.key) s)

  abbrev pub publish_listed : String → Reply (List Environment) → Server F → Server F
  publish_listed project_key (failed e) s = s
  publish_listed project_key (ok envs) s = publish_environments project_key envs s

  -- `publishFlagChange`, which does not read its flag
  unfoldable pub publish_flag_change : String → Server F → Server F
  publish_flag_change project_key s =
      publish_listed project_key (list_environments s.store project_key) s
