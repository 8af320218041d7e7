-- ===== src/Api/SdkKeys.antt =====
-- The handlers of internal/api/server.go for the SDK keys of an environment.
pub mod Admission
use pennant.Prelude.{String, List, [], ◌∷◌, ◌++◌, Bool, false, not, ◌==◌, ◌||◌, if◌then◌else◌}
use pennant.Model.Types.{
  SdkKey, SdkKeyType, sdk_key_server, sdk_key_client, sdk_key_mobile, sdk_key_other,
}
use pennant.Store.Memory.{get_environment, update_environment}
use pennant.SdkAuth.{register, revoke}
use pennant.Api.Types.{
  Server, Wire, Call, Handled, respond, decoded, checked, no_body, problem, sdk_key_body,
  sdk_keys_body,
}

-- `model.SDKKeyType(req.Type)`
abbrev pub key_type_of : String → SdkKeyType
key_type_of name =
    if name == "server"
    then sdk_key_server
    else if name == "client"
    then sdk_key_client
    else if name == "mobile"
    then sdk_key_mobile
    else sdk_key_other name

-- The loop of `revokeSDKKey`: the keys with another value, and whether one had this value.
unfoldable pub without_key : String → List SdkKey → List SdkKey
without_key value [] = []
without_key value (k ∷ ks) =
    let rest = without_key value ks in if k.value == value then rest else k ∷ rest

unfoldable pub has_key : String → List SdkKey → Bool
has_key value [] = false
has_key value (k ∷ ks) = k.value == value || has_key value ks

module _ {F : Type 0} (wire : Wire F) (call : Call) where
  unfoldable pub handle_list_sdk_keys : String → String → Server F → Handled F
  handle_list_sdk_keys project_key env_key s =
      checked s 404 (get_environment s.store project_key env_key)
        λ env. respond s 200 (sdk_keys_body env.sdk_keys)

  -- `if req.Type == "" { req.Type = "server" }`
  abbrev pub default_type : String → String
  default_type name = if name == "" then "server" else name

  abbrev pub new_key : String → String → SdkKey
  new_key name env_key = record {
    value = wire.key_value name env_key call.now;
    kind = key_type_of name;
    created_at = call.now;
  }

  -- The store returned a copy of the environment.
  unfoldable pub handle_create_sdk_key : String → String → Server F → Handled F
  handle_create_sdk_key project_key env_key s =
      decoded s (wire.decode_key_type call.body) λ requested.
        let name = default_type requested in
        checked s 404 (get_environment s.store project_key env_key) λ env.
          let key = new_key name env_key in
          checked s 500
            (update_environment s.store project_key
              (record env { sdk_keys = env.sdk_keys ++ key ∷ [] }))
            λ m.
              respond
                (record s {
                  store = m;
                  keys = register s.keys (record {
                    value = key.value;
                    project_key = project_key;
                    env_key = env_key;
                    kind = name;
                    revoked = false;
                  });
                })
                201 (sdk_key_body key)

  unfoldable pub handle_revoke_sdk_key : String → String → String → Server F → Handled F
  handle_revoke_sdk_key project_key env_key value s =
      checked s 404 (get_environment s.store project_key env_key) λ env.
        if not (has_key value env.sdk_keys)
        then respond s 404 (problem "sdk key not found")
        else checked s 500
            (update_environment s.store project_key
              (record env { sdk_keys = without_key value env.sdk_keys }))
            λ m. respond (record s { store = m; keys = revoke s.keys value }) 204 no_body
