-- ===== src/SdkAuth.antt =====
-- internal/sdkauth/auth.go: SDK keys. The map holds pointers, and `Revoke` writes through one: since records
-- are registered under their own value, one record stands under one key, and the write is a `put`.
pub mod Revocation
use Prim.Native.String.{len, slice}
use pennant.Prelude.{
  String, Option, none, some, List, [], ◌∷◌, Bool, true, false, ◌||◌, ◌==◌, is_some, if◌then◌else◌,
}
use pennant.Prelude.Texts.{has_prefix}
use pennant.Prelude.Dict.{Dict, get, put}

pub record SdkKeyRecord : Type 0 where
  pub value : String
  pub project_key : String
  pub env_key : String
  pub kind : String
  pub revoked : Bool

-- The map of the struct.
abbrev pub Authenticator : Type 0
Authenticator = Dict SdkKeyRecord

abbrev pub new_authenticator : Authenticator
new_authenticator = []

unfoldable pub register : Authenticator → SdkKeyRecord → Authenticator
register a rec = put rec.value rec a

unfoldable pub revoke : Authenticator → String → Authenticator
revoke a key = elim (get key a) [ none ↦ a | some rec ↦ put key (record rec { revoked = true }) a ]

-- `if !ok || rec.Revoked`
abbrev pub live : Option SdkKeyRecord → Option SdkKeyRecord
live none = none
live (some rec) = if rec.revoked then none else some rec

unfoldable pub lookup : Authenticator → String → Option SdkKeyRecord
lookup a key = live (get key a)

abbrev pub is_for : String → Option SdkKeyRecord → Bool
is_for env none = false
is_for env (some rec) = rec.env_key == env

unfoldable pub validate_sdk_key : Authenticator → String → String → Bool
validate_sdk_key a key env = is_for env (live (get key a))

abbrev pub is_client : Option SdkKeyRecord → Bool
is_client none = false
is_client (some rec) = rec.kind == "client" || rec.kind == "mobile"

unfoldable pub is_client_key : Authenticator → String → Bool
is_client_key a key = is_client (lookup a key)

-- `ExtractBearer`
unfoldable pub extract_bearer : String → String
extract_bearer header =
    if has_prefix header "Bearer " then slice header (len "Bearer ") (len header) else ""
