-- ===== src/Checks/Requests/Theorems.antt =====
-- The theorems on internal/api/server.go at the requests of the parent.
use pennant.Prelude.{
  ℕ, String, none, some, List, [], ◌∷◌, ◌++◌, ◌≤◌, false, ◌≡◌, refl, arith, length, take, drop,
}
use pennant.Prelude.Int.{pos}
use pennant.Prelude.Dict.{get, put}
use pennant.Auth.{role_level}
use pennant.Auth.Middleware.{has_role}
use pennant.Store.Memory.{get_environment, update_environment}
use pennant.Store.Types
use pennant.Store.Memory
use pennant.Stream.Hub.Publishing.{IsRegistry}
use pennant.Stream.Hub.{subscribers}
use pennant.Api.Types.{Call}
use pennant.Api.Pages.{paginate}
use pennant.Api.Pages.Cover.{paginate-bounds}
use pennant.Api.Routes.{
  create_project, delete_environment, min_role, identity_of, handle, require_role, serve,
}
use pennant.Api.Routes.Errors.{serve_error_unchanged}
use pennant.Api.Routes.Keys.{changes_keys, serve_keys_unchanged}
use pennant.Api.Projects.{handle_create_project}
use pennant.Api.SdkKeys.{has_key, without_key, handle_create_sdk_key, handle_revoke_sdk_key}
use pennant.Api.SdkKeys.Admission.{
  created, issued, authenticate_sdk-created, authenticate_sdk-revoked,
}
use pennant.Api.Delivery.{rejected, admitted, authenticate_sdk}
use pennant.Api.Delivery.Connections.{Holds, Delivered, put_flag_config_delivers}
use pennant.Api.Flags.{handle_put_flag_config}
use pennant.Api.Projects.Audit.{create_project-list_audit}
use pennant.Store.Memory
use pennant.Store.Types
use pennant.Store.Memory.Counters.{list_audit}
use pennant.Checks.Fixtures.{flag, gate_config}
use pennant.Checks.Requests.{wire, server, store, flags, sub, call, old_key, blank_project}

-- Pages
abbrev five : List ℕ
five = 1 ∷ 2 ∷ 3 ∷ 4 ∷ 5 ∷ []

paginate-bounds_example :
    let page = paginate wire.atoi "700" "" five in
    (1 ≤ page.limit)
    × (page.limit ≤ 500)
    × (length page.items ≤ page.limit)
    × (page.total ≡ 5)
    × (page.items ≡ take page.limit (drop page.offset five))
paginate-bounds_example = paginate-bounds wire.atoi "700" "" five

-- Errors: a body that is no project.
no_project : 400 ≤ (serve wire none (call "") create_project server).1.status
unfolding serve identity_of require_role has_role role_level min_role handle handle_create_project
no_project = omega arith

serve_error_unchanged_example : (serve wire none (call "") create_project server).0 ≡ server
serve_error_unchanged_example =
    serve_error_unchanged wire none (call "") create_project server no_project

-- Keys
deletion_keeps : changes_keys (delete_environment "shop" "prod") ≡ false
unfolding changes_keys
deletion_keeps = refl

serve_keys_unchanged_example :
    (serve wire none (call "") (delete_environment "shop" "prod") server).0.keys ≡ server.keys
serve_keys_unchanged_example =
    serve_keys_unchanged wire none (call "") (delete_environment "shop" "prod") server
      deletion_keeps

new_key_created :
    (handle_create_sdk_key wire (call "") "shop" "prod" server).1
    ≡ created (record old_key { value = "sdk"; created_at = 5 })
unfolding handle_create_sdk_key get_environment update_environment get
new_key_created = refl

authenticate_sdk-created_example :
    (kind : String) × (authenticate_sdk wire
        (call "Bearer sdk")
        (handle_create_sdk_key wire (call "") "shop" "prod" server).0
      ≡ admitted (issued "shop" "prod" (record old_key { value = "sdk"; created_at = 5 }) kind))
authenticate_sdk-created_example =
    authenticate_sdk-created wire (call "Bearer sdk") (call "") "shop" "prod" server
      (record old_key { value = "sdk"; created_at = 5 }) refl refl new_key_created

old_key_revoked : (handle_revoke_sdk_key wire (call "") "shop" "prod" "old" server).1.status ≡ 204
unfolding handle_revoke_sdk_key has_key without_key get_environment update_environment get
old_key_revoked = refl

authenticate_sdk-revoked_example :
    authenticate_sdk wire
      (call "Bearer old")
      (handle_revoke_sdk_key wire (call "") "shop" "prod" "old" server).0
    ≡ rejected "invalid or revoked SDK key"
authenticate_sdk-revoked_example =
    authenticate_sdk-revoked wire (call "Bearer old") (call "") "shop" "prod" "old" server refl refl
      old_key_revoked

-- Delivery: the configuration of "f" is stored, and the stream gets the snapshot.
holds : Holds store "shop" "prod" "f" (pos 3) (flag "f")
unfolding get
holds = record {
  configs = ("prod", []) ∷ [];
  versions = ("prod", pos 3) ∷ [];
  flags = flags;
  segments = [];
  configs_there = refl;
  versions_there = refl;
  version_there = refl;
  flags_there = refl;
  segments_there = refl;
  flag_there = refl;
  distinct = (refl, tt);
  keyed = (refl, tt);
}

registry : IsRegistry (subscribers server.hub "prod")
unfolding get
registry = record { distinct = (refl, tt); keyed = (refl, tt) }

sub_there : get "sub" (subscribers server.hub "prod") ≡ some sub
unfolding get
sub_there = refl

put_flag_config_delivers_example :
    Delivered
      (handle_put_flag_config wire (call "") "shop" "f" "prod" server).0
      "shop"
      "prod"
      "sub"
      "f"
      (pos 3)
      (flag "f")
      gate_config
      sub
put_flag_config_delivers_example =
    put_flag_config_delivers wire (call "") server "shop" "f" "prod" "sub" gate_config (pos 3)
      (flag "f") sub refl holds refl (λ t. ("sum", refl)) registry sub_there refl

-- Audit
abbrev create_call : Call
create_call = record (call "") { body = "toys" }

abbrev with_toys : Memory.Memory
with_toys = record store {
  projects = store.projects ++ ("toys", blank_project "toys") ∷ [];
  flags = store.flags ++ ("toys", []) ∷ [];
  segments = store.segments ++ ("toys", []) ∷ [];
  configs = store.configs ++ ("toys", []) ∷ [];
  versions = store.versions ++ ("toys", []) ∷ [];
}

toys_stored : Memory.create_project store (blank_project "toys") ≡ Types.ok with_toys
unfolding Memory.create_project get put
toys_stored = refl

create_project-list_audit_example :
    list_audit (handle_create_project wire create_call server).0.store "toys" (pos 10)
    ≡ list_audit with_toys "toys" (pos 10)
create_project-list_audit_example =
    create_project-list_audit wire create_call server (blank_project "toys") with_toys "toys"
      (pos 10) refl refl toys_stored refl
