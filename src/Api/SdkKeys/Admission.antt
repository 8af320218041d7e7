-- ===== src/Api/SdkKeys/Admission.antt =====
-- SDK keys that internal/api/server.go creates and revokes, and what authenticateSDK says of them afterwards.
use Prim.Native.String
use pennant.Prelude.{
  ℕ, ◌≤◌, [], ◌∷◌, ◌++◌, String, Option, none, some, ◌≡◌, ◌≢◌, refl, sym, ap, ◌∙◌, subst, Bool,
  true, false, not, arith, ◌==◌, eq_refl, if◌then◌else◌,
}
use pennant.Prelude.Texts.{has_prefix-append, slice_after}
use pennant.Prelude.Dict.{get-put}
use pennant.Model.Types.{SdkKey}
use pennant.Store.Types.{Reply, failed, ok}
use pennant.Store.Memory.{Memory, get_environment, update_environment}
use pennant.SdkAuth.{SdkKeyRecord, Authenticator, register, lookup, extract_bearer}
use pennant.SdkAuth.Revocation.{lookup-revoke}
use pennant.Api.Types.{
  Server, Wire, Call, Handled, Response, Body, sdk_key_body, respond, decoded, checked,
}
use pennant.Api.SdkKeys.{
  new_key, default_type, has_key, handle_create_sdk_key, handle_revoke_sdk_key,
}
use pennant.Api.Delivery.{rejected, admitted, admission_of, authenticate_sdk}

pub extract_bearer-append : (key : String) → extract_bearer (String.◌++◌ "Bearer " key) ≡ key
unfolding extract_bearer
extract_bearer-append key = simp (has_prefix-append "Bearer " key) (slice_after "Bearer " key)

module _ {F : Type 0} (P : Handled F → Type 0) where
  decoded-cases :
      {A : Type 0} (s : Server F) (o : Option A) (next : A → Handled F)
      → ((body : Body F) → P (respond s 400 body))
      → ((a : A) → P (next a))
      → P (decoded s o next)
  decoded-cases s none next bad good = bad _
  decoded-cases s (some a) next bad good = good a

  checked-cases :
      {A : Type 0} (s : Server F) (status : ℕ) (r : Reply A) (next : A → Handled F)
      → ((body : Body F) → P (respond s status body))
      → ((a : A) → P (next a))
      → P (checked s status r next)
  checked-cases s status (failed e) next bad good = bad _
  checked-cases s status (ok a) next bad good = good a

  if-cases : (b : Bool) (x y : Handled F) → P x → P y → P (if b then x else y)
  if-cases true x y p q = p
  if-cases false x y p q = q

-- The record that is registered for a key.
abbrev pub issued : String → String → SdkKey → String → SdkKeyRecord
issued p env key kind = record {
  value = key.value;
  project_key = p;
  env_key = env;
  kind = kind;
  revoked = false;
}

-- The response to a created key.
abbrev pub created : {F : Type 0} → SdkKey → Response F
created key = record { status = 201; body = sdk_key_body key }

lookup-register_self :
    (a : Authenticator) (rec : SdkKeyRecord)
    → rec.revoked ≡ false
    → lookup (register a rec) rec.value ≡ some rec
unfolding lookup register
lookup-register_self a rec h =
    ground (arith, get-put rec.value rec.value rec a, eq_refl rec.value, h)

abbrev key_in : {F : Type 0} → SdkKey → Response F → SdkKey
key_in d r = elim (r.body) [ sdk_key_body k ↦ k | _ ↦ d ]

registered :
    (p env : String) (key : SdkKey) (a : Authenticator) (kind : String) {k : SdkKey}
    → k ≡ key
    → lookup (register a (issued p env k kind)) key.value ≡ some (issued p env key kind)
registered p env key a kind e =
    subst
      (λ (k : SdkKey).
        lookup (register a (issued p env k kind)) key.value ≡ some (issued p env key kind))
      (sym e) (lookup-register_self a (issued p env key kind) refl)

module _ {F : Type 0} (p env : String) (key : SdkKey) where
  -- A response with the key is given only with the key registered.
  record Grants (out : Handled F) : Type 0 where
    grants :
        out.1 ≡ created key
        → (kind : String) × (lookup out.0.keys key.value ≡ some (issued p env key kind))

  not_granted :
      (s : Server F) (status : ℕ) (body : Body F) → status ≢ 201 → Grants (respond s status body)
  not_granted s status body h = record {
    grants = λ e. absurd (h (ap (λ (r : Response F). r.status) e));
  }

  decoded-Grants :
      {A : Type 0} (s : Server F) (o : Option A) (next : A → Handled F)
      → ((a : A) → Grants (next a))
      → Grants (decoded s o next)
  decoded-Grants s o next =
      decoded-cases Grants s o next (λ body. not_granted s 400 body (omega arith))

  checked-Grants :
      {A : Type 0} (s : Server F) (status : ℕ) (r : Reply A) (next : A → Handled F)
      → 400 ≤ status
      → ((a : A) → Grants (next a))
      → Grants (checked s status r next)
  checked-Grants s status r next h =
      checked-cases Grants s status r next (λ body. not_granted s status body (λ e. omega arith))

  granted :
      (store : Memory) (s : Server F) (a : Authenticator) (k : SdkKey) (kind : String)
      → Grants (
          respond
            (record s { store = store; keys = register a (issued p env k kind) })
            201
            (sdk_key_body k))
  granted store s a k kind = record {
    grants = λ h. (kind, registered p env key a kind (ap (key_in key) h));
  }

module _ {F : Type 0} (wire : Wire F) (later : Call) where
  authenticate_bearer :
      (s : Server F) (key : String)
      → later.authorization ≡ String.◌++◌ "Bearer " key
      → authenticate_sdk wire later s
        ≡ (if key == "" then rejected "missing SDK key" else admission_of (lookup s.keys key))
  unfolding authenticate_sdk
  authenticate_bearer s key e =
      ap (λ k. if k == "" then rejected "missing SDK key" else admission_of (lookup s.keys k))
        (ap extract_bearer e ∙ extract_bearer-append key)

  module _ (call : Call) where
    revoked_lookup :
        (p env value : String) (s : Server F)
        → (handle_revoke_sdk_key wire call p env value s).1.status ≡ 204
        → lookup (handle_revoke_sdk_key wire call p env value s).0.keys value ≡ none
    unfolding handle_revoke_sdk_key
    revoked_lookup p env value s =
        checked-cases (λ (out : Handled F). out.1.status ≡ 204 → lookup out.0.keys value ≡ none) s
          404 (get_environment s.store p env) _ (λ body h. absurd (omega (arith, h)))
          λ environment.
            if-cases (λ (out : Handled F). out.1.status ≡ 204 → lookup out.0.keys value ≡ none)
              (not (has_key value environment.sdk_keys)) _ _ (λ h. absurd (omega (arith, h)))
              (checked-cases
                (λ (out : Handled F). out.1.status ≡ 204 → lookup out.0.keys value ≡ none) s 500
                (update_environment s.store p _) _ (λ body h. absurd (omega (arith, h)))
                λ m h. lookup-revoke s.keys value value ∙ ground (arith, eq_refl value))

    created_lookup :
        (p env : String) (key : SdkKey) (s : Server F)
        → Grants p env key (handle_create_sdk_key wire call p env s)
    unfolding handle_create_sdk_key
    created_lookup p env key s =
        decoded-Grants p env key s (wire.decode_key_type call.body) _ λ requested.
          checked-Grants p env key s 404 (get_environment s.store p env) _ (omega arith)
            λ environment.
              checked-Grants p env key s 500
                (update_environment s.store p (record environment {
                  sdk_keys =
                      environment.sdk_keys
                      ++ new_key wire call (default_type wire call requested) env ∷ [];
                }))
                _ (omega arith)
                λ m.
                  granted p env key m s s.keys
                    (new_key wire call (default_type wire call requested) env)
                    (default_type wire call requested)

    -- A key that the server created with status 201 for an environment is admitted when a later request shows it as a
    -- bearer token, as one of this project and environment.
    pub authenticate_sdk-created :
        (p env : String) (s : Server F) (key : SdkKey)
        → (key.value == "") ≡ false
        → later.authorization ≡ String.◌++◌ "Bearer " key.value
        → (handle_create_sdk_key wire call p env s).1 ≡ created key
        → (kind : String) × (authenticate_sdk wire later (handle_create_sdk_key wire call p env s).0
            ≡ admitted (issued p env key kind))
    authenticate_sdk-created p env s key there shown h =
        let (kind, e) = (created_lookup p env key s).grants h in
        (
          kind,
          authenticate_bearer (handle_create_sdk_key wire call p env s).0 key.value shown
              ∙ rw (there, e) refl,
        )

    -- A key that the server revoked with status 204 is refused when a later request shows it.
    pub authenticate_sdk-revoked :
        (p env value : String) (s : Server F)
        → (value == "") ≡ false
        → later.authorization ≡ String.◌++◌ "Bearer " value
        → (handle_revoke_sdk_key wire call p env value s).1.status ≡ 204
        → authenticate_sdk wire later (handle_revoke_sdk_key wire call p env value s).0
          ≡ rejected "invalid or revoked SDK key"
    authenticate_sdk-revoked p env value s there shown h =
        authenticate_bearer (handle_revoke_sdk_key wire call p env value s).0 value shown
        ∙ rw (there, revoked_lookup p env value s h) refl
