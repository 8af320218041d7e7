-- ===== src/Api/Types.antt =====
-- internal/api/server.go: the state behind the handlers, what a request brings and what a response is.
-- encoding/json, fmt, strconv, bcrypt and the checksum of canonical.go are fields of `Wire`.
use pennant.Prelude.{ℕ, String, Option, none, some, List, Bool}
use pennant.Prelude.Int.{ℤ}
use pennant.Model.Types.{Time, Project, Environment, SdkKey, Flag, FlagConfig, Segment, Reason}
use pennant.Model.Validate.{ValidationError, Validation, valid, panicked, invalid}
use pennant.Eval.Runtime.{Value, Context}
use pennant.Snapshot.Types.{Snapshot}
use pennant.Stream.Hub.{Hub}
use pennant.Store.Types.{AuditEntry, StoreError, Reply, failed, ok}
use pennant.Store.Memory.{Memory}
use pennant.Auth.{UserStore, User}
use pennant.Auth.Middleware.{Claims}
use pennant.SdkAuth.{Authenticator}
use pennant.Analytics.{Ingestor, Event}
use pennant.Experiments.{
  Experiment, ExperimentResults, ExperimentStore, ExperimentError, Answer, error, value,
}

-- The fields of `Server` that requests change. The authenticator is always there; a nil ingestor or
-- experiment store is `none`.
pub record Server (F : Type 0) : Type 0 where
  pub store : Memory
  pub hub : Hub Snapshot
  pub keys : Authenticator
  pub ingestor : Option (Ingestor F)
  pub users : UserStore
  pub experiments : Option (ExperimentStore F)

pub record LoginRequest : Type 0 where
  pub email : String
  pub password : String

pub record EvaluateRequest (F : Type 0) : Type 0 where
  pub flag_key : String
  pub context : Context F

pub record EvaluateResponse (F : Type 0) : Type 0 where
  pub flag_key : String
  pub variation_index : Option ℤ
  pub value : Value F
  pub reason : Reason

pub record TokenPair : Type 0 where
  pub access_token : String
  pub refresh_token : String
  pub expires_in : ℤ
  pub token_type : String

pub record Wire (F : Type 0) : Type 0 where
  -- `json.NewDecoder(r.Body).Decode`, into the type that the name says
  pub decode_login : String → Option LoginRequest
  pub decode_refresh : String → Option String
  pub decode_project : String → Option Project
  pub decode_environment : String → Option Environment
  pub decode_key_type : String → Option String
  pub decode_flag : String → Option Flag
  pub decode_config : String → Option FlagConfig
  pub decode_segment : String → Option Segment
  pub decode_experiment : String → Option (Experiment F)
  pub decode_evaluate : String → Option (EvaluateRequest F)
  pub decode_events : String → Option (List (Event F))
  -- `json.Marshal`
  pub encode_project : Project → String
  pub encode_environment : Environment → String
  pub encode_flag : Flag → String
  pub encode_segment : Segment → String
  pub encode_snapshot : Snapshot → String
  -- strconv.Atoi, and fmt.Sscanf with "%d" into a zero
  pub atoi : String → Option ℤ
  pub scan_version : String → ℤ
  -- "sdk-%s-%s-%d", and the ids that the store and the hub print
  pub key_value : String → String → Time → String
  pub audit_id : ℤ → String
  pub sub_id : ℤ → String
  pub check_password : String → String → Bool
  pub checksum : Snapshot → Option String

-- What a handler reads of a request, apart from the names in its path: the claims that the middleware put
-- there, the query, headers and body. All readings of the clock in one request are `now`, and `random` is
-- the text of a new refresh token.
pub record Call : Type 0 where
  pub claims : Option Claims
  pub limit : String
  pub offset : String
  pub env : String
  pub authorization : String
  pub last_event_id : String
  pub user_agent : String
  pub body : String
  pub now : Time
  pub random : String

-- `PaginatedResponse`
pub record Page (A : Type 0) : Type 0 where
  pub items : List A
  pub total : ℕ
  pub limit : ℕ
  pub offset : ℕ

-- The values that `writeJSON` and `writeError` encode; an error keeps its arguments, but
-- for that of the builder, whose text the model of the builder does not keep.
pub data Body (F : Type 0) : Type 0 where
  no_body : Body F
  problem : String → Body F
  store_problem : StoreError → Body F
  experiment_problem : ExperimentError → Body F
  validation_problem : ValidationError → Body F
  build_problem : Body F
  flag_missing : String → Body F
  status_body : String → Body F
  healthy_body : Body F
  degraded_body : StoreError → Body F
  tokens_body : TokenPair → Body F
  user_body : User → Body F
  project_body : Project → Body F
  projects_body : Page Project → Body F
  environment_body : Environment → Body F
  environments_body : List Environment → Body F
  sdk_key_body : SdkKey → Body F
  sdk_keys_body : List SdkKey → Body F
  flag_body : Flag → Body F
  flags_body : Page Flag → Body F
  config_body : FlagConfig → Body F
  segment_detail_body : Segment → Body F
  segments_body : Page Segment → Body F
  experiment_body : Experiment F → Body F
  experiments_body : List (Experiment F) → Body F
  results_body : ExperimentResults F → Body F
  audit_body : List AuditEntry → Body F
  snapshot_body : Snapshot → Body F
  evaluation_body : EvaluateResponse F → Body F

pub record Response (F : Type 0) : Type 0 where
  pub status : ℕ
  pub body : Body F

-- The server after a request, and its response.
abbrev pub Handled : Type 0 → Type 0
Handled F = Server F × Response F

module _ {F : Type 0} where
  -- `writeJSON` and `writeError`, at the end of a handler
  abbrev pub respond : Server F → ℕ → Body F → Handled F
  respond s status body = (s, record { status = status; body = body })

  -- `if err := json.NewDecoder(r.Body).Decode(&x); err != nil { … }`
  abbrev pub decoded : {A : Type 0} → Server F → Option A → (A → Handled F) → Handled F
  decoded s none next = respond s 400 (problem "invalid request body")
  decoded s (some x) next = next x

  -- `if err != nil { writeError(w, status, err.Error()); return }`
  abbrev pub checked : {A : Type 0} → Server F → ℕ → Reply A → (A → Handled F) → Handled F
  checked s status (failed e) next = respond s status (store_problem e)
  checked s status (ok a) next = next a

  -- The same for the experiment store.
  abbrev pub answered : {A : Type 0} → Server F → ℕ → Answer A → (A → Handled F) → Handled F
  answered s status (error e) next = respond s status (experiment_problem e)
  answered s status (value a) next = next a

  -- `if err := x.Validate(); err != nil { … }`
  -- A panic is answered by the middleware Recoverer.
  abbrev pub validated : Server F → Validation → Handled F → Handled F
  validated s (invalid e) next = respond s 400 (validation_problem e)
  validated s panicked next = respond s 500 no_body
  validated s valid next = next
