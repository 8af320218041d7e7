-- ===== src/Checks/Requests.antt =====
-- Requests to internal/api/server.go: a server with one project, one flag and one stream.
pub mod Theorems
use pennant.Prelude.{
  ℕ, String, Option, none, some, List, [], ◌∷◌, Bool, true, false, ◌==◌, if◌then◌else◌,
}
use pennant.Prelude.Int.{ℤ, pos}
use pennant.Prelude.Dict.{Dict}
use pennant.Model.Types.{Project, Environment, SdkKey, sdk_key_server, Flag, FlagConfig}
use pennant.Snapshot.Types.{Snapshot}
use pennant.Stream.Types.{Subscriber}
use pennant.Stream.Hub.{Hub}
use pennant.Store.Memory.{Memory}
use pennant.Auth.{viewer, new_user_store}
use pennant.Auth.Middleware.{Claims, JwtService}
use pennant.SdkAuth.{SdkKeyRecord}
use pennant.Api.Types.{Server, Wire, Call, EvaluateRequest}
use pennant.Checks.Fixtures.{user, flag, gate_config}

abbrev pub ask : EvaluateRequest ℕ
ask = record { flag_key = "f"; context = user "eve" }

abbrev pub blank_project : String → Project
blank_project key = record { key = key; name = key; description = ""; environments = [] }

-- A body is the key of what it holds, and JSON is a key.
abbrev pub wire : Wire ℕ
wire = record {
  decode_login = λ body. none;
  decode_refresh = λ body. none;
  decode_project = λ body. if body == "" then none else some (blank_project body);
  decode_environment = λ body. none;
  decode_key_type = λ body. some body;
  decode_flag = λ body. some (flag body);
  decode_config = λ body. some gate_config;
  decode_segment = λ body. none;
  decode_experiment = λ body. none;
  decode_evaluate = λ body. some ask;
  decode_events = λ body. none;
  encode_project = λ p. p.key;
  encode_environment = λ e. e.key;
  encode_flag = λ f. f.key;
  encode_segment = λ s. s.key;
  encode_snapshot = λ s. s.environment_key;
  atoi = λ s. some (pos 700);
  scan_version = λ s. pos 0;
  key_value = λ kind env now. "sdk";
  audit_id = λ i. "audit";
  sub_id = λ i. "sub";
  check_password = λ hash password. hash == password;
  checksum = λ s. some "sum";
}

abbrev pub old_key : SdkKey
old_key = record { value = "old"; kind = sdk_key_server; created_at = 0 }

abbrev pub prod : Environment
prod = record {
  key = "prod";
  name = "prod";
  color = "";
  project_key = "shop";
  sdk_keys = old_key ∷ [];
  version = pos 0;
}

abbrev pub flags : Dict Flag
flags = ("f", flag "f") ∷ []

abbrev pub store : Memory
store = record {
  projects =
      ("shop", record { key = "shop"; name = "shop"; description = ""; environments = prod ∷ [] })
      ∷ [];
  flags = ("shop", flags) ∷ [];
  segments = ("shop", []) ∷ [];
  configs = ("shop", ("prod", []) ∷ []) ∷ [];
  versions = ("shop", ("prod", pos 3) ∷ []) ∷ [];
  audits = [];
  audit_seq = pos 0;
}

-- A stream of another project with an environment of the same key.
abbrev pub sub : Subscriber Snapshot
sub = record {
  id = "sub";
  env_key = "prod";
  project_key = "games";
  sdk_key = "k";
  ch = [];
  last_sent = pos 0;
  connected_at = 0;
  user_agent = "";
  sdk_version = "";
}

abbrev pub hub : Hub Snapshot
hub = record {
  by_env = ("prod", ("sub", sub) ∷ []) ∷ [];
  rings = [];
  active_connections = pos 1;
  slow_client_disconnects = pos 0;
  publish_count = pos 0;
  sub_seq = pos 1;
}

abbrev pub old_record : SdkKeyRecord
old_record = record {
  value = "old";
  project_key = "shop";
  env_key = "prod";
  kind = "server";
  revoked = false;
}

abbrev pub server : Server ℕ
server = record {
  store = store;
  hub = hub;
  keys = ("old", old_record) ∷ [];
  ingestor = none;
  users = new_user_store;
  experiments = none;
}

abbrev pub call : String → Call
call authorization = record {
  claims = none;
  limit = "700";
  offset = "";
  env = "";
  authorization = authorization;
  last_event_id = "";
  user_agent = "";
  body = "";
  now = 5;
  random = "r";
}

abbrev pub viewer_claims : Claims
viewer_claims = record { user_id = "v"; email = "v@x"; name = "V"; role = viewer }

-- Every token is a viewer's.
abbrev pub viewers : JwtService
viewers = record { verify = λ token. some viewer_claims; issue = λ claims. none }
