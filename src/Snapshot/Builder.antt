-- ===== src/Snapshot/Builder.antt =====
-- internal/snapshot/builder.go: the snapshot of an environment, read from the in-memory configuration store.
-- `none` is an error. `Checksum` of canonical.go is an argument, and so is the time.
pub mod Content
use pennant.Prelude.{
  String, Option, none, some, List, [], ◌∷◌, Bool, true, false, ◌>>=◌, if◌then◌else◌,
}
use pennant.Prelude.Int.{ℤ, pos}
use pennant.Prelude.Dict.{Dict, put}
use pennant.Model.Types.{Time, Flag, FlagConfig, Segment}
use pennant.Snapshot.Types.{ResolvedFlag, Snapshot}
use pennant.Store.Types.{Reply, failed, ok}
use pennant.Store.Memory.{Memory}
use pennant.Store.Memory.Entries.{list_flags, list_segments, get_flag_config}
use pennant.Store.Memory.Counters.{get_env_version}

-- `if err != nil { return nil, err }`
abbrev pub value_of {ℓ} : {A : Type ℓ} → Reply A → Option A
value_of (failed e) = none
value_of (ok a) = some a

-- A flag without a configuration is off and serves its first variation.
abbrev pub default_config : FlagConfig
default_config = record {
  on = false;
  prerequisites = [];
  targets = [];
  rules = [];
  fallthrough = record { variation = none; rollout = none };
  off_variation = some (pos 0);
  salt = "";
  track_events = false;
  version = pos 0;
}

abbrev pub config_or_default : Reply FlagConfig → FlagConfig
config_or_default (failed e) = default_config
config_or_default (ok cfg) = cfg

abbrev pub resolve_flag : Flag → FlagConfig → ResolvedFlag
resolve_flag f cfg = record {
  key = f.key;
  name = f.name;
  description = f.description;
  kind = f.kind;
  variations = f.variations;
  tags = f.tags;
  temporary = f.temporary;
  archived = f.archived;
  config = cfg;
}

-- `for _, f := range flags`, into the map so far.
unfoldable pub resolve_flags :
    (String → FlagConfig) → List Flag → Dict ResolvedFlag → Dict ResolvedFlag
resolve_flags config_of [] m = m
resolve_flags config_of (f ∷ fs) m =
    resolve_flags config_of fs
      (if f.archived then m else put f.key (resolve_flag f (config_of f.key)) m)

-- `for _, seg := range segments`
unfoldable pub segment_map : List Segment → Dict Segment → Dict Segment
segment_map [] m = m
segment_map (seg ∷ segs) m = segment_map segs (put seg.key seg m)

-- The snapshot before its checksum.
abbrev pub unchecked : Time → Memory → String → String → ℤ → List Flag → List Segment → Snapshot
unchecked now s project_key env_key version flags segments = record {
  environment_key = env_key;
  project_key = project_key;
  version = version;
  flags =
      resolve_flags (λ key. config_or_default (get_flag_config s project_key env_key key)) flags [];
  segments = segment_map segments [];
  checksum = "";
  published_at = now;
}

abbrev pub with_checksum : Snapshot → Option String → Option Snapshot
with_checksum snap none = none
with_checksum snap (some sum) = some (record snap { checksum = sum })

unfoldable pub build :
    (Snapshot → Option String) → Time → Memory → String → String → Option Snapshot
build checksum now s project_key env_key =
    value_of (get_env_version s project_key env_key) >>= λ version.
    value_of (list_flags s project_key) >>= λ flags.
    value_of (list_segments s project_key) >>= λ segments.
    let snap = unchecked now s project_key env_key version flags segments in
    with_checksum snap (checksum snap)
