-- ===== src/Checks/Building.antt =====
-- internal/snapshot/builder.go at a store with two flags, one of them archived.
use pennant.Prelude.{none, some, [], ◌∷◌, true, ◌≡◌, refl}
use pennant.Prelude.Int.{pos}
use pennant.Prelude.Dict.{Dict, get, put}
use pennant.Model.Types.{Flag}
use pennant.Snapshot.Types.{Snapshot}
use pennant.Snapshot.Builder.{
  build, resolve_flag, resolve_flags, segment_map, default_config, config_or_default,
}
use pennant.Snapshot.Builder.Content.{unless_archived, build-flags}
use pennant.Store.Types.{ok}
use pennant.Store.Memory.{Memory}
use pennant.Store.Memory.Entries.{get_flag_config, list_flags, list_segments}
use pennant.Store.Memory.Counters.{get_env_version}
use pennant.Checks.Fixtures.{flag, gate_config, beta}

abbrev two_flags : Dict Flag
two_flags =
    ("f", flag "f") ∷ ("old", record (flag "old") { archived = true }) ∷ ("g", flag "g") ∷ []

abbrev stored : Memory
stored = record {
  projects = [];
  flags = ("p", two_flags) ∷ [];
  segments = ("p", ("beta", beta) ∷ []) ∷ [];
  configs = ("p", ("live", ("f", gate_config) ∷ []) ∷ []) ∷ [];
  versions = ("p", ("live", pos 4) ∷ []) ∷ [];
  audits = [];
  audit_seq = pos 0;
}

abbrev built : Snapshot
built = record {
  environment_key = "live";
  project_key = "p";
  version = pos 4;
  flags =
      ("f", resolve_flag (flag "f") gate_config)
      ∷ ("g", resolve_flag (flag "g") default_config)
      ∷ [];
  segments = ("beta", beta) ∷ [];
  checksum = "sum";
  published_at = 9;
}

was_built : build (λ snap. some "sum") 9 stored "p" "live" ≡ some built
unfolding build resolve_flags segment_map get_env_version list_flags list_segments get_flag_config
    get put
was_built = refl

two_flags_found : get "p" stored.flags ≡ some two_flags
unfolding get
two_flags_found = refl

build-flags_example :
    (get_env_version stored "p" "live" ≡ ok (pos 4))
    × (get "g" built.flags
        ≡ unless_archived
            (λ key. config_or_default (get_flag_config stored "p" "live" key))
            (get "g" two_flags)
            none)
build-flags_example =
    build-flags (λ snap. some "sum") 9 stored "p" "live" "g" built two_flags two_flags_found
      (unfold get in (refl, (refl, (refl, tt)))) (refl, (refl, (refl, tt))) was_built
