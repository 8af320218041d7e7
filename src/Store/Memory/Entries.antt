-- ===== src/Store/Memory/Entries.antt =====
-- internal/store/memory.go: flags, their configurations in an environment, and segments.
use pennant.Prelude.{String, none, some, List, []}
use pennant.Prelude.Dict.{Dict, get, put, delete}
use pennant.Model.Types.{Time, Flag, FlagConfig, Segment}
use pennant.Store.Types.{
  Reply, ok, failed, project_not_found, environment_not_found, flag_not_found, flag_exists,
  config_not_found, segment_not_found, segment_exists,
}
use pennant.Store.Memory.{Memory, entries}

unfoldable pub get_flag : Memory → String → String → Reply Flag
get_flag s project_key flag_key = elim (get project_key s.flags) [
  | none ↦ failed (project_not_found project_key)
  | some flags ↦ elim (get flag_key flags) [
    | none ↦ failed (flag_not_found flag_key project_key)
    | some f ↦ ok f
  ]
]

unfoldable pub list_flags : Memory → String → Reply (List Flag)
list_flags s project_key = elim (get project_key s.flags) [
  | none ↦ failed (project_not_found project_key)
  | some flags ↦ ok (entries flags)
]

unfoldable pub create_flag : Time → Memory → String → Flag → Reply Memory
create_flag now s project_key flag = elim (get project_key s.flags) [
  | none ↦ failed (project_not_found project_key)
  | some flags ↦ elim (get flag.key flags) [
    | some f ↦ failed (flag_exists flag.key project_key)
    | none ↦ ok (record s {
      flags =
          put project_key (put flag.key (record flag { created_at = now; updated_at = now }) flags)
            s.flags;
    })
  ]
]

unfoldable pub update_flag : Time → Memory → String → Flag → Reply Memory
update_flag now s project_key flag = elim (get project_key s.flags) [
  | none ↦ failed (project_not_found project_key)
  | some flags ↦ elim (get flag.key flags) [
    | none ↦ failed (flag_not_found flag.key project_key)
    | some f ↦ ok (record s {
      flags = put project_key (put flag.key (record flag { updated_at = now }) flags) s.flags;
    })
  ]
]

unfoldable pub delete_flag : Memory → String → String → Reply Memory
delete_flag s project_key flag_key = elim (get project_key s.flags) [
  | none ↦ failed (project_not_found project_key)
  | some flags ↦ ok (record s { flags = put project_key (delete flag_key flags) s.flags })
]

unfoldable pub get_flag_config : Memory → String → String → String → Reply FlagConfig
get_flag_config s project_key env_key flag_key = elim (get project_key s.configs) [
  | none ↦ failed (project_not_found project_key)
  | some envs ↦ elim (get env_key envs) [
    | none ↦ failed (environment_not_found env_key project_key)
    | some cfgs ↦ elim (get flag_key cfgs) [
      | none ↦ failed (config_not_found flag_key env_key)
      | some cfg ↦ ok cfg
    ]
  ]
]

-- The configurations of an environment, made when they are missing.
abbrev pub configs_in : String → Dict (Dict FlagConfig) → Dict FlagConfig
configs_in env_key envs = elim (get env_key envs) [ none ↦ [] | some cfgs ↦ cfgs ]

unfoldable pub upsert_flag_config : Memory → String → String → String → FlagConfig → Reply Memory
upsert_flag_config s project_key env_key flag_key cfg = elim (get project_key s.configs) [
  | none ↦ failed (project_not_found project_key)
  | some envs ↦ ok (record s {
    configs =
        put project_key (put env_key (put flag_key cfg (configs_in env_key envs)) envs) s.configs;
  })
]

unfoldable pub get_segment : Memory → String → String → Reply Segment
get_segment s project_key seg_key = elim (get project_key s.segments) [
  | none ↦ failed (project_not_found project_key)
  | some segs ↦ elim (get seg_key segs) [
    | none ↦ failed (segment_not_found seg_key project_key)
    | some seg ↦ ok seg
  ]
]

unfoldable pub list_segments : Memory → String → Reply (List Segment)
list_segments s project_key = elim (get project_key s.segments) [
  | none ↦ failed (project_not_found project_key)
  | some segs ↦ ok (entries segs)
]

unfoldable pub create_segment : Memory → String → Segment → Reply Memory
create_segment s project_key seg = elim (get project_key s.segments) [
  | none ↦ failed (project_not_found project_key)
  | some segs ↦ elim (get seg.key segs) [
    | some old ↦ failed (segment_exists seg.key project_key)
    | none ↦ ok (record s { segments = put project_key (put seg.key seg segs) s.segments })
  ]
]

unfoldable pub update_segment : Memory → String → Segment → Reply Memory
update_segment s project_key seg = elim (get project_key s.segments) [
  | none ↦ failed (project_not_found project_key)
  | some segs ↦ elim (get seg.key segs) [
    | none ↦ failed (segment_not_found seg.key project_key)
    | some old ↦ ok (record s { segments = put project_key (put seg.key seg segs) s.segments })
  ]
]

unfoldable pub delete_segment : Memory → String → String → Reply Memory
delete_segment s project_key seg_key = elim (get project_key s.segments) [
  | none ↦ failed (project_not_found project_key)
  | some segs ↦ ok (record s { segments = put project_key (delete seg_key segs) s.segments })
]
