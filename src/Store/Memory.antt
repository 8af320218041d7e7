-- ===== src/Store/Memory.antt =====
-- internal/store/memory.go: the in-memory store. Each operation holds the store's lock, so it is one step
-- from a store to a store. Maps are `Dict`s; a nil inner map of the source is a missing one, since only
-- maps that were made are stored. A lookup's pointer is its value: what a caller writes through one, or
-- through what it handed in, is not modelled. `time.Now` is an argument. Projects and environments are here, flags,
-- configurations and segments in `Entries`, versions and the audit log in `Counters`.
pub mod Entries
pub mod Counters
pub mod Maps
pub mod WellFormed
pub mod Steps
pub mod Operations
pub mod Lookups
use pennant.Prelude.{
  String, Option, none, some, List, [], ◌∷◌, map, Bool, true, false, is_some, if◌then◌else◌, ◌==◌,
  ◌++◌,
}
use pennant.Prelude.Int.{ℤ, pos}
use pennant.Prelude.Dict.{Dict, get, put, delete}
use pennant.Model.Types.{Project, Environment, Flag, FlagConfig, Segment}
use pennant.Store.Types.{
  AuditEntry, Reply, ok, failed, project_not_found, project_exists, environment_not_found,
  environment_exists,
}

pub record Memory : Type 0 where
  pub projects : Dict Project
  pub flags : Dict (Dict Flag)
  pub segments : Dict (Dict Segment)
  pub configs : Dict (Dict (Dict FlagConfig))
  pub versions : Dict (Dict ℤ)
  pub audits : Dict (List AuditEntry)
  pub audit_seq : ℤ

abbrev pub new_memory_store : Memory
new_memory_store = record {
  projects = [];
  flags = [];
  segments = [];
  configs = [];
  versions = [];
  audits = [];
  audit_seq = pos 0;
}

-- The values of a map, in the order that a `range` visits them.
abbrev pub entries {ℓ} : {V : Type ℓ} → Dict V → List V
entries [] = []
entries ((k, v) ∷ m) = v ∷ entries m

unfoldable pub get_project : Memory → String → Reply Project
get_project s key = elim (get key s.projects) [
  | none ↦ failed (project_not_found key)
  | some p ↦ ok p
]

unfoldable pub list_projects : Memory → Reply (List Project)
list_projects s = ok (entries s.projects)

-- `for _, env := range p.Environments`, for one of the two maps: an empty entry for each environment.
abbrev pub register {ℓ} : {V : Type ℓ} → V → List Environment → Dict V → Dict V
register v [] m = m
register v (env ∷ envs) m = register v envs (put env.key v m)

unfoldable pub create_project : Memory → Project → Reply Memory
create_project s p = elim (get p.key s.projects) [
  | some q ↦ failed (project_exists p.key)
  | none ↦ ok (record s {
    projects = put p.key p s.projects;
    flags = put p.key [] s.flags;
    segments = put p.key [] s.segments;
    configs = put p.key (register [] p.environments []) s.configs;
    versions = put p.key (register (pos 0) p.environments []) s.versions;
  })
]

unfoldable pub update_project : Memory → Project → Reply Memory
update_project s p = elim (get p.key s.projects) [
  | none ↦ failed (project_not_found p.key)
  | some q ↦ ok (record s { projects = put p.key p s.projects })
]

unfoldable pub delete_project : Memory → String → Reply Memory
delete_project s key = ok (record s {
  projects = delete key s.projects;
  flags = delete key s.flags;
  segments = delete key s.segments;
  configs = delete key s.configs;
  versions = delete key s.versions;
})

-- The first environment with the key.
abbrev pub find_environment : String → List Environment → Option Environment
find_environment key [] = none
find_environment key (e ∷ es) = if e.key == key then some e else find_environment key es

-- `p.Environments[i] = *env` at the first environment with its key.
abbrev pub replace_environment : Environment → List Environment → List Environment
replace_environment env [] = []
replace_environment env (e ∷ es) =
    if e.key == env.key then env ∷ es else e ∷ replace_environment env es

-- `append(p.Environments[:i], p.Environments[i+1:]...)` at the first environment with the key.
abbrev pub remove_environment : String → List Environment → List Environment
remove_environment key [] = []
remove_environment key (e ∷ es) = if e.key == key then es else e ∷ remove_environment key es

unfoldable pub get_environment : Memory → String → String → Reply Environment
get_environment s project_key env_key = elim (get project_key s.projects) [
  | none ↦ failed (project_not_found project_key)
  | some p ↦ elim (find_environment env_key p.environments) [
    | none ↦ failed (environment_not_found env_key project_key)
    | some env ↦ ok env
  ]
]

unfoldable pub list_environments : Memory → String → Reply (List Environment)
list_environments s project_key = elim (get project_key s.projects) [
  | none ↦ failed (project_not_found project_key)
  | some p ↦ ok p.environments
]

-- The inner map of a project, made when it is missing.
abbrev pub inner {ℓ} : {V : Type ℓ} → String → Dict (Dict V) → Dict V
inner project_key m = elim (get project_key m) [ none ↦ [] | some d ↦ d ]

-- The project is changed through its pointer: here it is put back under the key that found it.
unfoldable pub create_environment : Memory → String → Environment → Reply Memory
create_environment s project_key env = elim (get project_key s.projects) [
  | none ↦ failed (project_not_found project_key)
  | some p ↦ elim (find_environment env.key p.environments) [
    | some e ↦ failed (environment_exists env.key project_key)
    | none ↦ ok (record s {
      projects =
          put project_key (record p { environments = p.environments ++ env ∷ [] }) s.projects;
      configs = put project_key (put env.key [] (inner project_key s.configs)) s.configs;
      versions = put project_key (put env.key (pos 0) (inner project_key s.versions)) s.versions;
    })
  ]
]

unfoldable pub update_environment : Memory → String → Environment → Reply Memory
update_environment s project_key env = elim (get project_key s.projects) [
  | none ↦ failed (project_not_found project_key)
  | some p ↦ elim (find_environment env.key p.environments) [
    | none ↦ failed (environment_not_found env.key project_key)
    | some e ↦ ok (record s {
      projects =
          put project_key (record p { environments = replace_environment env p.environments })
            s.projects;
    })
  ]
]

-- `if m[projectKey] != nil { delete(m[projectKey], envKey) }`
abbrev pub delete_inner {ℓ} : {V : Type ℓ} → String → String → Dict (Dict V) → Dict (Dict V)
delete_inner project_key key m = elim (get project_key m) [
  | none ↦ m
  | some d ↦ put project_key (delete key d) m
]

unfoldable pub delete_environment : Memory → String → String → Reply Memory
delete_environment s project_key env_key = elim (get project_key s.projects) [
  | none ↦ failed (project_not_found project_key)
  | some p ↦ ok (record s {
    projects =
        put project_key (record p { environments = remove_environment env_key p.environments })
          s.projects;
    configs = delete_inner project_key env_key s.configs;
    versions = delete_inner project_key env_key s.versions;
  })
]
