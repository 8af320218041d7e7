-- ===== src/Store/Memory/Counters.antt =====
-- internal/store/memory.go: the version of an environment and the audit log. Both counters are `int64`s,
-- which wrap. `fmt.Sprintf("audit-%d", n)` is a parameter.
use pennant.Prelude.{
  String, none, some, List, [], ◌∷◌, ◌++◌, ◌-◌, length, drop, ltb, ◌&&◌, if◌then◌else◌,
}
use pennant.Prelude.Int.{ℤ, pos, ◌+ℤ◌, wrap64, ltb_ℤ, pos_part}
use pennant.Prelude.Dict.{get, put}
use pennant.Store.Types.{AuditEntry, Reply, ok, failed, project_not_found, environment_not_found}
use pennant.Store.Memory.{Memory}

unfoldable pub get_env_version : Memory → String → String → Reply ℤ
get_env_version s project_key env_key = elim (get project_key s.versions) [
  | none ↦ failed (project_not_found project_key)
  | some envs ↦ elim (get env_key envs) [
    | none ↦ failed (environment_not_found env_key project_key)
    | some v ↦ ok v
  ]
]

-- The new version, and the store that holds it.
unfoldable pub increment_env_version : Memory → String → String → Reply (ℤ × Memory)
increment_env_version s project_key env_key = elim (get project_key s.versions) [
  | none ↦ failed (project_not_found project_key)
  | some envs ↦ elim (get env_key envs) [
    | none ↦ failed (environment_not_found env_key project_key)
    | some v ↦
        let v' = wrap64 (v +ℤ pos 1) in
        ok (v', record s { versions = put project_key (put env_key v' envs) s.versions })
  ]
]

-- The store after the increment, the old one on an error.
abbrev pub after_increment : Reply (ℤ × Memory) → Memory → Memory
after_increment (failed e) s = s
after_increment (ok r) s = r.1

-- The entries of a project, none for a project without any.
abbrev pub entries_of : Memory → String → List AuditEntry
entries_of s project_key = elim (get project_key s.audits) [ none ↦ [] | some es ↦ es ]

unfoldable pub append_audit : (ℤ → String) → Memory → AuditEntry → Reply Memory
append_audit audit_id s entry =
    let n = wrap64 (s.audit_seq +ℤ pos 1) in
    ok (record s {
      audit_seq = n;
      audits =
          put entry.project_key
            (entries_of s entry.project_key ++ record entry { id = audit_id n } ∷ []) s.audits;
    })

-- The last `limit` entries, all of them when it is not positive.
unfoldable pub list_audit : Memory → String → ℤ → Reply (List AuditEntry)
list_audit s project_key limit =
    let es = entries_of s project_key in
    ok (
      if ltb_ℤ (pos 0) limit && ltb (pos_part limit) (length es)
      then drop (length es - pos_part limit) es
      else es)
