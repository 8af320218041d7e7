-- ===== src/Store/Memory/Operations.antt =====
-- The operations of internal/store/memory.go that change the store, and the stores that they reach.
use pennant.Prelude.{String, refl}
use pennant.Prelude.Int.{ℤ}
use pennant.Prelude.Dict.{get}
use pennant.Model.Types.{Time, Project, Environment, Flag, FlagConfig, Segment}
use pennant.Store.Types.{AuditEntry, after}
use pennant.Store.Memory.{
  Memory, new_memory_store, create_project, update_project, delete_project, create_environment,
  update_environment, delete_environment,
}
use pennant.Store.Memory.Entries.{
  create_flag, update_flag, delete_flag, upsert_flag_config, create_segment, update_segment,
  delete_segment,
}
use pennant.Store.Memory.Counters.{after_increment, increment_env_version, append_audit}
use pennant.Store.Memory.WellFormed.{IsWellFormed}
use pennant.Store.Memory.Steps.{
  create_project-IsWellFormed, update_project-IsWellFormed, delete_project-IsWellFormed,
  create_environment-IsWellFormed, update_environment-IsWellFormed, delete_environment-IsWellFormed,
  create_flag-IsWellFormed, update_flag-IsWellFormed, delete_flag-IsWellFormed,
  upsert_flag_config-IsWellFormed, create_segment-IsWellFormed, update_segment-IsWellFormed,
  delete_segment-IsWellFormed, increment_env_version-IsWellFormed, append_audit-IsWellFormed,
}

-- A call that changes the store, with its arguments and the time that `time.Now` gives.
pub data Operation : Type 0 where
  creating_project updating_project : Project → Operation
  deleting_project : String → Operation
  creating_environment updating_environment : String → Environment → Operation
  deleting_environment : String → String → Operation
  creating_flag updating_flag : Time → String → Flag → Operation
  deleting_flag : String → String → Operation
  upserting_config : String → String → String → FlagConfig → Operation
  creating_segment updating_segment : String → Segment → Operation
  deleting_segment : String → String → Operation
  incrementing_version : String → String → Operation
  appending_audit : AuditEntry → Operation

module _ (audit_id : ℤ → String) where
  -- The store after the call, whether it fails or not.
  unfoldable pub perform : Memory → Operation → Memory
  perform s (creating_project p) = after (create_project s p) s
  perform s (updating_project p) = after (update_project s p) s
  perform s (deleting_project key) = after (delete_project s key) s
  perform s (creating_environment p env) = after (create_environment s p env) s
  perform s (updating_environment p env) = after (update_environment s p env) s
  perform s (deleting_environment p env) = after (delete_environment s p env) s
  perform s (creating_flag now p f) = after (create_flag now s p f) s
  perform s (updating_flag now p f) = after (update_flag now s p f) s
  perform s (deleting_flag p key) = after (delete_flag s p key) s
  perform s (upserting_config p env key cfg) = after (upsert_flag_config s p env key cfg) s
  perform s (creating_segment p g) = after (create_segment s p g) s
  perform s (updating_segment p g) = after (update_segment s p g) s
  perform s (deleting_segment p key) = after (delete_segment s p key) s
  perform s (incrementing_version p env) = after_increment (increment_env_version s p env) s
  perform s (appending_audit entry) = after (append_audit audit_id s entry) s

  -- The stores that operations reach from an empty one.
  pub data Reached : Memory → Type 0 where
    started : Reached new_memory_store
    performed : {s : Memory} → Reached s → (op : Operation) → Reached (perform s op)

  perform-IsWellFormed :
      (s : Memory) (op : Operation) → IsWellFormed s → IsWellFormed (perform s op)
  unfolding perform
  perform-IsWellFormed s (creating_project p) w = create_project-IsWellFormed s w p
  perform-IsWellFormed s (updating_project p) w = update_project-IsWellFormed s w p
  perform-IsWellFormed s (deleting_project key) w = delete_project-IsWellFormed s w key
  perform-IsWellFormed s (creating_environment p env) w = create_environment-IsWellFormed s w p env
  perform-IsWellFormed s (updating_environment p env) w = update_environment-IsWellFormed s w p env
  perform-IsWellFormed s (deleting_environment p env) w = delete_environment-IsWellFormed s w p env
  perform-IsWellFormed s (creating_flag now p f) w = create_flag-IsWellFormed s w now p f
  perform-IsWellFormed s (updating_flag now p f) w = update_flag-IsWellFormed s w now p f
  perform-IsWellFormed s (deleting_flag p key) w = delete_flag-IsWellFormed s w p key
  perform-IsWellFormed s (upserting_config p env key cfg) w =
      upsert_flag_config-IsWellFormed s w p env key cfg
  perform-IsWellFormed s (creating_segment p g) w = create_segment-IsWellFormed s w p g
  perform-IsWellFormed s (updating_segment p g) w = update_segment-IsWellFormed s w p g
  perform-IsWellFormed s (deleting_segment p key) w = delete_segment-IsWellFormed s w p key
  perform-IsWellFormed s (incrementing_version p env) w =
      increment_env_version-IsWellFormed s w p env
  perform-IsWellFormed s (appending_audit entry) w = append_audit-IsWellFormed s w audit_id entry

  empty-IsWellFormed : IsWellFormed new_memory_store
  unfolding get
  empty-IsWellFormed = record {
    flags_of = λ k. refl;
    segments_of = λ k. refl;
    configs_of = λ k. refl;
    versions_of = λ k. refl;
    flags_keyed = λ p k d v e. cc e;
    segments_keyed = λ p k d v e. cc e;
  }

  -- In every store that operations reach, failed ones included, the maps of the flags, segments,
  -- configurations and versions have entries for exactly the projects that exist, and each flag and
  -- segment stands under its own key.
  pub Reached-IsWellFormed : (s : Memory) → Reached s → IsWellFormed s
  Reached-IsWellFormed _ started = empty-IsWellFormed
  Reached-IsWellFormed _ (performed {s} r op) = perform-IsWellFormed s op (Reached-IsWellFormed s r)
