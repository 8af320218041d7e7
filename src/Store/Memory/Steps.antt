-- ===== src/Store/Memory/Steps.antt =====
-- Each operation of internal/store/memory.go keeps the store well-formed, whether it fails or not.
use pennant.Prelude.{String, [], ap, is_some}
use pennant.Prelude.Int.{ℤ}
use pennant.Prelude.Dict.{get}
use pennant.Model.Types.{Time, Project, Environment, Flag, FlagConfig, Segment}
use pennant.Store.Types.{AuditEntry, after}
use pennant.Store.Memory.{
  Memory, create_project, update_project, delete_project, create_environment, update_environment,
  delete_environment, find_environment,
}
use pennant.Store.Memory.Maps.{
  SameKeys-put, SameKeys-delete, SameKeys-replace, SameKeys-replaced, InnerKeyed-replace,
  InnerKeyed-delete, Keyed-put, Keyed-delete, Keyed-empty, SameKeys-delete_inner,
}
use pennant.Store.Memory.Counters.{after_increment, increment_env_version, append_audit}
use pennant.Store.Memory.Entries.{
  create_flag, update_flag, delete_flag, upsert_flag_config, create_segment, update_segment,
  delete_segment,
}
use pennant.Store.Memory.WellFormed.{
  IsWellFormed, with_flags, with_segments, with_project, with_only_project, with_versions,
  lookup-IsWellFormed, lookup_increment-IsWellFormed,
}

module _ (s : Memory) (w : IsWellFormed s) where
  pub create_project-IsWellFormed : (p : Project) → IsWellFormed (after (create_project s p) s)
  unfolding create_project
  create_project-IsWellFormed p =
      lookup-IsWellFormed s w (get p.key s.projects) _ _
        (λ e. record {
          flags_of = SameKeys-put p.key [] p s.flags s.projects w.flags_of;
          segments_of = SameKeys-put p.key [] p s.segments s.projects w.segments_of;
          configs_of = SameKeys-put p.key _ p s.configs s.projects w.configs_of;
          versions_of = SameKeys-put p.key _ p s.versions s.projects w.versions_of;
          flags_keyed =
              InnerKeyed-replace (λ (f : Flag). f.key) p.key [] s.flags
                (Keyed-empty (λ (f : Flag). f.key)) w.flags_keyed;
          segments_keyed =
              InnerKeyed-replace (λ (g : Segment). g.key) p.key [] s.segments
                (Keyed-empty (λ (g : Segment). g.key)) w.segments_keyed;
        })
        (λ q e. w)

  pub update_project-IsWellFormed : (p : Project) → IsWellFormed (after (update_project s p) s)
  unfolding update_project
  update_project-IsWellFormed p =
      lookup-IsWellFormed s w (get p.key s.projects) _ _ (λ e. w)
        (λ q e. with_only_project s w p.key p q e)

  pub delete_project-IsWellFormed : (key : String) → IsWellFormed (after (delete_project s key) s)
  unfolding delete_project
  delete_project-IsWellFormed key = record {
    flags_of = SameKeys-delete key s.flags s.projects w.flags_of;
    segments_of = SameKeys-delete key s.segments s.projects w.segments_of;
    configs_of = SameKeys-delete key s.configs s.projects w.configs_of;
    versions_of = SameKeys-delete key s.versions s.projects w.versions_of;
    flags_keyed = InnerKeyed-delete (λ (f : Flag). f.key) key s.flags w.flags_keyed;
    segments_keyed = InnerKeyed-delete (λ (g : Segment). g.key) key s.segments w.segments_keyed;
  }

  pub create_environment-IsWellFormed :
      (p : String) (env : Environment) → IsWellFormed (after (create_environment s p env) s)
  unfolding create_environment
  create_environment-IsWellFormed p env =
      lookup-IsWellFormed s w (get p s.projects) _ _ (λ e. w)
        λ q e.
          lookup-IsWellFormed s w (find_environment env.key q.environments) _ _
            (λ _. with_project s w p _ q _ _ e) (λ _ _. w)

  pub update_environment-IsWellFormed :
      (p : String) (env : Environment) → IsWellFormed (after (update_environment s p env) s)
  unfolding update_environment
  update_environment-IsWellFormed p env =
      lookup-IsWellFormed s w (get p s.projects) _ _ (λ e. w)
        λ q e.
          lookup-IsWellFormed s w (find_environment env.key q.environments) _ _ (λ _. w)
            (λ _ _. with_only_project s w p _ q e)

  pub create_flag-IsWellFormed :
      (now : Time) (p : String) (flag : Flag) → IsWellFormed (after (create_flag now s p flag) s)
  unfolding create_flag
  create_flag-IsWellFormed now p flag =
      lookup-IsWellFormed s w (get p s.flags) _ _ (λ e. w)
        λ fs e.
          lookup-IsWellFormed s w (get flag.key fs) _ _
            (λ _. with_flags s w p _ fs e (
              Keyed-put (λ (f : Flag). f.key) (record flag { created_at = now; updated_at = now })
                fs (λ k v. w.flags_keyed p k fs v e)))
            (λ _ _. w)

  pub update_flag-IsWellFormed :
      (now : Time) (p : String) (flag : Flag) → IsWellFormed (after (update_flag now s p flag) s)
  unfolding update_flag
  update_flag-IsWellFormed now p flag =
      lookup-IsWellFormed s w (get p s.flags) _ _ (λ e. w)
        λ fs e.
          lookup-IsWellFormed s w (get flag.key fs) _ _ (λ _. w)
            (λ _ _. with_flags s w p _ fs e (
              Keyed-put (λ (f : Flag). f.key) (record flag { updated_at = now }) fs
                (λ k v. w.flags_keyed p k fs v e)))

  pub delete_flag-IsWellFormed : (p key : String) → IsWellFormed (after (delete_flag s p key) s)
  unfolding delete_flag
  delete_flag-IsWellFormed p key =
      lookup-IsWellFormed s w (get p s.flags) _ _ (λ e. w)
        λ fs e.
          with_flags s w p _ fs e
            (Keyed-delete (λ (f : Flag). f.key) key fs (λ k v. w.flags_keyed p k fs v e))

  pub create_segment-IsWellFormed :
      (p : String) (seg : Segment) → IsWellFormed (after (create_segment s p seg) s)
  unfolding create_segment
  create_segment-IsWellFormed p seg =
      lookup-IsWellFormed s w (get p s.segments) _ _ (λ e. w)
        λ gs e.
          lookup-IsWellFormed s w (get seg.key gs) _ _
            (λ _.
              with_segments s w p _ gs e
                (Keyed-put (λ (g : Segment). g.key) seg gs (λ k v. w.segments_keyed p k gs v e)))
            (λ _ _. w)

  pub update_segment-IsWellFormed :
      (p : String) (seg : Segment) → IsWellFormed (after (update_segment s p seg) s)
  unfolding update_segment
  update_segment-IsWellFormed p seg =
      lookup-IsWellFormed s w (get p s.segments) _ _ (λ e. w)
        λ gs e.
          lookup-IsWellFormed s w (get seg.key gs) _ _ (λ _. w)
            (λ _ _.
              with_segments s w p _ gs e
                (Keyed-put (λ (g : Segment). g.key) seg gs (λ k v. w.segments_keyed p k gs v e)))

  pub delete_segment-IsWellFormed :
      (p key : String) → IsWellFormed (after (delete_segment s p key) s)
  unfolding delete_segment
  delete_segment-IsWellFormed p key =
      lookup-IsWellFormed s w (get p s.segments) _ _ (λ e. w)
        λ gs e.
          with_segments s w p _ gs e
            (Keyed-delete (λ (g : Segment). g.key) key gs (λ k v. w.segments_keyed p k gs v e))

  pub upsert_flag_config-IsWellFormed :
      (p env key : String) (cfg : FlagConfig)
      → IsWellFormed (after (upsert_flag_config s p env key cfg) s)
  unfolding upsert_flag_config
  upsert_flag_config-IsWellFormed p env key cfg =
      lookup-IsWellFormed s w (get p s.configs) _ _ (λ e. w)
        λ envs e. record {
          flags_of = w.flags_of;
          segments_of = w.segments_of;
          configs_of = SameKeys-replace p _ s.configs s.projects (ap is_some e) w.configs_of;
          versions_of = w.versions_of;
          flags_keyed = w.flags_keyed;
          segments_keyed = w.segments_keyed;
        }

  pub delete_environment-IsWellFormed :
      (p env : String) → IsWellFormed (after (delete_environment s p env) s)
  unfolding delete_environment
  delete_environment-IsWellFormed p env =
      lookup-IsWellFormed s w (get p s.projects) _ _ (λ e. w)
        λ q e. record {
          flags_of = SameKeys-replaced p _ s.flags s.projects (ap is_some e) w.flags_of;
          segments_of = SameKeys-replaced p _ s.segments s.projects (ap is_some e) w.segments_of;
          configs_of =
              SameKeys-replaced p _ _ s.projects (ap is_some e)
                (SameKeys-delete_inner p env s.configs s.projects w.configs_of);
          versions_of =
              SameKeys-replaced p _ _ s.projects (ap is_some e)
                (SameKeys-delete_inner p env s.versions s.projects w.versions_of);
          flags_keyed = w.flags_keyed;
          segments_keyed = w.segments_keyed;
        }

  pub append_audit-IsWellFormed :
      (audit_id : ℤ → String) (entry : AuditEntry)
      → IsWellFormed (after (append_audit audit_id s entry) s)
  unfolding append_audit
  append_audit-IsWellFormed audit_id entry = record {
    flags_of = w.flags_of;
    segments_of = w.segments_of;
    configs_of = w.configs_of;
    versions_of = w.versions_of;
    flags_keyed = w.flags_keyed;
    segments_keyed = w.segments_keyed;
  }

  pub increment_env_version-IsWellFormed :
      (p env : String) → IsWellFormed (after_increment (increment_env_version s p env) s)
  unfolding increment_env_version
  increment_env_version-IsWellFormed p env =
      lookup_increment-IsWellFormed s w (get p s.versions) _ _ (λ e. w)
        λ envs e.
          lookup_increment-IsWellFormed s w (get env envs) _ _ (λ _. w)
            (λ v _. with_versions s w p _ envs e)
