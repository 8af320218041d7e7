-- ===== src/Store/Memory/WellFormed.antt =====
-- The invariant of internal/store/memory.go: the maps hold the same projects, and flags and segments
-- stand under their own keys. Every operation keeps it.
use pennant.Prelude.{String, Option, none, some, ◌≡◌, refl, ap, is_some}
use pennant.Prelude.Int.{ℤ}
use pennant.Prelude.Dict.{Dict, get, put}
use pennant.Model.Types.{Project, Flag, FlagConfig, Segment}
use pennant.Store.Types.{Reply, after}
use pennant.Store.Memory.{Memory}
use pennant.Store.Memory.Maps.{
  SameKeys, InnerKeyed, Keyed, SameKeys-put, SameKeys-replace, SameKeys-replaced,
  InnerKeyed-replace,
}
use pennant.Store.Memory.Counters.{after_increment}

pub record IsWellFormed (s : Memory) : Type 0 where
  pub flags_of : SameKeys s.flags s.projects
  pub segments_of : SameKeys s.segments s.projects
  pub configs_of : SameKeys s.configs s.projects
  pub versions_of : SameKeys s.versions s.projects
  pub flags_keyed : InnerKeyed (λ (f : Flag). f.key) s.flags
  pub segments_keyed : InnerKeyed (λ (g : Segment). g.key) s.segments

module _ (s : Memory) (w : IsWellFormed s) where
  pub with_flags :
      (p : String) (d fs : Dict Flag)
      → get p s.flags ≡ some fs
      → Keyed (λ (f : Flag). f.key) d
      → IsWellFormed (record s { flags = put p d s.flags })
  with_flags p d fs e keyed = record {
    flags_of = SameKeys-replace p d s.flags s.projects (ap is_some e) w.flags_of;
    segments_of = w.segments_of;
    configs_of = w.configs_of;
    versions_of = w.versions_of;
    flags_keyed = InnerKeyed-replace (λ (f : Flag). f.key) p d s.flags keyed w.flags_keyed;
    segments_keyed = w.segments_keyed;
  }

  pub with_segments :
      (p : String) (d gs : Dict Segment)
      → get p s.segments ≡ some gs
      → Keyed (λ (g : Segment). g.key) d
      → IsWellFormed (record s { segments = put p d s.segments })
  with_segments p d gs e keyed = record {
    flags_of = w.flags_of;
    segments_of = SameKeys-replace p d s.segments s.projects (ap is_some e) w.segments_of;
    configs_of = w.configs_of;
    versions_of = w.versions_of;
    flags_keyed = w.flags_keyed;
    segments_keyed =
        InnerKeyed-replace (λ (g : Segment). g.key) p d s.segments keyed w.segments_keyed;
  }

  -- A project is replaced, with its configurations and its versions.
  pub with_project :
      (key : String) (p q : Project) (c : Dict (Dict FlagConfig)) (v : Dict ℤ)
      → get key s.projects ≡ some q
      → IsWellFormed (record s {
        projects = put key p s.projects;
        configs = put key c s.configs;
        versions = put key v s.versions;
      })
  with_project key p q c v e = record {
    flags_of = SameKeys-replaced key p s.flags s.projects (ap is_some e) w.flags_of;
    segments_of = SameKeys-replaced key p s.segments s.projects (ap is_some e) w.segments_of;
    configs_of = SameKeys-put key c p s.configs s.projects w.configs_of;
    versions_of = SameKeys-put key v p s.versions s.projects w.versions_of;
    flags_keyed = w.flags_keyed;
    segments_keyed = w.segments_keyed;
  }

  -- An operation that looks something up first.
  pub lookup-IsWellFormed :
      {V : Type 0} (o : Option V) (missing : Reply Memory) (found : V → Reply Memory)
      → (o ≡ none → IsWellFormed (after missing s))
      → ((v : V) → o ≡ some v → IsWellFormed (after (found v) s))
      → IsWellFormed (after (elim o [ none ↦ missing | some v ↦ found v ]) s)
  lookup-IsWellFormed none missing found h k = h refl
  lookup-IsWellFormed (some v) missing found h k = k v refl

  -- Only the project itself is replaced.
  pub with_only_project :
      (key : String) (p q : Project)
      → get key s.projects ≡ some q
      → IsWellFormed (record s { projects = put key p s.projects })
  with_only_project key p q e = record {
    flags_of = SameKeys-replaced key p s.flags s.projects (ap is_some e) w.flags_of;
    segments_of = SameKeys-replaced key p s.segments s.projects (ap is_some e) w.segments_of;
    configs_of = SameKeys-replaced key p s.configs s.projects (ap is_some e) w.configs_of;
    versions_of = SameKeys-replaced key p s.versions s.projects (ap is_some e) w.versions_of;
    flags_keyed = w.flags_keyed;
    segments_keyed = w.segments_keyed;
  }

  -- The versions of a project are replaced.
  pub with_versions :
      (p : String) (v v0 : Dict ℤ)
      → get p s.versions ≡ some v0
      → IsWellFormed (record s { versions = put p v s.versions })
  with_versions p v v0 e = record {
    flags_of = w.flags_of;
    segments_of = w.segments_of;
    configs_of = w.configs_of;
    versions_of = SameKeys-replace p v s.versions s.projects (ap is_some e) w.versions_of;
    flags_keyed = w.flags_keyed;
    segments_keyed = w.segments_keyed;
  }

  pub lookup_increment-IsWellFormed :
      {V : Type 0} (o : Option V) (missing : Reply (ℤ × Memory)) (found : V → Reply (ℤ × Memory))
      → (o ≡ none → IsWellFormed (after_increment missing s))
      → ((v : V) → o ≡ some v → IsWellFormed (after_increment (found v) s))
      → IsWellFormed (after_increment (elim o [ none ↦ missing | some v ↦ found v ]) s)
  lookup_increment-IsWellFormed none missing found h k = h refl
  lookup_increment-IsWellFormed (some v) missing found h k = k v refl
