-- ===== src/Snapshot/Builder/Content.antt =====
-- What a snapshot that internal/snapshot/builder.go builds holds.
use pennant.Prelude.{
  String, Option, none, some, List, [], ◌∷◌, Bool, true, false, ◌≡◌, refl, ◌∙◌, sym, ap, subst,
  eq_iff, arith, bind-eq-some, some_injective, if◌then◌else◌,
}
use pennant.Prelude.Int.{ℤ}
use pennant.Prelude.Dict.{Dict, get, put, Distinct, get-put, Distinct-put}
use pennant.Model.Types.{Time, Flag, FlagConfig, Segment}
use pennant.Snapshot.Types.{ResolvedFlag, Snapshot}
use pennant.Snapshot.Delta.{flag_key, segment_key}
use pennant.Snapshot.Delta.Maps.{IsKeyed}
use pennant.Snapshot.Delta.RoundTrip.{IsConsistent}
use pennant.Snapshot.Builder.{
  value_of, resolve_flag, resolve_flags, segment_map, unchecked, with_checksum, build,
  config_or_default,
}
use pennant.Store.Types.{Reply, failed, ok}
use pennant.Store.Memory.{Memory, entries}
use pennant.Store.Memory.Entries.{list_flags, list_segments, get_flag_config}
use pennant.Store.Memory.Counters.{get_env_version}

module _ {V : Type 0} where
  IsKeyed-put :
      (key : V → String) (v : V) (m : Dict V) → IsKeyed key m → IsKeyed key (put (key v) v m)
  unfolding put
  IsKeyed-put key v [] h = (refl, tt)
  IsKeyed-put key v ((j, w) ∷ m) h = ground (arith, IsKeyed-put key v m h.1, h.0, h.1)

-- No key twice, and each value under its own.
abbrev IsTidy : {V : Type 0} → (V → String) → Dict V → Type 0
IsTidy key m = Distinct m × IsKeyed key m

put-IsTidy :
    {V : Type 0} (key : V → String) (v : V) (m : Dict V)
    → IsTidy key m
    → IsTidy key (put (key v) v m)
put-IsTidy key v m h = (Distinct-put (key v) v m h.0, IsKeyed-put key v m h.1)

put_unless-IsTidy :
    (b : Bool) (f : ResolvedFlag) (m : Dict ResolvedFlag)
    → IsTidy flag_key m
    → IsTidy flag_key (if b then m else put f.key f m)
put_unless-IsTidy true f m h = h
put_unless-IsTidy false f m h = put-IsTidy flag_key f m h

resolve_flags-IsTidy :
    (config_of : String → FlagConfig) (fs : List Flag) (m : Dict ResolvedFlag)
    → IsTidy flag_key m
    → IsTidy flag_key (resolve_flags config_of fs m)
unfolding resolve_flags
resolve_flags-IsTidy config_of [] m h = h
resolve_flags-IsTidy config_of (f ∷ fs) m h =
    resolve_flags-IsTidy config_of fs _
      (put_unless-IsTidy f.archived (resolve_flag f (config_of f.key)) m h)

segment_map-IsTidy :
    (segs : List Segment) (m : Dict Segment)
    → IsTidy segment_key m
    → IsTidy segment_key (segment_map segs m)
unfolding segment_map
segment_map-IsTidy [] m h = h
segment_map-IsTidy (seg ∷ segs) m h = segment_map-IsTidy segs _ (put-IsTidy segment_key seg m h)

-- What the chain of lookups of a build found.
build_parts :
    (checksum : Snapshot → Option String) (now : Time) (s : Memory) (p env : String)
    (snap : Snapshot)
    → build checksum now s p env ≡ some snap
    → (version : ℤ) × (flags : List Flag) × (segments : List Segment) × (sum : String) × (value_of
          (get_env_version s p env)
        ≡ some version)
      × (value_of (list_flags s p) ≡ some flags)
      × (record (unchecked now s p env version flags segments) { checksum = sum } ≡ snap)
unfolding build
build_parts checksum now s p env snap h =
    let (version, e1, h1) = bind-eq-some (value_of (get_env_version s p env)) _ h in
    let (flags, e2, h2) = bind-eq-some (value_of (list_flags s p)) _ h1 in
    let (segments, e3, h3) = bind-eq-some (value_of (list_segments s p)) _ h2 in
    let (sum, e4) =
      with_sum (unchecked now s p env version flags segments)
        (checksum (unchecked now s p env version flags segments)) h3 in
    (version, flags, segments, sum, e1, e2, e4)
  where
    with_sum :
        (t : Snapshot) (o : Option String)
        → with_checksum t o ≡ some snap
        → (sum : String) × (record t { checksum = sum } ≡ snap)
    with_sum t none h = cc
    with_sum t (some sum) h = (sum, some_injective h)

-- A snapshot that is built names its project and its environment.
pub build-keys :
    (checksum : Snapshot → Option String) (now : Time) (s : Memory) (p env : String)
    (snap : Snapshot)
    → build checksum now s p env ≡ some snap
    → (snap.project_key ≡ p) × (snap.environment_key ≡ env)
build-keys checksum now s p env snap h =
    let (version, flags, segments, sum, e1, e2, e) = build_parts checksum now s p env snap h in
    (sym (ap (λ (t : Snapshot). t.project_key) e), sym (ap (λ (t : Snapshot). t.environment_key) e))

-- Every snapshot that is built is consistent, as a target of a delta must be: its maps hold no key twice
-- and each flag and segment under its own key.
pub build-IsConsistent :
    (checksum : Snapshot → Option String) (now : Time) (s : Memory) (p env : String)
    (snap : Snapshot)
    → build checksum now s p env ≡ some snap
    → IsConsistent snap
build-IsConsistent checksum now s p env snap h =
    let (version, flags, segments, sum, e1, e2, e) = build_parts checksum now s p env snap h in
    let f =
      resolve_flags-IsTidy (λ key. config_or_default (get_flag_config s p env key)) flags []
        (tt, tt) in
    let g = segment_map-IsTidy segments [] (tt, tt) in
    subst IsConsistent e (record {
      flags_distinct = f.0;
      flags_keyed = f.1;
      segments_distinct = g.0;
      segments_keyed = g.1;
    })

-- A flag's entry, unless it is archived.
abbrev pub unless_archived :
    (String → FlagConfig) → Option Flag → Option ResolvedFlag → Option ResolvedFlag
unless_archived config_of none old = old
unless_archived config_of (some f) old =
    if f.archived then old else some (resolve_flag f (config_of f.key))

get-resolve_flags :
    (config_of : String → FlagConfig) (k : String) (d : Dict Flag) (m : Dict ResolvedFlag)
    → Distinct d
    → IsKeyed (λ (f : Flag). f.key) d
    → get k (resolve_flags config_of (entries d) m) ≡ unless_archived config_of (get k d) (get k m)
unfolding resolve_flags get
get-resolve_flags config_of k [] m distinct keyed = refl
get-resolve_flags config_of k ((j, f) ∷ d) m distinct keyed =
    let rest =
      get-resolve_flags config_of k d
        (if f.archived then m else put f.key (resolve_flag f (config_of f.key)) m) distinct.1
        keyed.1 in
    rest
    ∙ ground (
      arith,
      eq_iff j k,
      eq_iff f.key k,
      keyed.0,
      distinct.0,
      get-put f.key k (resolve_flag f (config_of f.key)) m,
    )

-- A snapshot that is built has the environment's version, and its flags are exactly the project's flags
-- that are not archived, with the configuration that is stored for the environment or, without one, an off
-- one that serves the first variation. The project's flags are ones whose keys are not repeated and under
-- which they stand.
pub build-flags :
    (checksum : Snapshot → Option String) (now : Time) (s : Memory) (p env k : String)
    (snap : Snapshot) (fs : Dict Flag)
    → get p s.flags ≡ some fs
    → Distinct fs
    → IsKeyed (λ (f : Flag). f.key) fs
    → build checksum now s p env ≡ some snap
    → (get_env_version s p env ≡ ok snap.version)
      × (get k snap.flags
          ≡ unless_archived
              (λ key. config_or_default (get_flag_config s p env key))
              (get k fs)
              none)
build-flags checksum now s p env k snap fs found distinct keyed h =
    let (version, flags, segments, sum, e1, e2, e) = build_parts checksum now s p env snap h in
    subst
      (λ (t : Snapshot).
        (get_env_version s p env ≡ ok t.version)
        × (get k t.flags
            ≡ unless_archived (λ key. config_or_default (get_flag_config s p env key)) (get k fs)
                none))
      e
      (
        has_value (get_env_version s p env) e1,
        ap (λ l. get k (resolve_flags config_of l [])) (some_injective (sym e2 ∙ listed found))
            ∙ get-resolve_flags config_of k fs [] distinct keyed
            ∙ ap (unless_archived config_of (get k fs)) (nothing k),
      )
  where
    config_of : String → FlagConfig
    config_of key = config_or_default (get_flag_config s p env key)

    listed : get p s.flags ≡ some fs → value_of (list_flags s p) ≡ some (entries fs)
    listed e = unfold list_flags in ground (arith, e)

    nothing : (k : String) → get {V = ResolvedFlag} k [] ≡ none
    nothing k = unfold get in refl

    has_value : {A : Type 0} (r : Reply A) {a : A} → value_of r ≡ some a → r ≡ ok a
    has_value (failed e) h = cc
    has_value (ok b) h = ap ok (some_injective h)
