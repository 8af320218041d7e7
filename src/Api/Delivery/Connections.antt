-- ===== src/Api/Delivery/Connections.antt =====
-- From putFlagConfig of internal/api/server.go to the channels of the streams, and from there to the clients of
-- sdk/go/pennant/client.go.
use pennant.Prelude.{
  String, Option, none, some, true, false, ◌≡◌, refl, sym, ap, ◌∙◌, arith, eq_refl, if◌then◌else◌,
  Returns, bind-Returns,
}
use pennant.Prelude.Int.{ℤ, pos, ◌+ℤ◌, wrap64}
use pennant.Prelude.Dict.{Dict, get, put, Distinct, get-put}
use pennant.Model.Types.{Time, Flag, FlagConfig, Segment}
use pennant.Snapshot.Types.{Snapshot}
use pennant.Snapshot.Delta.Maps.{IsKeyed, key-get}
use pennant.Snapshot.Builder.{
  build, value_of, unchecked, with_checksum, resolve_flag, config_or_default,
}
use pennant.Snapshot.Builder.Content.{build-flags, build-keys}
use pennant.Stream.Types.{Subscriber}
use pennant.Stream.Hub.{subscribers, has_room, send, publish}
use pennant.Stream.Hub.Publishing.{IsRegistry, get-publish}
use pennant.Store.Types.{ok, ok_injective}
use pennant.Store.Memory.{Memory, entries}
use pennant.Store.Memory.Entries.{
  upsert_flag_config, configs_in, get_flag_config, list_flags, list_segments,
}
use pennant.Store.Memory.Counters.{increment_env_version, get_env_version}
use pennant.Api.Types.{Server, Wire, Call}
use pennant.Api.Changes.{put_message, publish_environment}
use pennant.Api.Flags.{handle_put_flag_config}

-- What the store holds of an environment and one of its project's flags.
pub record Holds (m : Memory) (p env key : String) (v : ℤ) (f : Flag) : Type 0 where
  pub configs : Dict (Dict FlagConfig)
  pub versions : Dict ℤ
  pub flags : Dict Flag
  pub segments : Dict Segment
  pub configs_there : get p m.configs ≡ some configs
  pub versions_there : get p m.versions ≡ some versions
  pub version_there : get env versions ≡ some v
  pub flags_there : get p m.flags ≡ some flags
  pub segments_there : get p m.segments ≡ some segments
  pub flag_there : get key flags ≡ some f
  pub distinct : Distinct flags
  pub keyed : IsKeyed (λ (g : Flag). g.key) flags

abbrev next_version : ℤ → ℤ
next_version v = wrap64 (v +ℤ pos 1)

module _ (m : Memory) (p env key : String) (v : ℤ) (f : Flag) (h : Holds m p env key v f)
    (cfg : FlagConfig) where
  -- The store with the configuration, and then with the next version.
  abbrev configured : Memory
  configured = record m {
    configs = put p (put env (put key cfg (configs_in env h.configs)) h.configs) m.configs;
  }

  abbrev bumped : Memory
  bumped = record configured { versions = put p (put env (next_version v) h.versions) m.versions }

  upsert-configured : upsert_flag_config m p env key cfg ≡ ok configured
  unfolding upsert_flag_config
  upsert-configured = ground (arith, h.configs_there)

  increment-bumped : increment_env_version configured p env ≡ ok (next_version v, bumped)
  unfolding increment_env_version
  increment-bumped = ground (arith, h.versions_there, h.version_there)

  version-bumped : get_env_version bumped p env ≡ ok (next_version v)
  unfolding get_env_version
  version-bumped = ground (
    arith,
    eq_refl p,
    eq_refl env,
    get-put p p (put env (next_version v) h.versions) m.versions,
    get-put env env (next_version v) h.versions,
  )

  config-bumped : config_or_default (get_flag_config bumped p env key) ≡ cfg
  unfolding get_flag_config
  config-bumped = ground (
    arith,
    eq_refl p,
    eq_refl env,
    eq_refl key,
    get-put p p (put env (put key cfg (configs_in env h.configs)) h.configs) m.configs,
    get-put env env (put key cfg (configs_in env h.configs)) h.configs,
    get-put key key cfg (configs_in env h.configs),
  )

  built-bumped :
      (checksum : Snapshot → Option String) (now : Time)
      → ((t : Snapshot) → Returns (checksum t))
      → Returns (build checksum now bumped p env)
  unfolding build list_flags list_segments
  built-bumped checksum now total =
      bind-Returns (value_of (get_env_version bumped p env)) _
        (next_version v, ap value_of version-bumped)
        λ version.
          bind-Returns (value_of (list_flags bumped p)) _
            (entries h.flags, ground (arith, h.flags_there))
            λ flags.
              bind-Returns (value_of (list_segments bumped p)) _
                (entries h.segments, ground (arith, h.segments_there))
                λ segments. summed (unchecked now bumped p env version flags segments) (total _)
    where
      summed : (t : Snapshot) → Returns (checksum t) → Returns (with_checksum t (checksum t))
      summed t (sum, e) = (record t { checksum = sum }, ap (with_checksum t) e)

  flag-built :
      (checksum : Snapshot → Option String) (now : Time) (snap : Snapshot)
      → f.archived ≡ false
      → build checksum now bumped p env ≡ some snap
      → (snap.version ≡ next_version v) × (get key snap.flags ≡ some (resolve_flag f cfg))
  flag-built checksum now snap live e =
      let (version, flags) =
        build-flags checksum now bumped p env key snap h.flags h.flags_there h.distinct h.keyed e in
      (
        ok_injective (sym version ∙ version-bumped),
        flags
            ∙ rw (h.flag_there) (
                ap
                  (λ b.
                    if b
                    then none
                    else some
                        (resolve_flag f (config_or_default (get_flag_config bumped p env f.key))))
                  live
                ∙ ap (λ c. some (resolve_flag f c))
                    (ap (λ k. config_or_default (get_flag_config bumped p env k))
                        (key-get (λ (g : Flag). g.key) key h.flags f h.keyed h.flag_there)
                      ∙ config-bumped)),
      )

-- What a subscriber gets when a flag's configuration is stored: the next version's snapshot, with the flag.
pub record Delivered {F : Type 0} (s' : Server F) (p env id key : String) (v : ℤ) (f : Flag)
    (cfg : FlagConfig) (sub : Subscriber Snapshot) : Type 0 where
  pub snap : Snapshot
  pub project : snap.project_key ≡ p
  pub version : snap.version ≡ next_version v
  pub flag_there : get key snap.flags ≡ some (resolve_flag f cfg)
  pub sent : get id (subscribers s'.hub env) ≡ some (send (put_message (next_version v) snap) sub)

module _ {F : Type 0} (wire : Wire F) (call : Call) where
  put_published :
      (s : Server F) (p key env : String) (cfg : FlagConfig) (m m' : Memory) (version : ℤ)
      (snap : Snapshot)
      → wire.decode_config call.body ≡ some cfg
      → upsert_flag_config s.store p env key cfg ≡ ok m
      → increment_env_version m p env ≡ ok (version, m')
      → build wire.checksum call.now m' p env ≡ some snap
      → (handle_put_flag_config wire call p key env s).0
        ≡ record s { store = m'; hub = publish s.hub env (put_message version snap) }
  unfolding handle_put_flag_config publish_environment
  put_published s p key env cfg m m' version snap e1 e2 e3 e4 =
      rw (e1) (rw (e2) (rw (e3) (rw (e4) refl)))

  -- After the handler stores a decoded configuration for a flag that is not archived, in an environment that the store
  -- holds at version `v`, each subscriber of the environment whose buffer has room has at its end a message with
  -- the next version and with this project's snapshot of that version, which has the flag with the new configuration.
  -- The subscriber's own project is not asked for. The checksum does not fail, and subscribers stand under their
  -- ids, which are not repeated.
  pub put_flag_config_delivers :
      (s : Server F) (p key env id : String) (cfg : FlagConfig) (v : ℤ) (f : Flag)
      (sub : Subscriber Snapshot)
      → wire.decode_config call.body ≡ some cfg
      → Holds s.store p env key v f
      → f.archived ≡ false
      → ((t : Snapshot) → Returns (wire.checksum t))
      → IsRegistry (subscribers s.hub env)
      → get id (subscribers s.hub env) ≡ some sub
      → has_room sub ≡ true
      → Delivered (handle_put_flag_config wire call p key env s).0 p env id key v f cfg sub
  put_flag_config_delivers s p key env id cfg v f sub decode holds live total registry there room =
      let (snap, built) =
        built-bumped s.store p env key v f holds cfg wire.checksum call.now total in
      let content =
        flag-built s.store p env key v f holds cfg wire.checksum call.now snap live built in
      let state =
        put_published s p key env cfg _ _ _ snap decode
          (upsert-configured s.store p env key v f holds cfg)
          (increment-bumped s.store p env key v f holds cfg) built in
      record {
        snap = snap;
        project = (build-keys wire.checksum call.now _ p env snap built).0;
        version = content.0;
        flag_there = content.1;
        sent =
            ap (λ (t : Server F). get id (subscribers t.hub env)) state
            ∙ get-publish s.hub env env id (put_message (next_version v) snap) registry
            ∙ ground (arith, eq_refl env, there, room);
      }
