-- ===== src/Store/Memory/Lookups.antt =====
-- What the lookups of internal/store/memory.go find after a change: the new entry at its keys, and what they
-- found before at all others.
use pennant.Prelude.{
  String, Option, none, some, ◌&&◌, ◌≡◌, refl, sym, ap, ◌==◌, arith, eq_iff, if◌then◌else◌, subst,
}
use pennant.Prelude.Int.{ℤ, pos, ◌+ℤ◌, wrap64}
use pennant.Prelude.Dict.{Dict, get, put, get-put}
use pennant.Model.Types.{Time, Flag, FlagConfig}
use pennant.Store.Types.{Reply, failed, ok, StoreError, ok_injective}
use pennant.Store.Memory.{Memory}
use pennant.Store.Memory.Entries.{
  create_flag, get_flag, upsert_flag_config, get_flag_config, configs_in,
}
use pennant.Store.Memory.Counters.{increment_env_version, get_env_version}

-- A reply that is no error passed its lookup.
found_ok {ℓ} :
    {V : Type 0} {A : Type ℓ} (o : Option V) (e : StoreError) (f : V → Reply A) {a : A}
    → elim o [ none ↦ failed e | some v ↦ f v ] ≡ ok a
    → (v : V) × (o ≡ some v) × (f v ≡ ok a)
found_ok none e f h = cc
found_ok (some v) e f h = (v, refl, h)

missing_ok {ℓ} :
    {V : Type 0} {A : Type ℓ} (o : Option V) (e : StoreError) (b : A) {a : A}
    → elim o [ none ↦ ok b | some v ↦ failed e ] ≡ ok a
    → (o ≡ none) × (b ≡ a)
missing_ok none e b h = (refl, ok_injective h)
missing_ok (some v) e b h = cc

abbrev stamped : Time → Flag → Flag
stamped now flag = record flag { created_at = now; updated_at = now }

with_flag :
    (s : Memory) (p q k j : String) (f : Flag) (fs : Dict Flag)
    → get p s.flags ≡ some fs
    → get_flag (record s { flags = put p (put k f fs) s.flags }) q j
      ≡ (if p == q && k == j then ok f else get_flag s q j)
unfolding get_flag
with_flag s p q k j f fs e =
    ground (arith, eq_iff p q, get-put p q (put k f fs) s.flags, get-put k j f fs, e)

-- After a flag is created without an error, a lookup of it finds it with both times set, and every
-- other lookup of a flag has the reply that it had.
pub get_flag-create_flag :
    (now : Time) (s s' : Memory) (p q k : String) (flag : Flag)
    → create_flag now s p flag ≡ ok s'
    → get_flag s' q k ≡ (
        if p == q && flag.key == k
        then ok (record flag { created_at = now; updated_at = now })
        else get_flag s q k)
unfolding create_flag
get_flag-create_flag now s s' p q k flag h =
    let (fs, e, h1) = found_ok (get p s.flags) _ _ h in
    let (_, e') = missing_ok (get flag.key fs) _ _ h1 in
    subst
      (λ t.
        get_flag t q k
        ≡ (if p == q && flag.key == k then ok (stamped now flag) else get_flag s q k))
      e' (with_flag s p q flag.key k (stamped now flag) fs e)

with_version :
    (s : Memory) (p q k j : String) (v : ℤ) (envs : Dict ℤ)
    → get p s.versions ≡ some envs
    → get_env_version (record s { versions = put p (put k v envs) s.versions }) q j
      ≡ (if p == q && k == j then ok v else get_env_version s q j)
unfolding get_env_version
with_version s p q k j v envs e =
    ground (arith, eq_iff p q, get-put p q (put k v envs) s.versions, get-put k j v envs, e)

has_version :
    (s : Memory) (p env : String) (v : ℤ) (envs : Dict ℤ)
    → get p s.versions ≡ some envs
    → get env envs ≡ some v
    → get_env_version s p env ≡ ok v
unfolding get_env_version
has_version s p env v envs e e1 = ground (arith, e, e1)

-- An increment that returns a version returns the one after that of the environment, as an `int64`; it
-- is the environment's version from then on, and all other environments keep theirs.
pub increment_env_version_lem :
    (s s' : Memory) (p env q k : String) (v' : ℤ)
    → increment_env_version s p env ≡ ok (v', s')
    → ((v : ℤ) × (get_env_version s p env ≡ ok v) × (v' ≡ wrap64 (v +ℤ pos 1)))
      × (get_env_version s' q k ≡ (if p == q && env == k then ok v' else get_env_version s q k))
unfolding increment_env_version
increment_env_version_lem s s' p env q k v' h =
    let (envs, e, h1) = found_ok (get p s.versions) _ _ h in
    let (v, e1, h2) = found_ok (get env envs) _ _ h1 in
    let same : (
      wrap64 (v +ℤ pos 1),
      record s { versions = put p (put env (wrap64 (v +ℤ pos 1)) envs) s.versions },
    )
        ≡ (v', s') =
      ok_injective h2 in
    (
      (v, has_version s p env v envs e e1, sym (ap (λ (r : ℤ × Memory). r.0) same)),
      subst
          (λ (r : ℤ × Memory).
            get_env_version r.1 q k
            ≡ (if p == q && env == k then ok r.0 else get_env_version s q k))
          same (with_version s p q env k (wrap64 (v +ℤ pos 1)) envs e),
    )

-- What a reply holds, if it is no error.
abbrev pub found {ℓ} : {A : Type ℓ} → Reply A → Option A
found (failed e) = none
found (ok a) = some a

with_config :
    (s : Memory) (p env key q env' key' : String) (cfg : FlagConfig) (envs : Dict (Dict FlagConfig))
    → get p s.configs ≡ some envs
    → found (
        get_flag_config
          (record s {
            configs = put p (put env (put key cfg (configs_in env envs)) envs) s.configs;
          })
          q
          env'
          key')
      ≡ (if p == q && (env == env' && key == key')
          then some cfg
          else found (get_flag_config s q env' key'))
unfolding get_flag_config get
with_config s p env key q env' key' cfg envs e = ground (
  arith,
  eq_iff p q,
  eq_iff env env',
  get-put env env' (put key cfg (configs_in env envs)) envs,
  get-put p q (put env (put key cfg (configs_in env envs)) envs) s.configs,
  get-put key key' cfg (configs_in env envs),
  e,
)

-- After a configuration is stored without an error, a lookup at its three keys finds it, and every other
-- lookup finds the configuration that it found before, or none if it found none.
pub get_flag_config-upsert_flag_config :
    (s s' : Memory) (p env key q env' key' : String) (cfg : FlagConfig)
    → upsert_flag_config s p env key cfg ≡ ok s'
    → found (get_flag_config s' q env' key') ≡ (
        if p == q && (env == env' && key == key')
        then some cfg
        else found (get_flag_config s q env' key'))
unfolding upsert_flag_config
get_flag_config-upsert_flag_config s s' p env key q env' key' cfg h =
    let (envs, e, h1) = found_ok (get p s.configs) _ _ h in
    subst
      (λ t. found (get_flag_config t q env' key') ≡ (
        if p == q && (env == env' && key == key')
        then some cfg
        else found (get_flag_config s q env' key')))
      (ok_injective h1) (with_config s p env key q env' key' cfg envs e)
