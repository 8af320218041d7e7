-- ===== src/Snapshot/Delta.antt =====
-- internal/snapshot/delta.go. The loops over flags and over segments are the same code twice, so they
-- are functions over any values with a key and an encoding. `json.Marshal` is a parameter.
pub mod Maps
pub mod RoundTrip
use Prim.Native.String.{len}
use pennant.Prelude.{
  ◌*◌, String, Option, none, some, List, [], ◌∷◌, Bool, true, false, not, ◌&&◌, ◌==◌, ltb, is_some,
  if◌then◌else◌,
}
use pennant.Prelude.Dict
use pennant.Prelude.Dict.{Dict}
use pennant.Model.Types.{Segment}
use pennant.Snapshot.Types.{ResolvedFlag, Snapshot, Delta}

-- `json.Marshal` of the four types that the package encodes, as texts.
pub record Codec : Type 0 where
  pub marshal_flag : ResolvedFlag → String
  pub marshal_segment : Segment → String
  pub marshal_delta : Delta → String
  pub marshal_snapshot : Snapshot → String

module _ {V : Type 0} where
  -- New, or with another encoding.
  abbrev pub changed : (V → String) → Option V → V → Bool
  changed enc none v = true
  changed enc (some w) v = not (enc w == enc v)

  -- `for key, toFlag := range to.Flags`
  unfoldable pub upserted : (V → String) → Dict V → Dict V → List V
  upserted enc from [] = []
  upserted enc from ((k, v) ∷ to) =
      let rest = upserted enc from to in if changed enc (Dict.get k from) v then v ∷ rest else rest

  -- `for key := range from.Flags`
  unfoldable pub deleted : Dict V → Dict V → List String
  deleted [] to = []
  deleted ((k, v) ∷ from) to =
      let rest = deleted from to in if is_some (Dict.get k to) then rest else k ∷ rest

  -- `for _, f := range delta.UpsertedFlags { next.Flags[f.Key] = f }`
  unfoldable pub put_all : (V → String) → List V → Dict V → Dict V
  put_all key [] m = m
  put_all key (v ∷ vs) m = put_all key vs (Dict.put (key v) v m)

  -- `for _, k := range delta.DeletedFlags { delete(next.Flags, k) }`
  unfoldable pub delete_all : List String → Dict V → Dict V
  delete_all [] m = m
  delete_all (k ∷ ks) m = delete_all ks (Dict.delete k m)

abbrev pub flag_key : ResolvedFlag → String
flag_key f = f.key

abbrev pub segment_key : Segment → String
segment_key s = s.key

module _ (codec : Codec) where
  open codec use {marshal_flag, marshal_segment, marshal_delta, marshal_snapshot}

  unfoldable pub full_delta : Snapshot → Snapshot → Delta
  full_delta from to = record {
    environment_key = to.environment_key;
    project_key = to.project_key;
    from_version = from.version;
    to_version = to.version;
    upserted_flags = upserted marshal_flag from.flags to.flags;
    deleted_flags = deleted from.flags to.flags;
    upserted_segments = upserted marshal_segment from.segments to.segments;
    deleted_segments = deleted from.segments to.segments;
    checksum = to.checksum;
  }

  -- The quotient of the two lengths is above 0.30. The code divides floats: below 10^15 bytes the rounded
  -- quotient passes the rounded 0.30 exactly when the quotient passes 3/10.
  unfoldable pub too_large : Delta → Snapshot → Bool
  too_large delta to =
      ltb 0 (len (marshal_snapshot to))
      && ltb (3 * len (marshal_snapshot to)) (10 * len (marshal_delta delta))

  -- `none` is the nil that asks for a full "put".
  unfoldable pub compute_delta : Snapshot → Snapshot → Option Delta
  compute_delta from to =
      let delta = full_delta from to in if too_large delta to then none else some delta

-- The copy of the base's maps is the base's dictionary.
unfoldable pub apply_delta : Snapshot → Delta → Snapshot
apply_delta base delta = record {
  environment_key = base.environment_key;
  project_key = base.project_key;
  version = delta.to_version;
  flags = delete_all delta.deleted_flags (put_all flag_key delta.upserted_flags base.flags);
  segments =
      delete_all delta.deleted_segments (put_all segment_key delta.upserted_segments base.segments);
  checksum = delta.checksum;
  published_at = base.published_at;
}
