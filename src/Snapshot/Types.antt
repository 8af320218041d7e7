-- ===== src/Snapshot/Types.antt =====
-- The structs of internal/snapshot/types.go. Maps from keys are dictionaries.
use pennant.Prelude.{String, List, Bool}
use pennant.Prelude.Int.{ℤ}
use pennant.Prelude.Dict.{Dict}
use pennant.Model.Types.{Variation, VariationType, FlagConfig, Segment, Time}

pub record ResolvedFlag : Type 0 where
  pub key : String
  pub name : String
  pub description : String
  pub kind : VariationType
  pub variations : List Variation
  pub tags : List String
  pub temporary : Bool
  pub archived : Bool
  pub config : FlagConfig

pub record Snapshot : Type 0 where
  pub environment_key : String
  pub project_key : String
  pub version : ℤ
  pub flags : Dict ResolvedFlag
  pub segments : Dict Segment
  pub checksum : String
  pub published_at : Time

pub record Delta : Type 0 where
  pub environment_key : String
  pub project_key : String
  pub from_version : ℤ
  pub to_version : ℤ
  pub upserted_flags : List ResolvedFlag
  pub deleted_flags : List String
  pub upserted_segments : List Segment
  pub deleted_segments : List String
  pub checksum : String
