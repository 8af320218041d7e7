-- ===== src/Model/Types.antt =====
-- The structs of internal/model/{flag,clause,segment,environment,reason}.go. A Go `int` is an
-- integer, a pointer an `Option`, a `json.RawMessage` its text, and a `time.Time` the number of a
-- clock reading. `Context` stands in Eval/Runtime, since its attributes hold floats.
use pennant.Prelude.{ℕ, String, Option, List, Bool}
use pennant.Prelude.Int.{ℤ}
use pennant.Prelude.Dict.{Dict}

abbrev pub Time : Type 0
Time = ℕ

abbrev pub RawMessage : Type 0
RawMessage = String

-- `model.Operator` is a string type: any other string is `op_other`.
pub data Operator : Type 0 where
  op_in op_ends_with op_starts_with op_matches op_contains : Operator
  op_less_than op_less_than_or_eq op_greater_than op_greater_than_or_eq : Operator
  op_before op_after : Operator
  op_sem_ver_equal op_sem_ver_less_than op_sem_ver_greater_than : Operator
  op_segment_match : Operator
  op_other : String → Operator

pub record Clause : Type 0 where
  pub attribute : String
  pub op : Operator
  pub values : List RawMessage
  pub negate : Bool

pub record Variation : Type 0 where
  pub id : String
  pub name : String
  pub description : String
  pub value : RawMessage

pub record WeightedVariation : Type 0 where
  pub variation : ℤ
  pub weight : ℤ

pub record Rollout : Type 0 where
  pub variations : List WeightedVariation
  pub bucket_by : String
  pub seed : Option ℤ
  pub is_experiment : Bool

pub record VariationOrRollout : Type 0 where
  pub variation : Option ℤ
  pub rollout : Option Rollout

-- The struct embeds `VariationOrRollout`.
pub record Rule : Type 0 where
  pub id : String
  pub description : String
  pub clauses : List Clause
  pub serve : VariationOrRollout

pub record Prerequisite : Type 0 where
  pub flag_key : String
  pub variation : ℤ

pub record Target : Type 0 where
  pub variation : ℤ
  pub context_keys : List String

pub record FlagConfig : Type 0 where
  pub on : Bool
  pub prerequisites : List Prerequisite
  pub targets : List Target
  pub rules : List Rule
  pub fallthrough : VariationOrRollout
  pub off_variation : Option ℤ
  pub salt : String
  pub track_events : Bool
  pub version : ℤ

pub data VariationType : Type 0 where
  type_boolean type_string type_number type_json : VariationType
  type_other : String → VariationType

pub record Flag : Type 0 where
  pub key : String
  pub name : String
  pub description : String
  pub kind : VariationType
  pub variations : List Variation
  pub tags : List String
  pub temporary : Bool
  pub archived : Bool
  pub created_at : Time
  pub updated_at : Time
  pub environments : Dict (Option FlagConfig)

pub record SegmentRule : Type 0 where
  pub id : String
  pub clauses : List Clause
  pub weight : Option ℤ
  pub bucket_by : String

pub record Segment : Type 0 where
  pub key : String
  pub name : String
  pub description : String
  pub included : List String
  pub excluded : List String
  pub rules : List SegmentRule
  pub salt : String
  pub version : ℤ

pub data SdkKeyType : Type 0 where
  sdk_key_server sdk_key_client sdk_key_mobile : SdkKeyType
  sdk_key_other : String → SdkKeyType

pub record SdkKey : Type 0 where
  pub value : String
  pub kind : SdkKeyType
  pub created_at : Time

pub record Environment : Type 0 where
  pub key : String
  pub name : String
  pub color : String
  pub project_key : String
  pub sdk_keys : List SdkKey
  pub version : ℤ

pub record Project : Type 0 where
  pub key : String
  pub name : String
  pub description : String
  pub environments : List Environment

pub data ReasonKind : Type 0 where
  reason_off reason_fallthrough reason_target_match reason_rule_match : ReasonKind
  reason_prerequisite_failed reason_error : ReasonKind

pub data ErrorKind : Type 0 where
  err_flag_not_found err_malformed_flag err_wrong_type err_client_not_ready : ErrorKind
  err_prereq_cycle : ErrorKind

-- The empty string of the fields that are left out is written out, an absent error kind is `none`.
pub record Reason : Type 0 where
  pub kind : ReasonKind
  pub rule_index : Option ℕ
  pub rule_id : String
  pub prerequisite_key : String
  pub error_kind : Option ErrorKind
  pub in_experiment : Bool
