-- ===== src/Eval/Runtime.antt =====
-- What internal/eval takes from outside the repository: floats, encoding/json, strconv, strings,
-- regexp, time, crypto/sha1 and Masterminds/semver. They are fields of one record, which the
-- evaluator takes as a parameter. `Context` of internal/model/context.go stands here too, since its
-- attributes hold floats.
use pennant.Prelude.{String, Option, some, List, Bool, ◌==◌, if◌then◌else◌}
use pennant.Prelude.Int.{ℤ}
use pennant.Prelude.Dict.{Dict}
use pennant.Prelude.Dict
use pennant.Model.Types.{RawMessage, Flag, FlagConfig, Segment}

-- Go's `any`, as JSON and the callers fill it. A Go map is no attribute value that any operator
-- reads, so an object keeps only its fields' names and values in order.
mutual
  pub data Value (F : Type 0) : Type 0 where
    null : Value F
    bool : Bool → Value F
    int : ℤ → Value F
    float : F → Value F
    text : String → Value F
    arr : Items F → Value F
    obj : Items F → Value F

  pub data Items (F : Type 0) : Type 0 where
    nil : Items F
    cons : String → Value F → Items F → Items F

pub record Runtime : Type 1 where
  -- float64
  pub Float : Type 0
  pub of_int : ℤ → Float
  pub to_int64 : Float → ℤ
  pub add : Float → Float → Float
  pub div : Float → Float → Float
  pub trunc : Float → Float
  pub abs : Float → Float
  pub lt : Float → Float → Bool
  pub le : Float → Float → Bool
  pub eq : Float → Float → Bool
  -- strconv
  pub parse_float : String → Option Float
  pub format_int : ℤ → String
  pub parse_hex : String → Option ℤ
  -- encoding/json, into an `any`, a `string` and a `float64`
  pub unmarshal_any : RawMessage → Option (Value Float)
  pub unmarshal_string : RawMessage → Option String
  pub unmarshal_float : RawMessage → Option Float
  -- strings
  pub has_prefix : String → String → Bool
  pub has_suffix : String → String → Bool
  pub contains : String → String → Bool
  -- regexp
  pub Regexp : Type 0
  pub compile : String → Option Regexp
  pub match_string : Regexp → String → Bool
  -- time
  pub Instant : Type 0
  pub parse_rfc3339 : String → Option Instant
  pub unix_milli : ℤ → Instant
  pub before : Instant → Instant → Bool
  pub after : Instant → Instant → Bool
  -- semver
  pub SemVer : Type 0
  pub new_version : String → Option SemVer
  pub equal : SemVer → SemVer → Bool
  pub less_than : SemVer → SemVer → Bool
  pub greater_than : SemVer → SemVer → Bool
  -- hex.EncodeToString of sha1.Sum
  pub sha1_hex : String → String

pub record Context (F : Type 0) : Type 0 where
  pub kind : String
  pub key : String
  pub anonymous : Bool
  pub attributes : Dict (Value F)
  pub private_attributes : List String

-- `GetAttribute`: the built-in names come before the attributes. A nil map has no key.
unfoldable pub get_attribute : {F : Type 0} → Context F → String → Option (Value F)
get_attribute c name =
    if name == "key"
    then some (Value.text c.key)
    else if name == "kind"
    then some (Value.text c.kind)
    else if name == "anonymous"
    then some (Value.bool c.anonymous)
    else Dict.get name c.attributes

-- `eval.Store`
pub record EvalStore : Type 0 where
  pub get_flag : String → Option (Flag × FlagConfig)
  pub get_segment : String → Option Segment
