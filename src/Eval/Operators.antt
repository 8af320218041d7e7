-- ===== src/Eval/Operators.antt =====
-- internal/eval/operators.go: the operators of a clause on one attribute value and one clause value.
pub mod RegexCache
use pennant.Prelude.{
  ℕ, String, Option, none, some, List, [], ◌∷◌, Bool, true, false, ◌&&◌, ◌==◌, ◌>>=◌, or_else,
  if◌then◌else◌,
}
use pennant.Prelude.Int.{ℤ, eqb_ℤ}
use pennant.Model.Types.{
  RawMessage, Operator, op_in, op_ends_with, op_starts_with, op_matches, op_contains, op_less_than,
  op_less_than_or_eq, op_greater_than, op_greater_than_or_eq, op_before, op_after, op_sem_ver_equal,
  op_sem_ver_less_than, op_sem_ver_greater_than, op_segment_match, op_other,
}
use pennant.Eval.Runtime.{Runtime, Value}

module _ (rt : Runtime) where
  open rt use {
    Float, of_int, to_int64, lt, le, eq, parse_float, unmarshal_any, unmarshal_string,
    unmarshal_float, has_prefix, has_suffix, contains, compile, match_string, Instant,
    parse_rfc3339, unix_milli, before, after, SemVer, new_version, equal, less_than, greater_than,
  }

  abbrev pub string? : Value Float → Option String
  string? (Value.text s) = some s
  string? _ = none

  -- The type switch on `a`, each case with its assertion on `b`.
  unfoldable pub json_values_equal : Value Float → Value Float → Bool
  json_values_equal (Value.text a) (Value.text b) = a == b
  json_values_equal (Value.float a) (Value.float b) = eq a b
  json_values_equal (Value.bool true) (Value.bool true) = true
  json_values_equal (Value.bool false) (Value.bool false) = true
  json_values_equal Value.null Value.null = true
  json_values_equal a b = false

  unfoldable pub match_in : Value Float → RawMessage → Bool
  match_in v raw = or_else (unmarshal_any raw >>= λ cv. some (json_values_equal v cv)) false

  unfoldable pub match_string_op : Value Float → RawMessage → (String → String → Bool) → Bool
  match_string_op v raw fn =
      or_else (string? v >>= λ av. unmarshal_string raw >>= λ cv. some (fn av cv)) false

  -- `matchRegex` without its cache; the cached code is in `RegexCache`.
  unfoldable pub match_regex : Value Float → RawMessage → Bool
  match_regex v raw =
      or_else
        (string? v >>= λ av.
          unmarshal_string raw >>= λ pattern. compile pattern >>= λ re. some (match_string re av))
        false

  unfoldable pub to_float64 : Value Float → Option Float
  to_float64 (Value.float f) = some f
  to_float64 (Value.int i) = some (of_int i)
  to_float64 (Value.text s) = parse_float s
  to_float64 v = none

  unfoldable pub match_numeric : Value Float → RawMessage → (Float → Float → Bool) → Bool
  match_numeric v raw fn =
      or_else (to_float64 v >>= λ av. unmarshal_float raw >>= λ cv. some (fn av cv)) false

  unfoldable pub parse_time : Value Float → Option Instant
  parse_time (Value.text s) = parse_rfc3339 s
  parse_time (Value.float f) = some (unix_milli (to_int64 f))
  parse_time v = none

  abbrev pub or_millis : RawMessage → Option Instant → Option Instant
  or_millis raw (some t) = some t
  or_millis raw none = unmarshal_float raw >>= λ ms. some (unix_milli (to_int64 ms))

  -- A string that is no date falls through to the number.
  unfoldable pub parse_time_from_json : RawMessage → Option Instant
  parse_time_from_json raw = or_millis raw (unmarshal_string raw >>= parse_rfc3339)

  unfoldable pub match_datetime : Value Float → RawMessage → (Instant → Instant → Bool) → Bool
  match_datetime v raw fn =
      or_else (parse_time v >>= λ a. parse_time_from_json raw >>= λ b. some (fn a b)) false

  unfoldable pub match_sem_ver : Value Float → RawMessage → (SemVer → SemVer → Bool) → Bool
  match_sem_ver v raw fn =
      or_else
        (string? v >>= new_version >>= λ a.
          unmarshal_string raw >>= new_version >>= λ b. some (fn a b))
        false

  unfoldable pub match_operator : Operator → Value Float → RawMessage → Bool
  match_operator op_in v raw = match_in v raw
  match_operator op_starts_with v raw = match_string_op v raw has_prefix
  match_operator op_ends_with v raw = match_string_op v raw has_suffix
  match_operator op_contains v raw = match_string_op v raw contains
  match_operator op_matches v raw = match_regex v raw
  match_operator op_less_than v raw = match_numeric v raw lt
  match_operator op_less_than_or_eq v raw = match_numeric v raw le
  match_operator op_greater_than v raw = match_numeric v raw (λ a b. lt b a)
  match_operator op_greater_than_or_eq v raw = match_numeric v raw (λ a b. le b a)
  match_operator op_before v raw = match_datetime v raw before
  match_operator op_after v raw = match_datetime v raw after
  match_operator op_sem_ver_equal v raw = match_sem_ver v raw equal
  match_operator op_sem_ver_less_than v raw = match_sem_ver v raw less_than
  match_operator op_sem_ver_greater_than v raw = match_sem_ver v raw greater_than
  match_operator op_segment_match v raw = false
  match_operator (op_other name) v raw = false
