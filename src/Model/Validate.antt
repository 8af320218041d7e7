-- ===== src/Model/Validate.antt =====
-- `Flag.Validate`, `validateFlagConfig` and `validateRollout` of internal/model/flag.go, and
-- `Segment.Validate` of internal/model/segment.go. A nil error is `none`.
pub mod Laws
use pennant.Prelude.{
  ℕ, suc, ◌^◌, String, Option, none, some, List, [], ◌∷◌, Bool, true, false, not, ◌&&◌, ◌||◌, ◌==◌,
  ltb, length, member, if◌then◌else◌,
}
use pennant.Prelude.Int.{ℤ, pos, negsuc, ◌+ℤ◌, wrap64, eqb_ℤ}
use pennant.Prelude.Dict.{Dict}
use pennant.Model.Types.{
  WeightedVariation, Rollout, VariationOrRollout, Rule, FlagConfig, Flag, Segment,
}

-- One constructor for each `fmt.Errorf`, with the values that it prints.
pub data ValidationError : Type 0 where
  too_few_variations : String → ℕ → ValidationError
  off_variation_range : String → ℤ → ValidationError
  empty_rule_id : String → ℕ → ValidationError
  duplicate_rule_id : String → String → ValidationError
  variation_range : String → String → ℤ → ValidationError
  rollout_variation_range : String → String → ℤ → ValidationError
  rollout_weight_sum : String → String → ℤ → ValidationError
  included_and_excluded : String → String → ValidationError

abbrev pub total_weight : ℤ
total_weight = pos 100000

-- `idx < 0 || idx >= len(f.Variations)`, negated
unfoldable pub in_range : ℤ → ℕ → Bool
in_range (pos i) n = ltb i n
in_range (negsuc i) n = false

-- The loop of `validateRollout`; `sum` is a Go `int`.
unfoldable pub sum_weights :
    ℕ → String → String → List WeightedVariation → ℤ → Option ValidationError
sum_weights n env rule [] sum =
    if eqb_ℤ sum total_weight then none else some (rollout_weight_sum env rule sum)
sum_weights n env rule (wv ∷ wvs) sum =
    let rest = sum_weights n env rule wvs (wrap64 (sum +ℤ wv.weight)) in
    if in_range wv.variation n then rest else some (rollout_variation_range env rule wv.variation)

unfoldable pub validate_rollout : ℕ → String → String → Rollout → Option ValidationError
validate_rollout n env rule ro = sum_weights n env rule ro.variations (pos 0)

-- `if rule.Rollout != nil`
unfoldable pub validate_rollout? : ℕ → String → String → Option Rollout → Option ValidationError
validate_rollout? n env rule none = none
validate_rollout? n env rule (some ro) = validate_rollout n env rule ro

-- The error of an index that is out of range.
unfoldable pub index_error : (ℤ → ValidationError) → ℕ → Option ℤ → Option ValidationError
index_error e n none = none
index_error e n (some i) = if in_range i n then none else some (e i)

-- A nil error hands on to the next check.
infixr 20 ◌<then>◌
abbrev pub ◌<then>◌ : Option ValidationError → Option ValidationError → Option ValidationError
none <then> next = next
some e <then> next = some e

-- The loop over `cfg.Rules`; `seen` is the set `ruleIDs`, and `i` the loop's index.
unfoldable pub validate_rules : ℕ → String → List String → ℕ → List Rule → Option ValidationError
validate_rules n env seen i [] = none
validate_rules n env seen i (rule ∷ rules) =
    let rest = validate_rules n env (rule.id ∷ seen) (suc i) rules in
    if rule.id == ""
    then some (empty_rule_id env i)
    else if member rule.id seen
    then some (duplicate_rule_id env rule.id)
    else index_error (variation_range env rule.id) n rule.serve.variation
      <then> validate_rollout? n env rule.id rule.serve.rollout
      <then> rest

unfoldable pub validate_flag_config : ℕ → String → FlagConfig → Option ValidationError
validate_flag_config n env cfg =
    index_error (off_variation_range env) n cfg.off_variation
    <then> validate_rules n env [] 0 cfg.rules
    <then> validate_rollout? n env "fallthrough" cfg.fallthrough.rollout

-- What a validator returns, or that it panics: a nil configuration is dereferenced.
pub data Validation : Type 0 where
  valid panicked : Validation
  invalid : ValidationError → Validation

abbrev pub validation_of : Option ValidationError → Validation
validation_of none = valid
validation_of (some e) = invalid e

unfoldable pub validate_configs : ℕ → Dict (Option FlagConfig) → Validation
validate_configs n [] = valid
validate_configs n ((env, none) ∷ rest) = panicked
validate_configs n ((env, some cfg) ∷ rest) = elim (validate_flag_config n env cfg) [
  | none ↦ validate_configs n rest
  | some e ↦ invalid e
]

unfoldable pub validate_flag : Flag → Validation
validate_flag f =
    if ltb (length f.variations) 2
    then invalid (too_few_variations f.key (length f.variations))
    else validate_configs (length f.variations) f.environments

-- The loop over `s.Included`, with the excluded keys as the set.
unfoldable pub first_conflict : String → List String → List String → Option ValidationError
first_conflict key excluded [] = none
first_conflict key excluded (k ∷ ks) =
    if member k excluded then some (included_and_excluded key k) else first_conflict key excluded ks

unfoldable pub validate_segment : Segment → Option ValidationError
validate_segment s = first_conflict s.key s.excluded s.included
