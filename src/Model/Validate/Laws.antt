-- ===== src/Model/Validate/Laws.antt =====
-- What the validators of internal/model accept.
use pennant.Prelude.{
  ℕ, suc, ◌≤◌, ◌<◌, String, Option, none, some, List, [], ◌∷◌, true, false, ◌≡◌, ◌≢◌, ◌↔◌, arith,
  eq_iff, length, member, All,
}
use pennant.Prelude.Int.{ℤ, pos, negsuc, ◌+ℤ◌, wrap64, eqb_ℤ_iff}
use pennant.Prelude.Dict.{Dict}
use pennant.Model.Types.{WeightedVariation, Rollout, Rule, FlagConfig, Flag, Segment}
use pennant.Model.Validate.{
  ValidationError, valid, total_weight, in_range, sum_weights, validate_rollout, validate_rollout?,
  index_error, ◌<then>◌, validate_rules, validate_flag_config, validate_configs, validate_flag,
  first_conflict, validate_segment,
}

-- An index into `n` variations.
abbrev pub InRange : ℕ → ℤ → Type 0
InRange n (pos i) = i < n
InRange n (negsuc i) = ⊥

abbrev pub OptInRange : ℕ → Option ℤ → Type 0
OptInRange n none = Unit
OptInRange n (some i) = InRange n i

-- The weights added as Go adds them.
abbrev pub weight_sum : ℤ → List WeightedVariation → ℤ
weight_sum sum [] = sum
weight_sum sum (wv ∷ wvs) = weight_sum (wrap64 (sum +ℤ wv.weight)) wvs

abbrev pub IsValidRollout : ℕ → Rollout → Type 0
IsValidRollout n ro =
    All (λ (wv : WeightedVariation). InRange n wv.variation) ro.variations
    × (weight_sum (pos 0) ro.variations ≡ total_weight)

abbrev pub OptValidRollout : ℕ → Option Rollout → Type 0
OptValidRollout n none = Unit
OptValidRollout n (some ro) = IsValidRollout n ro

-- Rules with ids that are not empty, not in `seen` and not repeated, and with indices in range.
abbrev pub AreValidRules : ℕ → List String → List Rule → Type 0
AreValidRules n seen [] = Unit
AreValidRules n seen (r ∷ rs) =
    (r.id ≢ "")
    × (member r.id seen ≡ false)
    × OptInRange n r.serve.variation
    × OptValidRollout n r.serve.rollout
    × AreValidRules n (r.id ∷ seen) rs

abbrev pub IsValidConfig : ℕ → FlagConfig → Type 0
IsValidConfig n cfg =
    OptInRange n cfg.off_variation
    × AreValidRules n [] cfg.rules
    × OptValidRollout n cfg.fallthrough.rollout

-- The configuration is there, and valid.
abbrev pub IsConfigured : ℕ → Option FlagConfig → Type 0
IsConfigured n none = ⊥
IsConfigured n (some cfg) = IsValidConfig n cfg

abbrev pub IsValidFlag : Flag → Type 0
IsValidFlag f =
    (2 ≤ length f.variations)
    × All (λ (e : String × Option FlagConfig). IsConfigured (length f.variations) e.1)
        f.environments

in_range_iff : (i : ℤ) (n : ℕ) → (in_range i n ≡ true) ↔ InRange n i
unfolding in_range
in_range_iff (pos i) n = ground arith
in_range_iff (negsuc i) n = ground arith

index_error_iff :
    (e : ℤ → ValidationError) (n : ℕ) (o : Option ℤ) → (index_error e n o ≡ none) ↔ OptInRange n o
unfolding index_error
index_error_iff e n none = ground arith
index_error_iff e n (some i) = ground (arith, in_range_iff i n)

sum_weights_iff :
    (n : ℕ) (env rule : String) (wvs : List WeightedVariation) (sum : ℤ)
    → (sum_weights n env rule wvs sum ≡ none) ↔ (
        All (λ (wv : WeightedVariation). InRange n wv.variation) wvs
        × (weight_sum sum wvs ≡ total_weight))
unfolding sum_weights
sum_weights_iff n env rule [] sum = ground (arith, eqb_ℤ_iff sum total_weight)
sum_weights_iff n env rule (wv ∷ wvs) sum =
    ground (
      arith,
      in_range_iff wv.variation n,
      sum_weights_iff n env rule wvs (wrap64 (sum +ℤ wv.weight)),
    )

validate_rollout?_iff :
    (n : ℕ) (env rule : String) (o : Option Rollout)
    → (validate_rollout? n env rule o ≡ none) ↔ OptValidRollout n o
unfolding validate_rollout? validate_rollout
validate_rollout?_iff n env rule none = ground arith
validate_rollout?_iff n env rule (some ro) = sum_weights_iff n env rule ro.variations (pos 0)

-- A chain of checks passes exactly when each does.
then_iff : (a b : Option ValidationError) → ((a <then> b) ≡ none) ↔ ((a ≡ none) × (b ≡ none))
then_iff none b = ground arith
then_iff (some e) b = ground arith

validate_rules_iff :
    (n : ℕ) (env : String) (seen : List String) (i : ℕ) (rules : List Rule)
    → (validate_rules n env seen i rules ≡ none) ↔ AreValidRules n seen rules
unfolding validate_rules
validate_rules_iff n env seen i [] = ground arith
validate_rules_iff n env seen i (r ∷ rs) = ground (
  arith,
  eq_iff r.id "",
  index_error_iff (ValidationError.variation_range env r.id) n r.serve.variation,
  validate_rollout?_iff n env r.id r.serve.rollout,
  validate_rules_iff n env (r.id ∷ seen) (suc i) rs,
)

pub validate_flag_config_iff :
    (n : ℕ) (env : String) (cfg : FlagConfig)
    → (validate_flag_config n env cfg ≡ none) ↔ IsValidConfig n cfg
unfolding validate_flag_config
validate_flag_config_iff n env cfg = ground (
  arith,
  index_error_iff (ValidationError.off_variation_range env) n cfg.off_variation,
  validate_rules_iff n env [] 0 cfg.rules,
  validate_rollout?_iff n env "fallthrough" cfg.fallthrough.rollout,
)

validate_configs_iff :
    (n : ℕ) (m : Dict (Option FlagConfig))
    → (validate_configs n m ≡ valid)
      ↔ All (λ (e : String × Option FlagConfig). IsConfigured n e.1) m
unfolding validate_configs
validate_configs_iff n [] = ground arith
validate_configs_iff n ((env, none) ∷ rest) = ground arith
validate_configs_iff n ((env, some cfg) ∷ rest) =
    ground (arith, validate_flag_config_iff n env cfg, validate_configs_iff n rest)

-- A flag passes `Validate` exactly when it has two variations or more and in each environment there is a
-- configuration, the off variation, the variations that rules serve and those of the rollouts are indices in range,
-- rule ids are neither empty nor repeated, and the weights of each rollout add up to 100000.
pub validate_flag_iff : (f : Flag) → (validate_flag f ≡ valid) ↔ IsValidFlag f
unfolding validate_flag
validate_flag_iff f = ground (arith, validate_configs_iff (length f.variations) f.environments)

first_conflict_iff :
    (key : String) (excluded ks : List String)
    → (first_conflict key excluded ks ≡ none) ↔ All (λ k. member k excluded ≡ false) ks
unfolding first_conflict
first_conflict_iff key excluded [] = ground arith
first_conflict_iff key excluded (k ∷ ks) = ground (arith, first_conflict_iff key excluded ks)

-- A segment passes `Validate` exactly when no included key is excluded too.
pub validate_segment_iff :
    (s : Segment) → (validate_segment s ≡ none) ↔ All (λ k. member k s.excluded ≡ false) s.included
unfolding validate_segment
validate_segment_iff s = first_conflict_iff s.key s.excluded s.included
