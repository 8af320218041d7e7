-- ===== src/Eval/Evaluate/Range.antt =====
-- What the results of internal/eval/evaluate.go hold: an index in range with its variation's value,
-- or no index and no value.
use pennant.Prelude.{ℕ, String, Option, none, some, List, [], ◌∷◌, ◌≡◌, refl, or_else}
use pennant.Prelude.Ensures.{Ensures, Ensures-pure, Ensures-bind}
use pennant.Prelude.Int.{ℤ}
use pennant.Model.Types.{Variation, WeightedVariation, Rollout, Rule, FlagConfig, Flag, Reason}
use pennant.Eval.Runtime.{Runtime, Value, Context, EvalStore}
use pennant.Eval.Clauses.{rule_matches}
use pennant.Eval.Evaluate.Rules.{evaluate_step_rule}
use pennant.Eval.Evaluate.{
  Outcome, nth_variation, served, variation_result, off_from, off_result, rollout_result, resolve,
  resolve_variation_or_rollout, after_rules, after_targets, after_prerequisites, evaluate_step,
  evaluate_with_depth, evaluate, first_rule,
}

module _ (rt : Runtime) where
  open rt use {Float, unmarshal_any}

  -- With an index, the value is the parsed one of the variation at that index; without, it is nil.
  abbrev pub Serves : Flag → Value Float → Option ℤ → Type 0
  Serves flag value none = value ≡ Value.null
  Serves flag value (some i) =
      (v : Variation) × (nth_variation flag.variations i ≡ some v)
      × (value ≡ or_else (unmarshal_any v.value) Value.null)

  abbrev pub IsSound : Flag → Outcome Float → Type 0
  IsSound flag out = Serves flag out.value out.index

  served-IsSound :
      (flag : Flag) (idx : ℤ) (reason : Reason) (o : Option Variation)
      → nth_variation flag.variations idx ≡ o
      → IsSound flag (served rt idx reason o)
  served-IsSound flag idx reason none e = refl
  served-IsSound flag idx reason (some v) e = (v, e, refl)

  variation_result-IsSound :
      (flag : Flag) (idx : ℤ) (reason : Reason) → IsSound flag (variation_result rt flag idx reason)
  unfolding variation_result
  variation_result-IsSound flag idx reason = served-IsSound flag idx reason _ refl

  off_from-IsSound :
      (flag : Flag) (o : Option ℤ) (reason : Reason) → IsSound flag (off_from rt flag o reason)
  unfolding off_from
  off_from-IsSound flag none reason = refl
  off_from-IsSound flag (some idx) reason = variation_result-IsSound flag idx reason

  rollout_result-IsSound :
      (flag : Flag) (cfg : FlagConfig) (ro : Rollout) (wvs : List WeightedVariation)
      (ctx : Context Float) (reason : Reason)
      → IsSound flag (rollout_result rt flag cfg ro wvs ctx reason)
  unfolding rollout_result
  rollout_result-IsSound flag cfg ro [] ctx reason = refl
  rollout_result-IsSound flag cfg ro (wv ∷ wvs) ctx reason = variation_result-IsSound flag _ _

  resolve-IsSound :
      (flag : Flag) (cfg : FlagConfig) (v : Option ℤ) (ro : Option Rollout) (ctx : Context Float)
      (reason : Reason)
      → IsSound flag (resolve rt flag cfg v ro ctx reason)
  unfolding resolve
  resolve-IsSound flag cfg (some v) ro ctx reason = variation_result-IsSound flag v reason
  resolve-IsSound flag cfg none none ctx reason = refl
  resolve-IsSound flag cfg none (some ro) ctx reason =
      rollout_result-IsSound flag cfg ro ro.variations ctx reason

  module _ (store : EvalStore) (ctx : Context Float) (fuel : ℕ) where
    after_rules-IsSound :
        (flag : Flag) (cfg : FlagConfig) (r : Option (ℕ × Rule))
        → IsSound flag (after_rules rt store ctx fuel flag cfg r)
    unfolding after_rules resolve_variation_or_rollout
    after_rules-IsSound flag cfg none = resolve-IsSound flag cfg _ _ ctx _
    after_rules-IsSound flag cfg (some (i, rule)) = resolve-IsSound flag cfg _ _ ctx _

    after_targets-IsSound :
        (flag : Flag) (cfg : FlagConfig) (o : Option ℤ)
        → Ensures (IsSound flag) (after_targets rt store ctx fuel flag cfg o)
    unfolding after_targets
    after_targets-IsSound flag cfg none =
        Ensures-bind (first_rule (rule_matches rt store ctx fuel) 0 cfg.rules)
          (λ r. some (after_rules rt store ctx fuel flag cfg r))
          (λ r _.
            Ensures-pure (after_rules rt store ctx fuel flag cfg r)
              (after_rules-IsSound flag cfg r))
    after_targets-IsSound flag cfg (some v) =
        Ensures-pure (variation_result rt flag v _) (variation_result-IsSound flag v _)

    after_prerequisites-IsSound :
        (flag : Flag) (cfg : FlagConfig) (o : Option String)
        → Ensures (IsSound flag) (after_prerequisites rt store ctx fuel flag cfg o)
    unfolding after_prerequisites off_result
    after_prerequisites-IsSound flag cfg none = after_targets-IsSound flag cfg _
    after_prerequisites-IsSound flag cfg (some key) =
        Ensures-pure (off_result rt flag cfg _) (off_from-IsSound flag _ _)

    evaluate_step-IsSound :
        (eval : List String → Flag → FlagConfig → Option (Outcome Float)) (depth : ℕ)
        (visited : List String) (flag : Flag) (cfg : FlagConfig)
        → Ensures (IsSound flag) (evaluate_step rt store ctx fuel eval depth visited flag cfg)
    unfolding off_result
    evaluate_step-IsSound eval depth visited flag cfg =
        evaluate_step_rule rt store ctx fuel (IsSound flag) eval depth visited flag cfg
          (λ _ _. off_from-IsSound flag _ _) (λ o _. after_prerequisites-IsSound flag cfg o)

    -- Whatever path the evaluation takes, an index that it returns is one of a variation of the flag,
    -- and the value beside it is that variation's JSON parsed (nil if it does not parse); without an
    -- index the value is nil.
    pub evaluate-IsSound :
        (flag : Flag) (cfg : FlagConfig) {out : Outcome Float}
        → evaluate rt store ctx fuel flag cfg ≡ some out
        → IsSound flag out
    unfolding evaluate evaluate_with_depth
    evaluate-IsSound flag cfg e = (evaluate_step-IsSound _ 0 [] flag cfg).at _ e
