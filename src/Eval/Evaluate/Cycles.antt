-- ===== src/Eval/Evaluate/Cycles.antt =====
-- The reason PREREQUISITE_CYCLE of internal/eval/evaluate.go, and where it can show.
use pennant.Prelude.{ℕ, String, Option, none, some, List, [], ◌∷◌, ◌≡◌, ◌≢◌, arith}
use pennant.Prelude.Ensures.{Ensures, Ensures-pure, Ensures-bind}
use pennant.Prelude.Int.{ℤ}
use pennant.Model.Types.{
  Variation, WeightedVariation, Rollout, Rule, FlagConfig, Flag, Reason, err_prereq_cycle,
}
use pennant.Eval.Runtime.{Runtime, Context, EvalStore}
use pennant.Eval.Clauses.{rule_matches}
use pennant.Eval.Evaluate.Rules.{evaluate_step_rule}
use pennant.Eval.Evaluate.{
  Outcome, nth_variation, served, variation_result, off_from, off_result, rollout_result, resolve,
  resolve_variation_or_rollout, first_rule, after_rules, after_targets, after_prerequisites,
  evaluate_with_depth, evaluate,
}

module _ (rt : Runtime) where
  open rt use {Float}

  -- The reason does not speak of a cycle.
  abbrev pub NoCycle : Outcome Float → Type 0
  NoCycle out = out.reason.error_kind ≢ some err_prereq_cycle

  served-NoCycle :
      (idx : ℤ) (reason : Reason) (o : Option Variation)
      → reason.error_kind ≢ some err_prereq_cycle
      → NoCycle (served rt idx reason o)
  served-NoCycle idx reason none h e = cc
  served-NoCycle idx reason (some v) h e = h e

  variation_result-NoCycle :
      (flag : Flag) (idx : ℤ) (reason : Reason)
      → reason.error_kind ≢ some err_prereq_cycle
      → NoCycle (variation_result rt flag idx reason)
  unfolding variation_result
  variation_result-NoCycle flag idx reason h =
      served-NoCycle idx reason (nth_variation flag.variations idx) h

  off_from-NoCycle :
      (flag : Flag) (o : Option ℤ) (reason : Reason)
      → reason.error_kind ≢ some err_prereq_cycle
      → NoCycle (off_from rt flag o reason)
  unfolding off_from
  off_from-NoCycle flag none reason h = h
  off_from-NoCycle flag (some i) reason h = variation_result-NoCycle flag i reason h

  rollout_result-NoCycle :
      (flag : Flag) (cfg : FlagConfig) (ro : Rollout) (wvs : List WeightedVariation)
      (ctx : Context Float) (reason : Reason)
      → reason.error_kind ≢ some err_prereq_cycle
      → NoCycle (rollout_result rt flag cfg ro wvs ctx reason)
  unfolding rollout_result
  rollout_result-NoCycle flag cfg ro [] ctx reason h = λ e. cc
  rollout_result-NoCycle flag cfg ro (wv ∷ wvs) ctx reason h =
      variation_result-NoCycle flag _ (record reason { in_experiment = ro.is_experiment }) h

  resolve-NoCycle :
      (flag : Flag) (cfg : FlagConfig) (v : Option ℤ) (ro : Option Rollout) (ctx : Context Float)
      (reason : Reason)
      → reason.error_kind ≢ some err_prereq_cycle
      → NoCycle (resolve rt flag cfg v ro ctx reason)
  unfolding resolve
  resolve-NoCycle flag cfg (some v) ro ctx reason h = variation_result-NoCycle flag v reason h
  resolve-NoCycle flag cfg none none ctx reason h = λ e. cc
  resolve-NoCycle flag cfg none (some ro) ctx reason h =
      rollout_result-NoCycle flag cfg ro ro.variations ctx reason h

  module _ (store : EvalStore) (ctx : Context Float) (fuel : ℕ) where
    after_rules-NoCycle :
        (flag : Flag) (cfg : FlagConfig) (r : Option (ℕ × Rule))
        → NoCycle (after_rules rt store ctx fuel flag cfg r)
    unfolding after_rules resolve_variation_or_rollout
    after_rules-NoCycle flag cfg none = resolve-NoCycle flag cfg _ _ ctx _ (λ e. cc)
    after_rules-NoCycle flag cfg (some (i, rule)) = resolve-NoCycle flag cfg _ _ ctx _ (λ e. cc)

    after_targets-NoCycle :
        (flag : Flag) (cfg : FlagConfig) (o : Option ℤ)
        → Ensures NoCycle (after_targets rt store ctx fuel flag cfg o)
    unfolding after_targets
    after_targets-NoCycle flag cfg none =
        Ensures-bind (first_rule (rule_matches rt store ctx fuel) 0 cfg.rules)
          (λ r. some (after_rules rt store ctx fuel flag cfg r))
          (λ r _.
            Ensures-pure (after_rules rt store ctx fuel flag cfg r)
              (after_rules-NoCycle flag cfg r))
    after_targets-NoCycle flag cfg (some v) =
        Ensures-pure (variation_result rt flag v _) (variation_result-NoCycle flag v _ (λ e. cc))

    after_prerequisites-NoCycle :
        (flag : Flag) (cfg : FlagConfig) (o : Option String)
        → Ensures NoCycle (after_prerequisites rt store ctx fuel flag cfg o)
    unfolding after_prerequisites off_result
    after_prerequisites-NoCycle flag cfg none = after_targets-NoCycle flag cfg _
    after_prerequisites-NoCycle flag cfg (some key) =
        Ensures-pure (off_result rt flag cfg _) (off_from-NoCycle flag _ _ (λ e. cc))

    -- The reason PREREQUISITE_CYCLE is one that no caller of `Evaluate` ever sees: a cycle is met
    -- only below a prerequisite, whose reason is dropped.
    pub evaluate-NoCycle :
        (flag : Flag) (cfg : FlagConfig) {out : Outcome Float}
        → evaluate rt store ctx fuel flag cfg ≡ some out
        → out.reason.error_kind ≢ some err_prereq_cycle
    unfolding evaluate evaluate_with_depth off_result
    evaluate-NoCycle flag cfg e =
        (evaluate_step_rule rt store ctx fuel NoCycle _ 0 [] flag cfg
            (λ reason early. off_from-NoCycle flag cfg.off_variation reason (ground arith))
            (λ o _. after_prerequisites-NoCycle flag cfg o)).at
          _ e
