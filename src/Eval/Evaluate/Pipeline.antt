-- ===== src/Eval/Evaluate/Pipeline.antt =====
-- What Evaluate of internal/eval/evaluate.go promises: the first of the steps off, prerequisites, targets, rules and
-- fallthrough that applies decides, and within a step the first entry that does.
use pennant.Prelude.{
  ℕ, suc, String, Option, none, some, List, [], ◌∷◌, ◌++◌, Bool, true, false, ◌≡◌, ◌↔◌, inl, inr,
  refl, sym, ap, ◌∙◌, All, member, length, Bool-cases, some_injective,
}
use pennant.Prelude.Scans.{FirstAt, scan}
use pennant.Model.Types.{
  Prerequisite, Target, Rule, FlagConfig, Flag, reason_off, reason_fallthrough, reason_target_match,
}
use pennant.Eval.Runtime.{Runtime, Context, EvalStore}
use pennant.Eval.Clauses.{rule_matches}
use pennant.Eval.Evaluate.{
  Outcome, plain, rule_match, prerequisite_failed, variation_result, off_result, first_rule,
  prerequisite_met, failed_prerequisite, resolve_variation_or_rollout, after_targets, evaluate_step,
  evaluate_with_depth, evaluate,
}
use pennant.Eval.Evaluate.Prerequisites.{met, evaluate_first_unmet}
use pennant.Eval.Evaluate.Order.{
  IsEntered, IsUntargeted, entered_lem, first_target-none, evaluate_first_target,
  evaluate_first_rule, evaluate_fallthrough,
}

-- Whether a target lists the key, as a test that always answers.
abbrev pub lists_key : String → Target → Option Bool
lists_key key t = some (member key t.context_keys)

untargeted-All :
    (key : String) (ts : List Target)
    → All (λ t. lists_key key t ≡ some false) ts
    → All (λ (t : Target). member key t.context_keys ≡ false) ts
untargeted-All key [] h = tt
untargeted-All key (t ∷ ts) h = (some_injective (h.0), untargeted-All key ts h.1)

first_rule_stuck :
    (f : Rule → Option Bool) (i : ℕ) (rs qs : List Rule) (r : Rule)
    → All (λ q. f q ≡ some false) rs
    → f r ≡ none
    → first_rule f i (rs ++ r ∷ qs) ≡ none
unfolding first_rule
first_rule_stuck f i [] qs r h e = simp e refl
first_rule_stuck f i (q ∷ rs) qs r h e = simp (h.0) (first_rule_stuck f (suc i) rs qs r h.1 e)

module _ (rt : Runtime) (store : EvalStore) (ctx : Context rt.Float) (fuel : ℕ) where
  open rt use {Float}

  failed_prerequisite_stuck :
      (eval : Flag → FlagConfig → Option (Outcome Float)) (ps qs : List Prerequisite)
      (p : Prerequisite)
      → All
          (λ (q : Prerequisite).
            prerequisite_met rt store ctx fuel eval q (store.get_flag q.flag_key) ≡ some true)
          ps
      → prerequisite_met rt store ctx fuel eval p (store.get_flag p.flag_key) ≡ none
      → failed_prerequisite rt store ctx fuel eval (ps ++ p ∷ qs) ≡ none
  unfolding failed_prerequisite
  failed_prerequisite_stuck eval [] qs p h e = simp e refl
  failed_prerequisite_stuck eval (q ∷ ps) qs p h e =
      simp (h.0) (failed_prerequisite_stuck eval ps qs p h.1 e)

  module _ (flag : Flag) (cfg : FlagConfig) where
    -- The result that the first step that applies gives, and why it is that step.
    pub data Decided (out : Outcome Float) : Type 0 where
      switched_off : cfg.on ≡ false → out ≡ off_result rt flag cfg (plain reason_off) → Decided out
      unmet :
          cfg.on ≡ true
          → (w : FirstAt (met rt store ctx fuel flag) true (some false) cfg.prerequisites)
          → out ≡ off_result rt flag cfg (prerequisite_failed (w.here).flag_key)
          → Decided out
      targeted :
          IsEntered rt store ctx fuel flag cfg
          → (w : FirstAt (lists_key ctx.key) false (some true) cfg.targets)
          → out ≡ variation_result rt flag (w.here).variation (plain reason_target_match)
          → Decided out
      ruled :
          IsEntered rt store ctx fuel flag cfg
          → IsUntargeted rt store ctx fuel cfg
          → (w : FirstAt (rule_matches rt store ctx fuel) false (some true) cfg.rules)
          → out
            ≡ resolve_variation_or_rollout rt flag cfg
                (w.here).serve
                ctx
                (rule_match (length w.before) w.here)
          → Decided out
      fell_through :
          IsEntered rt store ctx fuel flag cfg
          → IsUntargeted rt store ctx fuel cfg
          → All (λ q. rule_matches rt store ctx fuel q ≡ some false) cfg.rules
          → out
            ≡ resolve_variation_or_rollout rt flag cfg cfg.fallthrough ctx
                (plain reason_fallthrough)
          → Decided out

    decided-evaluate :
        (out : Outcome Float) → Decided out → evaluate rt store ctx fuel flag cfg ≡ some out
    decided-evaluate out (switched_off off e) =
        unfold evaluate evaluate_with_depth evaluate_step in simp off (ap some (sym e))
    decided-evaluate out (unmet on w e) =
        evaluate_first_unmet rt store ctx fuel flag cfg w.before w.behind w.here on w.split w.passed
          w.found
        ∙ ap some (sym e)
    decided-evaluate out (targeted h w e) =
        evaluate_first_target rt store ctx fuel flag cfg w.before w.behind w.here h w.split
          (untargeted-All ctx.key w.before w.passed) (some_injective w.found)
        ∙ ap some (sym e)
    decided-evaluate out (ruled h u w e) =
        evaluate_first_rule rt store ctx fuel flag cfg w.before w.behind w.here h u w.split w.passed
          w.found
        ∙ ap some (sym e)
    decided-evaluate out (fell_through h u all e) =
        evaluate_fallthrough rt store ctx fuel flag cfg h u all ∙ ap some (sym e)

    stuck_at_rule :
        IsEntered rt store ctx fuel flag cfg
        → IsUntargeted rt store ctx fuel cfg
        → FirstAt (rule_matches rt store ctx fuel) false none cfg.rules
        → evaluate rt store ctx fuel flag cfg ≡ none
    unfolding after_targets
    stuck_at_rule h u w =
        rw
          (
            entered_lem rt store ctx fuel flag cfg h,
            first_target-none ctx.key cfg.targets u,
            w.split,
            first_rule_stuck (rule_matches rt store ctx fuel) 0 w.before w.behind w.here w.passed
                w.found,
          )
          refl

    stuck_at_prerequisite :
        cfg.on ≡ true
        → FirstAt (met rt store ctx fuel flag) true none cfg.prerequisites
        → evaluate rt store ctx fuel flag cfg ≡ none
    unfolding evaluate evaluate_with_depth evaluate_step
    stuck_at_prerequisite on w =
        simp (on, w.split, failed_prerequisite_stuck _ w.before w.behind w.here w.passed w.found)
          refl

    module _ (out : Outcome Float) (returns : evaluate rt store ctx fuel flag cfg ≡ some out) where
      -- A result that is known is the one returned.
      is_out : {x : Outcome Float} → evaluate rt store ctx fuel flag cfg ≡ some x → out ≡ x
      is_out e = some_injective (sym returns ∙ e)

      returned : evaluate rt store ctx fuel flag cfg ≡ none → ⊥
      returned e = none_is_none (sym e ∙ returns)
        where
          none_is_none : {x : Outcome Float} → none ≡ some x → ⊥
          none_is_none h = cc

      by_rules :
          IsEntered rt store ctx fuel flag cfg → IsUntargeted rt store ctx fuel cfg → Decided out
      by_rules h u = elim (scan (rule_matches rt store ctx fuel) false cfg.rules) [
        | inl none_matches ↦
            fell_through h u none_matches
              (is_out (evaluate_fallthrough rt store ctx fuel flag cfg h u none_matches))
        | inr (inl w) ↦ ruled h u w (
            is_out (
              evaluate_first_rule rt store ctx fuel flag cfg w.before w.behind w.here h u w.split
                w.passed w.found))
        | inr (inr w) ↦ absurd (returned (stuck_at_rule h u w))
      ]

      by_targets : IsEntered rt store ctx fuel flag cfg → Decided out
      by_targets h = elim (scan (lists_key ctx.key) false cfg.targets) [
        | inl none_lists ↦ by_rules h (untargeted-All ctx.key cfg.targets none_lists)
        | inr (inl w) ↦ targeted h w (
            is_out (
              evaluate_first_target rt store ctx fuel flag cfg w.before w.behind w.here h w.split
                (untargeted-All ctx.key w.before w.passed) (some_injective w.found)))
        | inr (inr w) ↦ cc
      ]

      by_prerequisites : cfg.on ≡ true → Decided out
      by_prerequisites on = elim (scan (met rt store ctx fuel flag) true cfg.prerequisites) [
        | inl all_met ↦ by_targets (on, all_met)
        | inr (inl w) ↦ unmet on w (
            is_out (
              evaluate_first_unmet rt store ctx fuel flag cfg w.before w.behind w.here on w.split
                w.passed w.found))
        | inr (inr w) ↦ absurd (returned (stuck_at_prerequisite on w))
      ]

      evaluate-decided : Decided out
      evaluate-decided = elim (Bool-cases cfg.on) [
        | inl on ↦ by_prerequisites on
        | inr off ↦
            switched_off off
              (is_out (unfold evaluate evaluate_with_depth evaluate_step in simp off refl))
      ]

    -- Evaluate returns a result exactly when the first of its steps that applies decides it: the flag is off; a
    -- first prerequisite is not met; a first target lists the context's key; a first rule matches; or none of
    -- these, and the fallthrough is resolved. Each later step stands behind the failure of the ones before it.
    pub evaluate-Decided :
        (out : Outcome Float) → (evaluate rt store ctx fuel flag cfg ≡ some out) ↔ Decided out
    evaluate-Decided out = (evaluate-decided out, decided-evaluate out)
