-- ===== src/Eval/Evaluate/Order.antt =====
-- The order of the steps of internal/eval/evaluate.go: targets before rules, the first match wins.
use pennant.Prelude.{
  ℕ, suc, ◌+◌, String, Option, none, some, List, [], ◌∷◌, ◌++◌, Bool, true, false, ◌≡◌, refl, arith,
  ◌∙◌, ap, length, member, All,
}
use pennant.Model.Types.{Rule, Target, FlagConfig, Flag, reason_fallthrough, reason_target_match}
use pennant.Eval.Runtime.{Runtime, Context, EvalStore}
use pennant.Eval.Clauses.{rule_matches}
use pennant.Eval.Evaluate.Prerequisites.{met, failed_prerequisite-none}
use pennant.Eval.Evaluate.{
  plain, rule_match, first_target, first_rule, variation_result, resolve_variation_or_rollout,
  after_rules, after_targets, after_prerequisites, evaluate_step, evaluate_with_depth, evaluate,
}

first_target_first :
    (key : String) (ts us : List Target) (t : Target)
    → All (λ (s : Target). member key s.context_keys ≡ false) ts
    → member key t.context_keys ≡ true
    → first_target key (ts ++ t ∷ us) ≡ some t.variation
unfolding first_target
first_target_first key [] us t h e = simp e
first_target_first key (s ∷ ts) us t h e = simp (h.0) (first_target_first key ts us t h.1 e)

pub first_target-none :
    (key : String) (ts : List Target)
    → All (λ (s : Target). member key s.context_keys ≡ false) ts
    → first_target key ts ≡ none
unfolding first_target
first_target-none key [] h = refl
first_target-none key (s ∷ ts) h = simp (h.0) (first_target-none key ts h.1)

first_rule_first :
    (f : Rule → Option Bool) (i : ℕ) (rs qs : List Rule) (r : Rule)
    → All (λ q. f q ≡ some false) rs
    → f r ≡ some true
    → first_rule f i (rs ++ r ∷ qs) ≡ some (some (i + length rs, r))
unfolding first_rule
first_rule_first f i [] qs r h e = simp e (ground arith)
first_rule_first f i (q ∷ rs) qs r h e =
    simp (h.0)
      (first_rule_first f (suc i) rs qs r h.1 e ∙ ap (λ k. some (some (k, r))) (omega arith))

first_rule-none :
    (f : Rule → Option Bool) (i : ℕ) (rs : List Rule)
    → All (λ q. f q ≡ some false) rs
    → first_rule f i rs ≡ some none
unfolding first_rule
first_rule-none f i [] h = refl
first_rule-none f i (q ∷ rs) h = simp (h.0) (first_rule-none f (suc i) rs h.1)

module _ (rt : Runtime) (store : EvalStore) (ctx : Context rt.Float) (fuel : ℕ) where
  -- The flag is on and its prerequisites are met.
  abbrev pub IsEntered : Flag → FlagConfig → Type 0
  IsEntered flag cfg =
      (cfg.on ≡ true) × All (λ p. met rt store ctx fuel flag p ≡ some true) cfg.prerequisites

  pub entered_lem :
      (flag : Flag) (cfg : FlagConfig)
      → IsEntered flag cfg
      → evaluate rt store ctx fuel flag cfg
        ≡ after_targets rt store ctx fuel flag cfg (first_target ctx.key cfg.targets)
  unfolding evaluate evaluate_with_depth evaluate_step after_prerequisites
  entered_lem flag cfg (on, h) =
      simp (on, failed_prerequisite-none rt store ctx fuel _ cfg.prerequisites h)

  -- The first target that lists the context's key decides, whatever the rules say: its variation is
  -- served with the reason TARGET_MATCH, if the flag is on and its prerequisites are met.
  pub evaluate_first_target :
      (flag : Flag) (cfg : FlagConfig) (ts us : List Target) (t : Target)
      → IsEntered flag cfg
      → cfg.targets ≡ ts ++ t ∷ us
      → All (λ (s : Target). member ctx.key s.context_keys ≡ false) ts
      → member ctx.key t.context_keys ≡ true
      → evaluate rt store ctx fuel flag cfg
        ≡ some (variation_result rt flag t.variation (plain reason_target_match))
  unfolding after_targets
  evaluate_first_target flag cfg ts us t h split before hit =
      rw (entered_lem flag cfg h, split, first_target_first ctx.key ts us t before hit)

  -- No target lists the context's key.
  abbrev pub IsUntargeted : FlagConfig → Type 0
  IsUntargeted cfg = All (λ (s : Target). member ctx.key s.context_keys ≡ false) cfg.targets

  -- The first rule in stored order that matches decides: with no target for the context, what the rule
  -- serves is the result, with the rule's index and id in the reason.
  pub evaluate_first_rule :
      (flag : Flag) (cfg : FlagConfig) (rs qs : List Rule) (r : Rule)
      → IsEntered flag cfg
      → IsUntargeted cfg
      → cfg.rules ≡ rs ++ r ∷ qs
      → All (λ q. rule_matches rt store ctx fuel q ≡ some false) rs
      → rule_matches rt store ctx fuel r ≡ some true
      → evaluate rt store ctx fuel flag cfg
        ≡ some (resolve_variation_or_rollout rt flag cfg r.serve ctx (rule_match (length rs) r))
  unfolding after_targets after_rules
  evaluate_first_rule flag cfg rs qs r h untargeted split before hit =
      rw
        (
          entered_lem flag cfg h,
          first_target-none ctx.key cfg.targets untargeted,
          split,
          first_rule_first (rule_matches rt store ctx fuel) 0 rs qs r before hit,
        )
        (ground arith)

  -- With no target and no rule for the context, the fallthrough is the result.
  pub evaluate_fallthrough :
      (flag : Flag) (cfg : FlagConfig)
      → IsEntered flag cfg
      → IsUntargeted cfg
      → All (λ q. rule_matches rt store ctx fuel q ≡ some false) cfg.rules
      → evaluate rt store ctx fuel flag cfg
        ≡ some (
            resolve_variation_or_rollout rt flag cfg cfg.fallthrough ctx (plain reason_fallthrough))
  unfolding after_targets after_rules
  evaluate_fallthrough flag cfg h untargeted before = rw (
    entered_lem flag cfg h,
    first_target-none ctx.key cfg.targets untargeted,
    first_rule-none (rule_matches rt store ctx fuel) 0 cfg.rules before,
  )
