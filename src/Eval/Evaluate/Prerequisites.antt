-- ===== src/Eval/Evaluate/Prerequisites.antt =====
-- Prerequisites in internal/eval/evaluate.go: the recursion ends, and what a failed one reports.
use pennant.Prelude.{
  ℕ, zero, suc, ◌+◌, ◌≤◌, ◌<◌, String, Option, none, some, List, [], ◌∷◌, ◌++◌, Bool, true, false,
  not, ◌||◌, ◌≡◌, refl, arith, ◌>>=◌, ltb, member, All, Returns, bind-Returns, if-Returns,
  if◌then◌else◌,
}
use pennant.Prelude.Int.{ℤ}
use pennant.Model.Types.{err_prereq_cycle, Rule, Prerequisite, FlagConfig, Flag, Segment}
use pennant.Eval.Runtime.{Runtime, Context, EvalStore}
use pennant.Eval.Clauses.{rule_matches}
use pennant.Eval.Clauses.Fuel.{Refers, rule_matches_total}
use pennant.Eval.Evaluate.{
  Outcome, error_reason, prerequisite_failed, off_result, first_rule, prerequisite_met,
  failed_prerequisite, after_targets, after_prerequisites, max_prerequisite_depth, evaluate_step,
  evaluate_with_depth, evaluate, first_target,
}

first_rule_total :
    (f : Rule → Option Bool)
    → ((r : Rule) → Returns (f r))
    → (i : ℕ) (rules : List Rule) → Returns (first_rule f i rules)
unfolding first_rule
first_rule_total f h i [] = (none, refl)
first_rule_total f h i (r ∷ rs) =
    bind-Returns (f r) _ (h r) (λ b. if-Returns b _ _ (_, refl) (first_rule_total f h (suc i) rs))

module _ (rt : Runtime) (store : EvalStore) (ctx : Context rt.Float) (fuel : ℕ) where
  open rt use {Float}

  prerequisite_met_total :
      (eval : Flag → FlagConfig → Option (Outcome Float))
      → ((flag : Flag) (cfg : FlagConfig) → Returns (eval flag cfg))
      → (p : Prerequisite) (o : Option (Flag × FlagConfig))
      → Returns (prerequisite_met rt store ctx fuel eval p o)
  unfolding prerequisite_met
  prerequisite_met_total eval h p none = (false, refl)
  prerequisite_met_total eval h p (some (pf, pcfg)) =
      if-Returns pcfg.on _ _ (bind-Returns (eval pf pcfg) _ (h pf pcfg) (λ out. (_, refl)))
        (false, refl)

  failed_prerequisite_total :
      (eval : Flag → FlagConfig → Option (Outcome Float))
      → ((flag : Flag) (cfg : FlagConfig) → Returns (eval flag cfg))
      → (ps : List Prerequisite) → Returns (failed_prerequisite rt store ctx fuel eval ps)
  unfolding failed_prerequisite
  failed_prerequisite_total eval h [] = (none, refl)
  failed_prerequisite_total eval h (p ∷ ps) =
      bind-Returns (prerequisite_met rt store ctx fuel eval p (store.get_flag p.flag_key)) _
        (prerequisite_met_total eval h p _)
        (λ b. if-Returns b _ _ (failed_prerequisite_total eval h ps) (_, refl))

  module _ (rules_end : (r : Rule) → Returns (rule_matches rt store ctx fuel r)) where
    after_prerequisites_total :
        (flag : Flag) (cfg : FlagConfig) (o : Option String)
        → Returns (after_prerequisites rt store ctx fuel flag cfg o)
    unfolding after_prerequisites
    after_prerequisites_total flag cfg (some key) = (_, refl)
    after_prerequisites_total flag cfg none = targets (first_target ctx.key cfg.targets)
      where
        targets : (o : Option ℤ) → Returns (after_targets rt store ctx fuel flag cfg o)
        targets (some v) = unfold after_targets in (_, refl)
        targets none =
            unfold after_targets in
            bind-Returns (first_rule (rule_matches rt store ctx fuel) 0 cfg.rules) _
              (first_rule_total _ rules_end 0 cfg.rules) (λ r. (_, refl))

    evaluate_step_total :
        (eval : List String → Flag → FlagConfig → Option (Outcome Float)) (depth : ℕ)
        (visited : List String) (flag : Flag) (cfg : FlagConfig)
        → (depth ≤ 20
            → (pf : Flag) (pcfg : FlagConfig) → Returns (eval (flag.key ∷ visited) pf pcfg))
        → Returns (evaluate_step rt store ctx fuel eval depth visited flag cfg)
    unfolding evaluate_step
    evaluate_step_total eval depth visited flag cfg h =
        if-Returns (not cfg.on) _ _ (_, refl)
          (deep (ltb max_prerequisite_depth depth || member flag.key visited) refl)
      where
        call : Option (Option String)
        call = failed_prerequisite rt store ctx fuel (eval (flag.key ∷ visited)) cfg.prerequisites

        deep :
            (b : Bool)
            → (ltb max_prerequisite_depth depth || member flag.key visited) ≡ b
            → Returns (
                if b
                then some (off_result rt flag cfg (error_reason err_prereq_cycle))
                else (call >>= after_prerequisites rt store ctx fuel flag cfg))
        deep true e = (_, refl)
        deep false e =
            bind-Returns call _ (failed_prerequisite_total _ (h (ground arith)) cfg.prerequisites)
              (after_prerequisites_total flag cfg)

    -- The depth test stops the recursion: with `n` rounds left at depth `d`, 22 in all are enough.
    evaluate_with_depth_total :
        (n depth : ℕ) (visited : List String) (flag : Flag) (cfg : FlagConfig)
        → 22 ≤ n + depth
        → 0 < n
        → Returns (evaluate_with_depth rt store ctx fuel n depth visited flag cfg)
    unfolding evaluate_with_depth
    evaluate_with_depth_total zero depth visited flag cfg h left = absurd (omega arith)
    evaluate_with_depth_total (suc n) depth visited flag cfg h left =
        evaluate_step_total _ depth visited flag cfg (λ shallow pf pcfg.
          evaluate_with_depth_total n (suc depth) (flag.key ∷ visited) pf pcfg (omega arith)
            (omega arith))

  -- Evaluation ends, prerequisite cycles included: if segments refer only to segments of smaller rank
  -- and the segments' fuel passes every rank, each flag and configuration has a result.
  pub evaluate_total :
      (rank : Segment → ℕ) (top : ℕ)
      → ((seg target : Segment) → Refers rt store ctx seg target → rank target < rank seg)
      → ((seg : Segment) → rank seg ≤ top)
      → top < fuel
      → (flag : Flag) (cfg : FlagConfig) → Returns (evaluate rt store ctx fuel flag cfg)
  unfolding evaluate
  evaluate_total rank top down bounded h flag cfg =
      evaluate_with_depth_total
        (λ r. rule_matches_total rt store ctx rank top down bounded fuel r h) 22 0 [] flag cfg
        (omega arith) (omega arith)

  -- A prerequisite of a flag at the top, as `Evaluate` judges it.
  abbrev pub met : Flag → Prerequisite → Option Bool
  met flag p =
      prerequisite_met rt store ctx fuel
        (evaluate_with_depth rt store ctx fuel 21 1 (flag.key ∷ [])) p (store.get_flag p.flag_key)

  failed_prerequisite_first :
      (eval : Flag → FlagConfig → Option (Outcome Float)) (ps qs : List Prerequisite)
      (p : Prerequisite)
      → All
          (λ (q : Prerequisite).
            prerequisite_met rt store ctx fuel eval q (store.get_flag q.flag_key) ≡ some true)
          ps
      → prerequisite_met rt store ctx fuel eval p (store.get_flag p.flag_key) ≡ some false
      → failed_prerequisite rt store ctx fuel eval (ps ++ p ∷ qs) ≡ some (some p.flag_key)
  unfolding failed_prerequisite
  failed_prerequisite_first eval [] qs p h e = simp e
  failed_prerequisite_first eval (q ∷ ps) qs p h e =
      simp (h.0) (failed_prerequisite_first eval ps qs p h.1 e)

  pub failed_prerequisite-none :
      (eval : Flag → FlagConfig → Option (Outcome Float)) (ps : List Prerequisite)
      → All
          (λ (q : Prerequisite).
            prerequisite_met rt store ctx fuel eval q (store.get_flag q.flag_key) ≡ some true)
          ps
      → failed_prerequisite rt store ctx fuel eval ps ≡ some none
  unfolding failed_prerequisite
  failed_prerequisite-none eval [] h = refl
  failed_prerequisite-none eval (q ∷ ps) h = simp (h.0) (failed_prerequisite-none eval ps h.1)

  -- A flag that is on and whose prerequisites are met up to one that is not serves its off variation,
  -- with the key of that one in the reason, whatever stands behind it.
  pub evaluate_first_unmet :
      (flag : Flag) (cfg : FlagConfig) (ps qs : List Prerequisite) (p : Prerequisite)
      → cfg.on ≡ true
      → cfg.prerequisites ≡ ps ++ p ∷ qs
      → All (λ q. met flag q ≡ some true) ps
      → met flag p ≡ some false
      → evaluate rt store ctx fuel flag cfg
        ≡ some (off_result rt flag cfg (prerequisite_failed p.flag_key))
  unfolding evaluate evaluate_with_depth evaluate_step after_prerequisites
  evaluate_first_unmet flag cfg ps qs p on split before unmet =
      simp (on, split, failed_prerequisite_first _ ps qs p before unmet)
